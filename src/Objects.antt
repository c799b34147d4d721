-- ===== src/Objects.antt =====
-- internal/objectstore/store.go: the durable store of payloads as its clients see it. The backend
-- (S3) is behind the interface.
use vaps.Base.{◌≡◌, refl, ap, sym, ◌∙◌, Bool, false, Option, none, some, if◌then◌else◌}
use vaps.Text.{Bytes, same, same_refl, codes}
use vaps.Int64.{ℤ}
use vaps.Dict.{Dict, lookup, insert, lookup-insert}

pub record Info : Type 0 where
  pub hash : Bytes
  pub etag : Bytes
  pub checksum : Bytes
  pub legacy_checksum : Bytes
  pub size : ℤ

pub data Error : Type 0 where
  not_found integrity_mismatch backend : Error

pub data Result {ℓ} (A : Type ℓ) : Type ℓ where
  ok : A → Result A
  err : Error → Result A

-- What Open gives: the bytes, whether reading or closing them fails, and the object's description.
pub record Opened : Type 0 where
  pub content : Bytes
  pub broken : Bool
  pub info : Info

-- Store: "a successful Put means the backend has durably accepted the object", under its identity.
pub record Objects : Type 1 where
  pub State : Type 0
  pub head : Bytes → State → Result Info
  pub put : Info → Bytes → State → State × Result Info
  pub fetch : Bytes → State → Result Opened
  pub head-put :
      (i r : Info) (content : Bytes) (s t : State)
      → put i content s ≡ (t, ok r)
      → head i.hash t ≡ ok (record i { etag = r.etag })
  pub fetch-put :
      (i r : Info) (content : Bytes) (s t : State) (o : Opened)
      → put i content s ≡ (t, ok r)
      → fetch i.hash t ≡ ok o
      → o.content ≡ content

abbrev pub or_missing : Option Opened → Result Opened
or_missing none = err not_found
or_missing (some o) = ok o

abbrev pub info_of : Result Opened → Result Info
info_of (err e) = err e
info_of (ok o) = ok o.info

abbrev pub kept : Info → Bytes → Opened
kept i content = record {
  content = content;
  broken = false;
  info = record i { etag = codes "tag" };
}

abbrev pub stored : Info → Bytes → Dict Opened → Dict Opened × Result Info
stored i content s = (insert i.hash (kept i content) s, ok (record i { etag = codes "tag" }))

pub ok_inj : {A : Type 0} (a b : A) → ok a ≡ ok b → a ≡ b
ok_inj a b h = cc

pub memory_fetch-put :
    (i r : Info) (content : Bytes) (s t : Dict Opened)
    → stored i content s ≡ (t, ok r)
    → or_missing (lookup i.hash t) ≡ ok (kept i content)
memory_fetch-put i r content s t h =
    ap (λ p. or_missing (lookup i.hash p.0)) (sym h)
    ∙ ap or_missing (lookup-insert i.hash i.hash (kept i content) s ∙ found)
  where
    found :
        (if same i.hash i.hash then some (kept i content) else lookup i.hash s)
        ≡ some (kept i content)
    found = rw (same_refl i.hash) refl

pub memory_tag :
    (i r : Info) (content : Bytes) (s t : Dict Opened)
    → stored i content s ≡ (t, ok r)
    → record i { etag = codes "tag" } ≡ r
memory_tag i r content s t h = ok_inj (record i { etag = codes "tag" }) r (ap (λ p. p.1) h)

-- An object store in memory that gives every object one ETag, and never fails.
abbrev pub memory_objects : Objects
memory_objects = record {
  State = Dict Opened;
  head = λ h s. info_of (or_missing (lookup h s));
  put = stored;
  fetch = λ h s. or_missing (lookup h s);
  head-put = λ i r content s t h.
      ap info_of (memory_fetch-put i r content s t h)
      ∙ ap (λ e. ok (record i { etag = e })) (ap (λ x. x.etag) (memory_tag i r content s t h));
  fetch-put = λ i r content s t o h g.
      ap (λ x. x.content) (ok_inj o (kept i content) (sym g ∙ memory_fetch-put i r content s t h));
}
