-- ===== src/Pull/Opened.antt =====
-- What openDiskOrRemote has checked of a payload that it opens.
use vaps.Base.{
  ℕ, ◌≡◌, ◌⊎◌, inl, inr, refl, ap, sym, ◌∙◌, Bool, true, false, some, arith, Bool-cases,
  Option-cases,
}
use vaps.Text.{Bytes, same→eq}
use vaps.Int64.{eq_ℤ}
use vaps.Dict.{lookup}
use vaps.Bucket.{Bucket}
use vaps.Blobs
use vaps.Blobs.{Disk, relative_path}
use vaps.Objects
use vaps.Objects.{Objects}
use vaps.Metadata.{Payload}
use vaps.Payloads
use vaps.Payloads.{World, validate_remote_payload, record_payload_etag, save_record}
use vaps.Payloads.Durable.{staged-cases, payload-cases}
use vaps.Payloads.Resolve.{payload_record}
use vaps.Pull.Opening.{
  Error, Result, ok, err, Opened, exists_info, open_file, open_object, open_remote, open_recorded,
  open_disk_or_remote,
}

open-cases : {A : Type 0} (r : Result A) → ((e : Error) × (r ≡ err e)) ⊎ ((a : A) × (r ≡ ok a))
open-cases (err e) = inl (e, refl)
open-cases (ok a) = inr (a, refl)

object-cases :
    {A : Type 0} (r : Objects.Result A)
    → ((e : Objects.Error) × (r ≡ Objects.err e)) ⊎ ((a : A) × (r ≡ Objects.ok a))
object-cases (Objects.err e) = inl (e, refl)
object-cases (Objects.ok a) = inr (a, refl)

module _ (b : Bucket Payload) (o : Objects) (has_meta has_objects : Bool)
    (checksum_of : Bytes → Bytes) where
  open b use {Db}
  open o use {State, head, fetch}

  -- The payload `f`, opened for the record `p` over the stores `x`: a local file of the record's size,
  -- or the object that the durable store has, with the record's hash, checksum, size and ETag.
  pub record Checked (hash : Bytes) (p : Payload) (x : World Db State) (f : Opened) : Type 0 where
    pub size : eq_ℤ f.info.size p.size ≡ true
    pub remote :
        f.from_disk ≡ false
        → (i : Objects.Info) × (head hash x.remote ≡ Objects.ok i)
          × (validate_remote_payload p i ≡ true)
          × (f.info.hash ≡ p.hash)
          × (f.info.checksum ≡ p.checksum)
          × (g : Objects.Opened) × (fetch hash x.remote ≡ Objects.ok g)
          × (f.content ≡ g.content)
          × (g.info.etag ≡ i.etag)

  validate-fields :
      (p : Payload) (i : Objects.Info)
      → validate_remote_payload p i ≡ true
      → (i.hash ≡ p.hash) × (i.checksum ≡ p.checksum) × (eq_ℤ i.size p.size ≡ true)
  unfolding validate_remote_payload
  validate-fields p i h = ground (arith, same→eq i.hash p.hash, same→eq i.checksum p.checksum)

  -- The ETag that is recorded changes none of the objects.
  record_payload_etag-remote :
      (p : Payload) (i : Objects.Info) (w : World Db State)
      → (record_payload_etag b o has_meta has_objects checksum_of p i w).0.remote ≡ w.remote
  unfolding record_payload_etag save_record
  record_payload_etag-remote p i w = ground arith

  open_object-inv :
      (hash : Bytes) (i : Objects.Info) (w : World Db State) (f : Opened)
      → open_object b o has_meta has_objects checksum_of hash i w ≡ ok f
      → (f.from_disk ≡ false)
        × (f.info.hash ≡ i.hash)
        × (f.info.checksum ≡ i.checksum)
        × (f.info.size ≡ i.size)
        × (g : Objects.Opened) × (fetch hash w.remote ≡ Objects.ok g)
        × (f.content ≡ g.content)
        × (g.info.etag ≡ i.etag)
  unfolding open_object
  open_object-inv hash i w f h = elim (object-cases (fetch hash w.remote)) [
    | inl (e, q) ↦ absurd (ground arith)
    | inr (g, q) ↦ (
      ground arith,
      ground arith,
      ground arith,
      ground arith,
      g,
      q,
      ground arith,
      ground (arith, same→eq g.info.etag i.etag),
    )
  ]

  open_remote-Checked :
      (hash : Bytes) (p : Payload) (w y : World Db State) (f : Opened)
      → open_remote b o has_meta has_objects checksum_of hash p w ≡ (y, ok f)
      → Checked hash p w f
  unfolding open_remote
  open_remote-Checked hash p w y f h = elim (object-cases (head hash w.remote)) [
    | inl (e, q) ↦ absurd (ground arith)
    | inr (i, q) ↦
        let recorded = record_payload_etag b o has_meta has_objects checksum_of p i w in
        elim (Bool-cases (validate_remote_payload p i)) [
          | inr v ↦ absurd (ground arith)
          | inl v ↦ elim (Option-cases recorded.2) [
            | inr (e, r) ↦ absurd (ground arith)
            | inl r ↦
                let (d, k, c, sz, g, u, t, n) =
                  open_object-inv hash i recorded.0 f (ground arith) in
                let (k', c', z) = validate-fields p i v in
                record {
                  size = rw sz z;
                  remote = λ l. (
                    i,
                    q,
                    v,
                    k ∙ k',
                    c ∙ c',
                    g,
                    ap (fetch hash) (sym (record_payload_etag-remote p i w)) ∙ u,
                    t,
                    n,
                  );
                }
          ]
        ]
  ]

  open_file-info :
      (disk : Disk) (hash : Bytes) (w : World Db State) (i : Blobs.Info) (f : Opened)
      → exists_info disk hash w.blobs ≡ ok (some i)
      → open_file disk hash w.blobs ≡ ok f
      → (f.from_disk ≡ true) × (f.info ≡ i)
  unfolding exists_info open_file
  open_file-info disk hash w i f h k = elim (staged-cases (relative_path hash)) [
    | inl (e, q) ↦ absurd (ground arith)
    | inr (path, q) ↦ elim (Option-cases (lookup path w.blobs.files)) [
      | inl r ↦ absurd (ground arith)
      | inr (x, r) ↦ (ground arith, ground arith)
    ]
  ]

  open_recorded-Checked :
      (disk : Disk) (hash : Bytes) (p : Payload) (w y : World Db State) (f : Opened)
      → open_recorded b o has_meta has_objects checksum_of disk hash p w ≡ (y, ok f)
      → Checked hash p w f
  unfolding open_recorded
  open_recorded-Checked disk hash p w y f h = elim (open-cases (exists_info disk hash w.blobs)) [
    | inl (e, q) ↦ absurd (ground arith)
    | inr (here, q) ↦ elim (Option-cases here) [
      | inl e ↦ open_remote-Checked hash p w y f (ground arith)
      | inr (i, e) ↦
          let (d, k) = open_file-info disk hash w i f (q ∙ ap ok e) (ground arith) in
          let fits : eq_ℤ i.size p.size ≡ true = ground arith in
          record { size = rw k fits; remote = λ l. absurd (ground arith) }
    ]
  ]

  -- What openDiskOrRemote opens has the size of the payload's record; if it is not a local file,
  -- the object store has an object of the record's hash, checksum, size and, where the record
  -- names one, ETag, and the bytes are those that opening the object gives, under the same ETag.
  pub open_disk_or_remote-Checked :
      (disk : Disk) (hash : Bytes) (now : ℕ) (w y : World Db State) (f : Opened)
      → open_disk_or_remote b o has_meta has_objects checksum_of disk hash now w ≡ (y, ok f)
      → (p : Payload) × (x : World Db State) × (payload_record b o has_meta has_objects checksum_of
            hash now w
          ≡ (x, Payloads.ok p))
        × Checked hash p x f
  unfolding open_disk_or_remote
  open_disk_or_remote-Checked disk hash now w y f h =
      let found = payload_record b o has_meta has_objects checksum_of hash now w in
      elim (payload-cases found.1) [
        | inl (e, q) ↦ absurd (ground arith)
        | inr (p, q) ↦
            (p, found.0, ground arith, open_recorded-Checked disk hash p found.0 y f (ground arith))
      ]
