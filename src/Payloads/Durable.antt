-- ===== src/Payloads/Durable.antt =====
-- What the durable store holds once putPayloadDurably has succeeded.
use vaps.Base.{
  ◌≡◌, refl, sym, ap, ◌∙◌, Bool, true, false, [], ◌∷◌, length, arith, Bool-cases, inl, inr, ◌⊎◌,
}
use vaps.Text.{Bytes, same, same→eq}
use vaps.Int64.{ℤ, pos}
use vaps.Bucket.{Bucket}
use vaps.Blobs
use vaps.Blobs.{Staged, Disk, stage, checksum_valid, relative_path, publish}
use vaps.Objects
use vaps.Objects.{Objects, Opened}
use vaps.Metadata.{Payload}
use vaps.Payloads
use vaps.Payloads.{
  World, Result, ok, err, object, put_object, commit_object, restore_object,
  reconcile_legacy_object, publish_local, put_payload_durably,
}

answer-cases :
    {A : Type 0} (r : Objects.Result A)
    → ((e : Objects.Error) × (r ≡ Objects.err e)) ⊎ ((a : A) × (r ≡ Objects.ok a))
answer-cases (Objects.err e) = inl (e, refl)
answer-cases (Objects.ok a) = inr (a, refl)

-- Head answered that there is no object.
abbrev pub is_missing : Objects.Result Objects.Info → Bool
is_missing (Objects.ok i) = false
is_missing (Objects.err Objects.not_found) = true
is_missing (Objects.err Objects.integrity_mismatch) = false
is_missing (Objects.err Objects.backend) = false

pub payload-cases :
    {A : Type 0} (r : Result A) → ((e : Payloads.Error) × (r ≡ err e)) ⊎ ((a : A) × (r ≡ ok a))
payload-cases (err e) = inl (e, refl)
payload-cases (ok a) = inr (a, refl)

pub staged-cases :
    {A : Type 0} (r : Blobs.Result A)
    → ((e : Blobs.Error) × (r ≡ Blobs.err e)) ⊎ ((a : A) × (r ≡ Blobs.ok a))
staged-cases (Blobs.err e) = inl (e, refl)
staged-cases (Blobs.ok a) = inr (a, refl)

module _ (b : Bucket Payload) (o : Objects) (has_meta : Bool) (checksum_of : Bytes → Bytes) where
  open b use {Db}
  open o use {State, head, put, fetch, head-put, fetch-put}

  -- The store has an object of the hash with the checksum; a new object gives back the bytes.
  pub record Durable (hash checksum content : Bytes) (created : Bool) (t : State) : Type 0 where
    pub remote : Objects.Info
    pub found : head hash t ≡ Objects.ok remote
    pub checksum_agrees : remote.checksum ≡ checksum
    pub bytes : created ≡ true → (f : Opened) → fetch hash t ≡ Objects.ok f → f.content ≡ content

  abbrev new_info : Bytes → Bytes → ℤ → Objects.Info
  new_info hash checksum size = record {
    hash = hash;
    etag = [];
    checksum = checksum;
    legacy_checksum = [];
    size = size;
  }

  abbrev put_new : Staged → State → State × Objects.Result Objects.Info
  put_new staged s =
      put (new_info staged.info.hash staged.info.checksum staged.info.size) staged.file.content s

  put_object-inv :
      (disk : Disk) (staged : Staged) (s t : State) (created : Bool) (etag : Bytes)
      → put_object b o has_meta true checksum_of disk staged s ≡ (t, ok (created, etag))
      → (r : Objects.Info) × (put_new staged s ≡ (t, Objects.ok r))
  unfolding put_object
  put_object-inv disk staged s t created etag h = elim (answer-cases (put_new staged s).1) [
    | inl (e, f) ↦ absurd (ground arith)
    | inr (r, f) ↦ (r, ground arith)
  ]

  put_object-created :
      (disk : Disk) (staged : Staged) (s t : State) (created : Bool) (etag : Bytes)
      → put_object b o has_meta true checksum_of disk staged s ≡ (t, ok (created, etag))
      → created ≡ true
  unfolding put_object
  put_object-created disk staged s t created etag h = elim (answer-cases (put_new staged s).1) [
    | inl (e, f) ↦ absurd (ground arith)
    | inr (r, f) ↦ ground arith
  ]

  -- What is stored under its checksum is durable.
  put-Durable :
      (hash checksum content : Bytes) (size : ℤ) (created : Bool) (s t : State) (r : Objects.Info)
      → put (new_info hash checksum size) content s ≡ (t, Objects.ok r)
      → Durable hash checksum content created t
  put-Durable hash checksum content size created s t r h = record {
    remote = record (new_info hash checksum size) { etag = r.etag };
    found = head-put (new_info hash checksum size) r content s t h;
    checksum_agrees = refl;
    bytes = λ c f g. fetch-put (new_info hash checksum size) r content s t f h g;
  }

  not_created :
      (hash checksum content other : Bytes) (t : State)
      → Durable hash checksum other false t
      → Durable hash checksum content false t
  not_created hash checksum content other t d = record {
    remote = d.remote;
    found = d.found;
    checksum_agrees = d.checksum_agrees;
    bytes = λ c. absurd (ground arith);
  }

  restore_object-inv :
      (hash checksum : Bytes) (size : ℤ) (s t : State) (p : Bytes × Bytes)
      → restore_object b o has_meta true checksum_of hash checksum size s ≡ (t, ok p)
      → (content : Bytes) × (r : Objects.Info) × (put (new_info hash checksum size) content s
          ≡ (t, Objects.ok r))
  unfolding restore_object
  restore_object-inv hash checksum size s t p h = elim (answer-cases (fetch hash s)) [
    | inl (e, f) ↦ absurd (ground arith)
    | inr (again, f) ↦ elim (answer-cases (put (new_info hash checksum size) again.content s).1) [
      | inl (e, g) ↦ absurd (ground arith)
      | inr (r, g) ↦ (again.content, r, ground arith)
    ]
  ]

  reconcile-inv :
      (hash expected : Bytes) (s t : State) (p : Bytes × Bytes)
      → same expected [] ≡ false
      → reconcile_legacy_object b o has_meta true checksum_of hash expected s ≡ (t, ok p)
      → (size : ℤ) × (restore_object b o has_meta true checksum_of hash expected size s ≡ (t, ok p))
  unfolding reconcile_legacy_object
  reconcile-inv hash expected s t p n h = elim (answer-cases (fetch hash s)) [
    | inl (e, f) ↦ absurd (ground arith)
    | inr (first, f) ↦
        (pos (length first.content), ground (arith, same→eq (checksum_of first.content) expected))
  ]

  -- The three ways in which commit_object succeeds.
  commit-missing :
      (disk : Disk) (staged : Staged) (s : State)
      → head staged.info.hash s ≡ Objects.err Objects.not_found
      → commit_object b o has_meta true checksum_of disk staged s
        ≡ put_object b o has_meta true checksum_of disk staged s
  unfolding commit_object
  commit-missing disk staged s e = ground arith

  commit-legacy :
      (disk : Disk) (staged : Staged) (s t : State) (created : Bool) (etag : Bytes)
      (remote : Objects.Info)
      → head staged.info.hash s ≡ Objects.ok remote
      → same remote.legacy_checksum [] ≡ false
      → commit_object b o has_meta true checksum_of disk staged s ≡ (t, ok (created, etag))
      → (created ≡ false)
        × (p : Bytes × Bytes) × (reconcile_legacy_object b o has_meta true checksum_of
              staged.info.hash staged.info.checksum s
            ≡ (t, ok p))
  unfolding commit_object
  commit-legacy disk staged s t created etag remote e l h =
      let m =
        reconcile_legacy_object b o has_meta true checksum_of staged.info.hash staged.info.checksum
          s in
      elim (payload-cases m.1) [
        | inl (x, f) ↦ absurd (ground arith)
        | inr (p, f) ↦ (ground arith, p, ground arith)
      ]

  commit-present :
      (disk : Disk) (staged : Staged) (s t : State) (created : Bool) (etag : Bytes)
      (remote : Objects.Info)
      → head staged.info.hash s ≡ Objects.ok remote
      → same remote.legacy_checksum [] ≡ true
      → commit_object b o has_meta true checksum_of disk staged s ≡ (t, ok (created, etag))
      → (created ≡ false) × (t ≡ s) × (remote.checksum ≡ staged.info.checksum)
  unfolding commit_object
  commit-present disk staged s t created etag remote e l h =
      ground (arith, same→eq remote.checksum staged.info.checksum)

  errors_differ :
      (e : Objects.Error)
      → (e ≡ Objects.not_found) ⊎ ((e ≡ Objects.integrity_mismatch) ⊎ (e ≡ Objects.backend))
  errors_differ Objects.not_found = inl refl
  errors_differ Objects.integrity_mismatch = inr (inl refl)
  errors_differ Objects.backend = inr (inr refl)

  commit-failed :
      (disk : Disk) (staged : Staged) (s t : State) (created : Bool) (etag : Bytes)
      (e : Objects.Error)
      → head staged.info.hash s ≡ Objects.err e
      → commit_object b o has_meta true checksum_of disk staged s ≡ (t, ok (created, etag))
      → e ≡ Objects.not_found
  unfolding commit_object
  commit-failed disk staged s t created etag e f h = ground (arith, errors_differ e)

  commit_object-Durable :
      (disk : Disk) (staged : Staged) (s t : State) (created : Bool) (etag : Bytes)
      → same staged.info.checksum [] ≡ false
      → commit_object b o has_meta true checksum_of disk staged s ≡ (t, ok (created, etag))
      → Durable staged.info.hash staged.info.checksum staged.file.content created t
  commit_object-Durable disk staged s t created etag n h =
      elim (answer-cases (head staged.info.hash s)) [
        | inl (e, f) ↦
            let missing =
              commit-missing disk staged s
                (f ∙ ap Objects.err (commit-failed disk staged s t created etag e f h)) in
            let (r, p) = put_object-inv disk staged s t created etag (sym missing ∙ h) in
            put-Durable staged.info.hash staged.info.checksum staged.file.content staged.info.size
              created s t r p
        | inr (remote, f) ↦ elim (Bool-cases (same remote.legacy_checksum [])) [
          | inr l ↦
              let (c, p, m) = commit-legacy disk staged s t created etag remote f l h in
              let (size, g) = reconcile-inv staged.info.hash staged.info.checksum s t p n m in
              let (content, r, q) =
                restore_object-inv staged.info.hash staged.info.checksum size s t p g in
              rw c (
                not_created staged.info.hash staged.info.checksum staged.file.content content t
                  (put-Durable staged.info.hash staged.info.checksum content size false s t r q))
          | inl l ↦
              let (c, e, k) = commit-present disk staged s t created etag remote f l h in
              rw (c, e)
                (record {
                  remote = remote;
                  found = f;
                  checksum_agrees = k;
                  bytes = λ i. absurd (ground arith);
                })
        ]
      ]

  pub stage-inv :
      (disk : Disk) (now : ℤ) (hash checksum content : Bytes) (broken : Bool) (staged : Staged)
      → stage checksum_of disk now hash checksum content broken ≡ Blobs.ok staged
      → (staged.info.hash ≡ hash)
        × (staged.info.checksum ≡ checksum)
        × (staged.file.content ≡ content)
        × (checksum_valid checksum ≡ true)
        × (checksum_of content ≡ checksum)
  unfolding stage
  stage-inv disk now hash checksum content broken staged h =
      elim (staged-cases (relative_path hash)) [
        | inl (e, f) ↦ absurd (ground arith)
        | inr (path, f) ↦ ground (arith, same→eq (checksum_of content) checksum)
      ]

  pub checksum_valid-nonempty : (c : Bytes) → checksum_valid c ≡ true → same c [] ≡ false
  unfolding checksum_valid same
  checksum_valid-nonempty [] h = absurd (ground arith)
  checksum_valid-nonempty (x ∷ c) h = refl

  publish_local-keeps :
      (disk : Disk) (staged : Staged) (created : Bool) (etag : Bytes) (w w' : World Db State)
      → (info : Blobs.Info)
      → publish_local b o has_meta true checksum_of disk staged created etag w ≡ (w', ok info)
      → (w'.remote ≡ w.remote) × (info.created ≡ created)
  unfolding publish_local
  publish_local-keeps disk staged created etag w w' info h =
      elim (staged-cases (publish checksum_of disk staged w.blobs).1) [
        | inl (e, f) ↦ ground arith
        | inr (i, f) ↦ ground arith
      ]

  -- When putPayloadDurably succeeds and the handler has an object store, the uploaded bytes have
  -- the requested checksum and the object store has an object of the requested hash with that
  -- checksum, whatever happens to the local cache; if the upload reports that it created the
  -- object, reading the object gives exactly the uploaded bytes.
  pub put_payload_durably-Durable :
      (disk : Disk) (now : ℤ) (hash checksum content : Bytes) (broken : Bool)
      → (w w' : World Db State) (info : Blobs.Info)
      → put_payload_durably b o has_meta true checksum_of disk now hash checksum content broken w
        ≡ (w', ok info)
      → (checksum_of content ≡ checksum) × Durable hash checksum content info.created w'.remote
  unfolding put_payload_durably
  put_payload_durably-Durable disk now hash checksum content broken w w' info h =
      elim (staged-cases (stage checksum_of disk now hash checksum content broken)) [
        | inl (e, f) ↦ absurd (ground arith)
        | inr (staged, f) ↦
            let (p, q, c, v, k) = stage-inv disk now hash checksum content broken staged f in
            let committed = commit_object b o has_meta true checksum_of disk staged w.remote in
            elim (payload-cases committed.1) [
              | inl (e, g) ↦ absurd (ground arith)
              | inr ((created, etag), g) ↦
                  let (r, i) =
                    publish_local-keeps disk staged created etag (record w { remote = committed.0 })
                      w' info (ground arith) in
                  let d =
                    commit_object-Durable disk staged w.remote committed.0 created etag
                      (rw q (checksum_valid-nonempty checksum v)) (ground arith) in
                  (k, rw (← p, ← q, ← c, r, i) d)
            ]
      ]

  put_payload_durably-created :
      (disk : Disk) (now : ℤ) (hash checksum content : Bytes) (broken : Bool)
      → (w w' : World Db State) (info : Blobs.Info)
      → head hash w.remote ≡ Objects.err Objects.not_found
      → put_payload_durably b o has_meta true checksum_of disk now hash checksum content broken w
        ≡ (w', ok info)
      → info.created ≡ true
  unfolding put_payload_durably
  put_payload_durably-created disk now hash checksum content broken w w' info absent h =
      elim (staged-cases (stage checksum_of disk now hash checksum content broken)) [
        | inl (e, f) ↦ absurd (ground arith)
        | inr (staged, f) ↦
            let (p, q, c, v, k) = stage-inv disk now hash checksum content broken staged f in
            let committed = commit_object b o has_meta true checksum_of disk staged w.remote in
            elim (payload-cases committed.1) [
              | inl (e, g) ↦ absurd (ground arith)
              | inr ((created, etag), g) ↦
                  let (r, i) =
                    publish_local-keeps disk staged created etag (record w { remote = committed.0 })
                      w' info (ground arith) in
                  let put_it =
                    commit-missing disk staged w.remote (ap (λ j. head j w.remote) p ∙ absent) in
                  let done : committed ≡ (committed.0, ok (created, etag)) = ground arith in
                  i
                  ∙ put_object-created disk staged w.remote committed.0 created etag
                      (sym put_it ∙ done)
            ]
      ]

  missing-not_found :
      (r : Objects.Result Objects.Info) → is_missing r ≡ true → r ≡ Objects.err Objects.not_found
  missing-not_found (Objects.ok i) h = absurd (ground arith)
  missing-not_found (Objects.err Objects.not_found) h = refl
  missing-not_found (Objects.err Objects.integrity_mismatch) h = absurd (ground arith)
  missing-not_found (Objects.err Objects.backend) h = absurd (ground arith)

  -- The uploaded bytes are given back if the object was missing before.
  pub put_payload_durably-missing :
      (disk : Disk) (now : ℤ) (hash checksum content : Bytes) (broken : Bool)
      → (w w' : World Db State) (info : Blobs.Info)
      → put_payload_durably b o has_meta true checksum_of disk now hash checksum content broken w
        ≡ (w', ok info)
      → (checksum_of content ≡ checksum)
        × Durable hash checksum content (is_missing (head hash w.remote)) w'.remote
  put_payload_durably-missing disk now hash checksum content broken w w' info h =
      let (k, d) = put_payload_durably-Durable disk now hash checksum content broken w w' info h in
      (
        k,
        record {
          remote = d.remote;
          found = d.found;
          checksum_agrees = d.checksum_agrees;
          bytes = λ m. d.bytes (
              put_payload_durably-created disk now hash checksum content broken w w' info
                (missing-not_found (head hash w.remote) m) h);
        },
      )
