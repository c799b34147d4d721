-- ===== src/Payloads/Resolve.antt =====
-- payloadRecord of internal/httpapi/storage.go: the record of a payload, which may be completed or
-- made from the durable store.
use vaps.Base.{
  ℕ, ◌≡◌, ◌∙◌, ap, Bool, true, false, ◌&&◌, ◌||◌, not, none, some, [], arith, if◌then◌else◌,
  Option-cases, inl, inr,
}
use vaps.Text.{Bytes, same}
use vaps.Int64.{pos}
use vaps.Bucket.{Bucket}
use vaps.Objects
use vaps.Objects.{Objects}
use vaps.Metadata
use vaps.Metadata.{Payload, stored, get_payload, reread}
use vaps.Payloads.{
  World, object, meta, not_exist, Result, ok, err, non_empty_or, reconcile_legacy_object,
  save_record,
}
use vaps.Payloads.Records.{save_record-found}

abbrev pub empty_payload : Payload
empty_payload = record {
  hash = [];
  etag = [];
  checksum = [];
  legacy_checksum = [];
  size = pos 0;
  status = stored;
  created_at = none;
  last_accessed_at = none;
}

module _ (b : Bucket Payload) (o : Objects) (has_meta has_objects : Bool)
    (checksum_of : Bytes → Bytes) where
  open b use {Db, get}
  open o use {State, head}

  -- PutPayload, and the record as the result.
  unfoldable pub save_result : Payload → World Db State → World Db State × Result Payload
  save_result p w =
      let (w', failed) = save_record b o has_meta has_objects checksum_of p w in
      elim failed [ none ↦ (w', ok p) | some e ↦ (w', err e) ]

  -- The end of the first branch: a missing ETag, and the write if anything changed.
  unfoldable pub finish_record :
      Payload → Bool → Objects.Info → World Db State → World Db State × Result Payload
  unfolding save_result
  finish_record p changed remote w =
      let tag = same p.etag [] && not (same remote.etag []) in
      let q : Payload = if tag then record p { etag = remote.etag } else p in
      if changed || tag then save_result q w else (w, ok q)

  -- The first branch: a known record without a checksum.
  unfoldable pub complete_record :
      Bytes → Payload → World Db State → World Db State × Result Payload
  unfolding finish_record
  complete_record hash p w = elim (head hash w.remote) [
    | Objects.err e ↦ (w, err (object e))
    | Objects.ok remote ↦
        let (t, migrated) =
          reconcile_legacy_object b o has_meta has_objects checksum_of hash [] w.remote in
        if not (same remote.checksum [])
        then finish_record (record p { checksum = remote.checksum; legacy_checksum = [] }) true
            remote w
        else if not (same remote.legacy_checksum [])
        then (elim migrated [
          | err e ↦ (record w { remote = t }, err e)
          | ok (checksum, etag) ↦
              finish_record
                (record p {
                  checksum = checksum;
                  legacy_checksum = [];
                  etag = non_empty_or etag p.etag;
                })
                true remote (record w { remote = t })
        ])
        else finish_record p false remote w
  ]

  -- The record made from an object.
  abbrev pub adopted : Objects.Info → ℕ → Payload
  adopted remote now = record {
    hash = remote.hash;
    etag = remote.etag;
    checksum = remote.checksum;
    legacy_checksum = [];
    size = remote.size;
    status = stored;
    created_at = some now;
    last_accessed_at = none;
  }

  -- The second branch: no record.
  unfoldable pub adopt_object : Bytes → ℕ → World Db State → World Db State × Result Payload
  unfolding save_result
  adopt_object hash now w = elim (head hash w.remote) [
    | Objects.err e ↦ elim e [
      | Objects.not_found ↦ (w, err not_exist)
      | Objects.integrity_mismatch ↦ (w, err (object Objects.integrity_mismatch))
      | Objects.backend ↦ (w, err (object Objects.backend))
    ]
    | Objects.ok remote ↦
        let (t, migrated) =
          reconcile_legacy_object b o has_meta has_objects checksum_of hash [] w.remote in
        if same remote.legacy_checksum []
        then save_result (adopted remote now) w
        else (elim migrated [
          | err e ↦ (record w { remote = t }, err e)
          | ok (checksum, etag) ↦
              save_result
                (adopted
                  (record remote {
                    checksum = checksum;
                    legacy_checksum = [];
                    etag = non_empty_or etag remote.etag;
                  })
                  now)
                (record w { remote = t })
        ])
  ]

  -- payloadRecord
  unfoldable pub payload_record : Bytes → ℕ → World Db State → World Db State × Result Payload
  unfolding complete_record adopt_object
  payload_record hash now w =
      if not has_meta then (w, ok empty_payload) else elim (get_payload b hash w.meta) [
        | Metadata.ok p ↦
            if same p.checksum [] && has_objects then complete_record hash p w else (w, ok p)
        | Metadata.err e ↦ elim e [
          | Metadata.not_found ↦ if has_objects then adopt_object hash now w else (w, err not_exist)
          | Metadata.dashboard_busy ↦ (w, err (meta Metadata.dashboard_busy))
          | Metadata.database ↦ (w, err (meta Metadata.database))
        ]
      ]

module _ (b : Bucket Payload) (o : Objects) (checksum_of : Bytes → Bytes) where
  open b use {Db, get}
  open o use {State, head}

  save_result-saved :
      (p q : Payload) (w w' : World Db State)
      → save_result b o true true checksum_of p w ≡ (w', ok q)
      → (q ≡ p) × (save_record b o true true checksum_of p w ≡ (w', none))
  unfolding save_result
  save_result-saved p q w w' h = elim (Option-cases (save_record b o true true checksum_of p w).1) [
    | inl e ↦ (ground arith, ground arith)
    | inr (x, e) ↦ absurd (ground arith)
  ]

  adopt_object-saved :
      (hash : Bytes) (now : ℕ) (w w' : World Db State) (remote : Objects.Info) (p : Payload)
      → head hash w.remote ≡ Objects.ok remote
      → same remote.legacy_checksum [] ≡ true
      → get hash w.meta.db ≡ none
      → payload_record b o true true checksum_of hash now w ≡ (w', ok p)
      → save_result b o true true checksum_of (adopted b o true true checksum_of remote now) w
        ≡ (w', ok p)
  unfolding payload_record get_payload
  adopt_object-saved hash now w w' remote p e l g h = ground arith

  -- A payload that has an object without a legacy checksum under its hash, but no record, gets
  -- one: if payloadRecord answers, the record has the hash and the object's checksum, size and
  -- ETag, and GetPayload gives it for the hash from then on.
  pub payload_record-adopts :
      (hash : Bytes) (now : ℕ) (w w' : World Db State) (remote : Objects.Info) (p : Payload)
      → head hash w.remote ≡ Objects.ok remote
      → remote.hash ≡ hash
      → same remote.legacy_checksum [] ≡ true
      → get hash w.meta.db ≡ none
      → payload_record b o true true checksum_of hash now w ≡ (w', ok p)
      → (p.hash ≡ hash)
        × (p.checksum ≡ remote.checksum)
        × (p.size ≡ remote.size)
        × (p.etag ≡ remote.etag)
        × (get_payload b hash w'.meta ≡ Metadata.ok p)
  unfolding get_payload reread
  payload_record-adopts hash now w w' remote p e k l g h =
      let (q, s) =
        save_result-saved (adopted b o true true checksum_of remote now) p w w'
          (adopt_object-saved hash now w w' remote p e l g h) in
      let (f, blobs, kept) =
        save_record-found b o true checksum_of (adopted b o true true checksum_of remote now) w w'
          s in
      (
        ap (λ r. r.hash) q ∙ k,
        ap (λ r. r.checksum) q,
        ap (λ r. r.size) q,
        ap (λ r. r.etag) q,
        rw (← k, q) (ground (arith, f)),
      )
