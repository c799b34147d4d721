-- ===== src/Payloads.antt =====
-- internal/httpapi/storage.go: how an upload becomes durable, and the record of a payload. `has_meta`
-- and `has_objects` say whether the handler has these stores (`h.meta != nil`, `h.objects != nil`).
pub mod Durable
pub mod Records
pub mod Resolve
use vaps.Base.{
  ℕ, Bool, true, false, ◌&&◌, ◌||◌, not, Option, none, some, List, [], ◌∷◌, length, if◌then◌else◌,
}
use vaps.Text.{Bytes, same}
use vaps.Int64.{ℤ, pos, eq_ℤ}
use vaps.Bucket.{Bucket}
use vaps.Blobs
use vaps.Blobs.{Staged, Disk, stage, publish, exists}
use vaps.Objects
use vaps.Objects.{Objects}
use vaps.Metadata
use vaps.Metadata.{Payload, PayloadStatus, stored, cached, put_payload, get_payload}

pub data Error : Type 0 where
  blob : Blobs.Error → Error
  object : Objects.Error → Error
  meta : Metadata.Error → Error
  read_failed not_configured not_exist : Error

pub data Result {ℓ} (A : Type ℓ) : Type ℓ where
  ok : A → Result A
  err : Error → Result A

-- The stores that the handler works on.
pub record World (Db Remote : Type 0) : Type 0 where
  pub blobs : Blobs.Store
  pub remote : Remote
  pub meta : Metadata.Store Db

-- validateRemotePayload; false is ErrIntegrityMismatch.
unfoldable pub validate_remote_payload : Payload → Objects.Info → Bool
validate_remote_payload record' remote =
    if not (same remote.hash record'.hash)
    then false
    else if not (same remote.checksum record'.checksum)
    then false
    else if not (eq_ℤ remote.size record'.size)
    then false
    else if not (same record'.etag []) && not (same remote.etag record'.etag)
    then false
    else true

-- `f` where a text is there, else the text it has.
abbrev pub non_empty_or : Bytes → Bytes → Bytes
non_empty_or new old = if same new [] then old else new

module _ (b : Bucket Payload) (o : Objects) (has_meta has_objects : Bool)
    (checksum_of : Bytes → Bytes) where
  open b use {Db}
  open o use {State, head, put, fetch}

  -- The second half of reconcileLegacyObject: the bytes are read again and stored.
  unfoldable pub restore_object : Bytes → Bytes → ℤ → State → State × Result (Bytes × Bytes)
  restore_object hash checksum size s = elim (fetch hash s) [
    | Objects.err e ↦ (s, err (object e))
    | Objects.ok again ↦
        let i : Objects.Info = record {
          hash = hash;
          etag = [];
          checksum = checksum;
          legacy_checksum = [];
          size = size;
        } in
        let (t, answer) = put i again.content s in
        elim answer [
          | Objects.err e ↦ (t, err (object e))
          | Objects.ok r ↦ if again.broken then (t, err read_failed) else (t, ok (checksum, r.etag))
        ]
  ]

  -- reconcileLegacyObject
  unfoldable pub reconcile_legacy_object : Bytes → Bytes → State → State × Result (Bytes × Bytes)
  unfolding restore_object
  reconcile_legacy_object hash expected s =
      if not has_objects then (s, err not_configured) else elim (fetch hash s) [
        | Objects.err e ↦ (s, err (object e))
        | Objects.ok first ↦
            let size = pos (length first.content) in
            let checksum = checksum_of first.content in
            if first.broken
            then (s, err read_failed)
            else if not (eq_ℤ size first.info.size)
            then (s, err (object Objects.integrity_mismatch))
            else if not (same expected []) && not (same checksum expected)
            then (s, err (object Objects.integrity_mismatch))
            else restore_object hash checksum size s
      ]

  -- The case of putPayloadDurably where the object is not there yet.
  unfoldable pub put_object : Disk → Staged → State → State × Result (Bool × Bytes)
  put_object disk staged s =
      let i : Objects.Info = record {
        hash = staged.info.hash;
        etag = [];
        checksum = staged.info.checksum;
        legacy_checksum = [];
        size = staged.info.size;
      } in
      let (t, answer) = put i staged.file.content s in
      if not disk.open_temp then (s, err (blob Blobs.disk_failed)) else elim answer [
        | Objects.err e ↦ (t, err (object e))
        | Objects.ok r ↦
            if disk.close_temp then (t, ok (true, r.etag)) else (t, err (blob Blobs.disk_failed))
      ]

  -- The `switch` of putPayloadDurably: whether the object was created, and its ETag.
  unfoldable pub commit_object : Disk → Staged → State → State × Result (Bool × Bytes)
  unfolding reconcile_legacy_object put_object
  commit_object disk staged s =
      let hash = staged.info.hash in
      elim (head hash s) [
        | Objects.err e ↦ elim e [
          | Objects.not_found ↦ put_object disk staged s
          | Objects.integrity_mismatch ↦ (s, err (object Objects.integrity_mismatch))
          | Objects.backend ↦ (s, err (object Objects.backend))
        ]
        | Objects.ok remote ↦
            let (t, migrated) = reconcile_legacy_object hash staged.info.checksum s in
            if not (same remote.legacy_checksum [])
            then (elim migrated [
              | err e ↦ (t, err e)
              | ok (checksum, etag) ↦ (t, ok (false, non_empty_or etag remote.etag))
            ])
            else if not (same remote.checksum staged.info.checksum)
                || not (eq_ℤ remote.size staged.info.size)
            then (s, err (object Objects.integrity_mismatch))
            else (s, ok (false, remote.etag))
      ]

  -- The end of putPayloadDurably: the local cache, whose failure is only logged.
  unfoldable pub publish_local :
      Disk → Staged → Bool → Bytes → World Db State → World Db State × Result Blobs.Info
  unfolding publish
  publish_local disk staged created etag w =
      let (blobs, published) = publish checksum_of disk staged w.blobs in
      let plain : Blobs.Info = record staged.info { created = created; etag = etag } in
      elim published [
        | Blobs.err e ↦ (record w { blobs = blobs }, ok plain)
        | Blobs.ok info ↦ (
          record w { blobs = blobs },
          ok (record info { created = if has_objects then created else info.created; etag = etag }),
        )
      ]

  -- putPayloadDurably
  unfoldable pub put_payload_durably :
      Disk → ℤ → Bytes → Bytes → Bytes → Bool → World Db State → World Db State × Result Blobs.Info
  unfolding stage commit_object publish_local
  put_payload_durably disk now hash checksum content broken w =
      elim (stage checksum_of disk now hash checksum content broken) [
        | Blobs.err e ↦ (w, err (blob e))
        | Blobs.ok staged ↦
            let (t, committed) = commit_object disk staged w.remote in
            if has_objects
            then (elim committed [
              | err e ↦ (record w { remote = t }, err e)
              | ok (created, etag) ↦
                  publish_local disk staged created etag (record w { remote = t })
            ])
            else publish_local disk staged false [] w
      ]

  -- The call of PutPayload that ends commitPayloadMetadata; none is nil.
  unfoldable pub save_record : Payload → World Db State → World Db State × Option Error
  unfolding put_payload
  save_record p w =
      let (m, failed) = put_payload b p w.meta in
      (record w { meta = m }, elim failed [ none ↦ none | some e ↦ some (meta e) ])

  -- The record that commitPayloadMetadata stores for a known payload; none is a mismatch.
  unfoldable pub merge_record : Blobs.Info → PayloadStatus → ℕ → Payload → Option Payload
  merge_record info status now p =
      if not (same p.checksum [])
        && (not (same p.checksum info.checksum) || not (eq_ℤ p.size info.size))
      then none
      else some (record p {
        checksum = info.checksum;
        etag = non_empty_or info.etag p.etag;
        size = info.size;
        status = status;
        created_at = elim p.created_at [ none ↦ some now | some t ↦ some t ];
      })

  -- The record of a payload that has none yet.
  abbrev pub new_record : Blobs.Info → PayloadStatus → ℕ → Payload
  new_record info status now = record {
    hash = info.hash;
    etag = info.etag;
    checksum = info.checksum;
    legacy_checksum = [];
    size = info.size;
    status = status;
    created_at = some now;
    last_accessed_at = none;
  }

  -- commitPayloadMetadata; none is nil.
  unfoldable pub commit_payload_metadata :
      Disk → ℕ → Blobs.Info → World Db State → World Db State × Option Error
  unfolding exists get_payload save_record merge_record
  commit_payload_metadata disk now info w =
      if not has_meta then (w, none) else elim (exists disk info.hash w.blobs) [
        | Blobs.err e ↦ (w, some (blob e))
        | Blobs.ok here ↦
            let status = if here then cached else stored in
            elim (get_payload b info.hash w.meta) [
              | Metadata.err e ↦ elim e [
                | Metadata.not_found ↦ save_record (new_record info status now) w
                | Metadata.dashboard_busy ↦ (w, some (meta Metadata.dashboard_busy))
                | Metadata.database ↦ (w, some (meta Metadata.database))
              ]
              | Metadata.ok p ↦ elim (merge_record info status now p) [
                | none ↦ (w, some (object Objects.integrity_mismatch))
                | some merged ↦ save_record merged w
              ]
            ]
      ]

  -- recordPayloadETag: the record, the stores, and the error.
  unfoldable pub record_payload_etag :
      Payload → Objects.Info → World Db State → World Db State × Payload × Option Error
  unfolding save_record
  record_payload_etag p remote w =
      let q = record p { etag = remote.etag } in
      let (w', failed) = save_record q w in
      if not has_meta || not (same p.etag []) || same remote.etag []
      then (w, p, none)
      else (w', q, failed)
