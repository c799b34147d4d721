-- ===== src/Pull/Opening.antt =====
-- How a pull behind a miss of the memory cache opens its payload: openPayload and openRemoteRange of
-- internal/httpapi/payload_pull.go, openDiskOrRemote, existsWithMetadata and markCached of
-- internal/httpapi/handler.go, and Exists and Open of internal/blobstore/store.go.
use vaps.Base.{ℕ, Bool, true, false, not, Option, none, some, [], if◌then◌else◌}
use vaps.Text.{Bytes, same}
use vaps.Int64.{pos, eq_ℤ}
use vaps.Dict.{lookup}
use vaps.Bucket.{Bucket}
use vaps.Blobs
use vaps.Blobs.{Disk, BlobFile, relative_path, file_size}
use vaps.Objects
use vaps.Objects.{Objects}
use vaps.Metadata
use vaps.Metadata.{Payload, cached, get_payload, put_payload}
use vaps.ByteRange.{RangeError}
use vaps.Payloads
use vaps.Payloads.{World, validate_remote_payload, record_payload_etag}
use vaps.Payloads.Resolve.{payload_record}

-- `size_mismatch` is a local file whose size is not that of the record.
pub data Error : Type 0 where
  store : Payloads.Error → Error
  range : RangeError → Error
  size_mismatch : Error

pub data Result {ℓ} (A : Type ℓ) : Type ℓ where
  ok : A → Result A
  err : Error → Result A

-- What the reader gives and whether it then fails, the payload's description, and where it is from.
pub record Opened : Type 0 where
  pub content : Bytes
  pub broken : Bool
  pub info : Blobs.Info
  pub from_disk : Bool

-- stat
abbrev file_info : Bytes → BlobFile → Blobs.Info
file_info hash f = record {
  hash = hash;
  etag = [];
  checksum = [];
  size = pos (file_size f);
  created = false;
}

-- Exists, with the file's description
unfoldable pub exists_info : Disk → Bytes → Blobs.Store → Result (Option Blobs.Info)
unfolding lookup
exists_info disk hash s = elim (relative_path hash) [
  | Blobs.err e ↦ err (store (Payloads.blob e))
  | Blobs.ok path ↦
      if not disk.stat
      then err (store (Payloads.blob Blobs.disk_failed))
      else elim (lookup path s.files) [ none ↦ ok none | some f ↦ ok (some (file_info hash f)) ]
]

-- Open
unfoldable pub open_file : Disk → Bytes → Blobs.Store → Result Opened
unfolding lookup
open_file disk hash s = elim (relative_path hash) [
  | Blobs.err e ↦ err (store (Payloads.blob e))
  | Blobs.ok path ↦
      if not disk.stat
      then err (store (Payloads.blob Blobs.disk_failed))
      else elim (lookup path s.files) [
        | none ↦ err (store Payloads.not_exist)
        | some f ↦
            if disk.read
            then ok (record {
              content = f.content;
              broken = false;
              info = file_info hash f;
              from_disk = true;
            })
            else err (store (Payloads.blob Blobs.disk_failed))
      ]
]

-- objectstore.ErrNotFound as os.ErrNotExist
abbrev pub missing_as_absent : Objects.Error → Error
missing_as_absent Objects.not_found = store Payloads.not_exist
missing_as_absent Objects.integrity_mismatch = store (Payloads.object Objects.integrity_mismatch)
missing_as_absent Objects.backend = store (Payloads.object Objects.backend)

-- The description of a remote payload.
abbrev pub object_info : Objects.Info → Blobs.Info
object_info remote = record {
  hash = remote.hash;
  etag = remote.etag;
  checksum = remote.checksum;
  size = remote.size;
  created = false;
}

module _ (b : Bucket Payload) (o : Objects) (has_meta has_objects : Bool)
    (checksum_of : Bytes → Bytes) where
  open b use {Db}
  open o use {State, head, fetch}

  -- The end of openDiskOrRemote: the object is opened, and is the one that was described.
  unfoldable pub open_object : Bytes → Objects.Info → World Db State → Result Opened
  open_object hash remote w = elim (fetch hash w.remote) [
    | Objects.err e ↦ err (missing_as_absent e)
    | Objects.ok f ↦
        if same f.info.etag remote.etag
        then ok (record {
          content = f.content;
          broken = f.broken;
          info = object_info remote;
          from_disk = false;
        })
        else err (store (Payloads.object Objects.integrity_mismatch))
  ]

  -- openDiskOrRemote for a payload that is not on the disk
  unfoldable pub open_remote : Bytes → Payload → World Db State → World Db State × Result Opened
  unfolding open_object
  open_remote hash p w = elim (head hash w.remote) [
    | Objects.err e ↦ (w, err (missing_as_absent e))
    | Objects.ok remote ↦
        let (x, q, failed) = record_payload_etag b o has_meta has_objects checksum_of p remote w in
        if not (validate_remote_payload p remote)
        then (w, err (store (Payloads.object Objects.integrity_mismatch)))
        else elim failed [ some e ↦ (x, err (store e)) | none ↦ (x, open_object hash remote x) ]
  ]

  -- openDiskOrRemote behind payloadRecord
  unfoldable pub open_recorded :
      Disk → Bytes → Payload → World Db State → World Db State × Result Opened
  unfolding open_remote
  open_recorded disk hash p w = elim (exists_info disk hash w.blobs) [
    | err e ↦ (w, err e)
    | ok (some info) ↦
        if eq_ℤ info.size p.size then (w, open_file disk hash w.blobs) else (w, err size_mismatch)
    | ok none ↦ if has_objects then open_remote hash p w else (w, err (store Payloads.not_exist))
  ]

  -- openDiskOrRemote
  unfoldable pub open_disk_or_remote :
      Disk → Bytes → ℕ → World Db State → World Db State × Result Opened
  unfolding open_recorded
  open_disk_or_remote disk hash now w =
      let (x, found) = payload_record b o has_meta has_objects checksum_of hash now w in
      elim found [
        | Payloads.err e ↦ (x, err (store e))
        | Payloads.ok p ↦ open_recorded disk hash p x
      ]

  -- openPayload
  unfoldable pub open_payload : Disk → Bytes → ℕ → World Db State → World Db State × Result Opened
  unfolding open_disk_or_remote
  open_payload disk hash now w =
      let (x, found) = payload_record b o has_meta has_objects checksum_of hash now w in
      if not has_meta then (w, open_file disk hash w.blobs) else elim found [
        | Payloads.err e ↦ (x, err (store e))
        | Payloads.ok p ↦ open_disk_or_remote disk hash now x
      ]

  -- existsWithMetadata; none: the payload is not there.
  unfoldable pub exists_with_metadata :
      Disk → Bytes → ℕ → World Db State → World Db State × Result (Option Blobs.Info)
  exists_with_metadata disk hash now w =
      let (x, found) = payload_record b o has_meta has_objects checksum_of hash now w in
      elim found [
        | Payloads.err Payloads.not_exist ↦ (x, ok none)
        | Payloads.err e ↦ (x, err (store e))
        | Payloads.ok p ↦ elim (exists_info disk hash x.blobs) [
          | err e ↦ (x, err e)
          | ok none ↦ (
            x,
            ok (
                some (record {
                  hash = hash;
                  etag = [];
                  checksum = p.checksum;
                  size = p.size;
                  created = false;
                })),
          )
          | ok (some info) ↦
              if eq_ℤ info.size p.size then (x, ok (some info)) else (x, err size_mismatch)
        ]
      ]

  -- markCached
  unfoldable pub mark_cached : Bytes → World Db State → World Db State
  mark_cached hash w = if not has_meta then w else elim (get_payload b hash w.meta) [
    | Metadata.err e ↦ w
    | Metadata.ok p ↦ record w { meta = (put_payload b (record p { status = cached }) w.meta).0 }
  ]
