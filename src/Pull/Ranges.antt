-- ===== src/Pull/Ranges.antt =====
-- openRemoteRange of internal/httpapi/payload_pull.go, and the answer to a payload that cannot be opened.
use vaps.Base.{ℕ, Bool, false, not, Option, none, some, [], if◌then◌else◌}
use vaps.Text.{Bytes}
use vaps.Int64.{ℤ, pos}
use vaps.Bucket.{Bucket}
use vaps.Http.{Response, error, not_found}
use vaps.Blobs
use vaps.Blobs.{Disk}
use vaps.Objects
use vaps.Objects.{Objects}
use vaps.Metadata.{Payload}
use vaps.ByteRange
use vaps.ByteRange.{
  ByteRange, parse_single_range_header, write_range_response, range_length, content_range,
}
use vaps.Payloads
use vaps.Payloads.{validate_remote_payload, record_payload_etag}
use vaps.Payloads.Resolve.{payload_record}
use vaps.Pull.Opening.{Error, store, range, ok, err, exists_info, missing_as_absent}

-- What openRemoteRange returns: it leaves the request to others, fails, or has opened the range.
pub data Ranged : Type 0 where
  unhandled : Ranged
  failed : Error → Blobs.Info → Ranged
  opened : Bytes → Blobs.Info → ByteRange → Ranged

abbrev no_info : Blobs.Info
no_info = record { hash = []; etag = []; checksum = []; size = pos 0; created = false }

-- writePayloadOpenError
unfoldable pub write_payload_open_error : (Error → Bytes) → Error → Response → Response
write_payload_open_error text (store (Payloads.blob Blobs.invalid_hash)) =
    error (text (store (Payloads.blob Blobs.invalid_hash))) 400
write_payload_open_error text (store Payloads.not_exist) = not_found
write_payload_open_error text e = error (text e) 500

module _ (b : Bucket Payload) (o : Objects) (has_meta has_objects : Bool)
    (checksum_of : Bytes → Bytes) where
  open b use {Db}
  open o use {State}

  -- openRemoteRange; `open_range` is OpenRange of a backend that has it.
  unfoldable pub open_remote_range :
      Option (Bytes → ℤ → ℤ → State → Objects.Result Objects.Opened)
      → Disk
      → Bytes
      → Bytes
      → ℕ
      → Payloads.World Db State
      → Payloads.World Db State × Ranged
  open_remote_range none disk hash header now w = (w, unhandled)
  open_remote_range (some open_range) disk hash header now w =
      let (x, found) = payload_record b o has_meta has_objects checksum_of hash now w in
      if not has_meta then (w, unhandled) else elim (exists_info disk hash w.blobs) [
        | err e ↦ (w, failed e no_info)
        | ok (some local) ↦ (w, unhandled)
        | ok none ↦ elim found [
          | Payloads.err e ↦ (x, failed (store e) no_info)
          | Payloads.ok p ↦
              let info : Blobs.Info = record {
                hash = p.hash;
                etag = p.etag;
                checksum = p.checksum;
                size = p.size;
                created = false;
              } in
              elim (parse_single_range_header header p.size) [
                | ByteRange.err e ↦ (x, failed (range e) info)
                | ByteRange.ok parsed ↦ elim (open_range hash parsed.start parsed.end x.remote) [
                  | Objects.err e ↦ (x, failed (missing_as_absent e) info)
                  | Objects.ok f ↦
                      let (y, q, unsaved) =
                        record_payload_etag b o has_meta has_objects checksum_of p f.info x in
                      if not (validate_remote_payload p f.info)
                      then (x, failed (store (Payloads.object Objects.integrity_mismatch)) info)
                      else elim unsaved [
                        | some e ↦ (y, failed (store e) info)
                        | none ↦ (y, opened f.content info parsed)
                      ]
                ]
              ]
        ]
      ]
