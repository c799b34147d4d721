-- ===== src/Push.antt =====
-- internal/httpapi/payload_push.go with internal/httpapi/auth_helpers.go: what the handlers of pushes
-- work on, and how they read the headers of a push.
pub mod Handlers
pub mod Creations
pub mod Patches
pub mod Answers
pub mod Refusals
pub mod Answered
pub mod Stored
pub mod Limits
pub mod Resume
pub mod Durable
use vaps.Base.{ℕ, ◌/◌, ◌||◌, Bool, true, false, Option, none, some, [], ◌∷◌, ◌++◌, if◌then◌else◌}
use vaps.Text.{Bytes, same, codes, trim_space, to_lower, split_once}
use vaps.Int64.{ℤ, pos, lt_ℤ, parse_int}
use vaps.Http.{Response, error, set_header}
use vaps.Bucket.{Bucket}
use vaps.Objects.{Objects}
use vaps.Metadata.{Payload}
use vaps.Blobs
use vaps.Uploads
use vaps.Uploads.{Session}
use vaps.Payloads

-- What an error value of the handlers comes from. `text` is an error made there, with its text.
pub data Error : Type 0 where
  upload : Uploads.Error → Error
  payload : Payloads.Error → Error
  text : Bytes → Error
  unsupported_algorithm : Bytes → Error
  body_failed close_failed : Error

pub data Result {ℓ} (A : Type ℓ) : Type ℓ where
  ok : A → Result A
  err : Error → Result A

pub record PutResponse : Type 0 where
  pub hash : Bytes
  pub checksum : Bytes
  pub size : ℤ
  pub stored : Bool

-- The handler's stores and options, and what it uses of packages: CRC-32C, SHA-1, SHA-256, base64, JSON,
-- the texts of errors and of times.
pub record Services : Type 1 where
  pub sessions : Bucket Session
  pub temp_dir : Bytes
  pub expiration : ℕ
  pub payloads : Bucket Payload
  pub objects : Objects
  pub has_uploads : Bool
  pub has_meta : Bool
  pub has_objects : Bool
  pub upload_direct_max_bytes : ℤ
  pub checksum_of : Bytes → Bytes
  pub sha1 : Bytes → Bytes
  pub sha256 : Bytes → Bytes
  pub decode_base64 : Bytes → Option Bytes
  pub render : PutResponse → Bytes
  pub error_text : Error → Bytes
  pub http_time : ℤ → Bytes

-- The state of the stores.
pub record World (v : Services) : Type 0 where
  pub uploads : Uploads.World v.sessions.Db
  pub payloads : Payloads.World v.payloads.Db v.objects.State

-- What one request meets: the time, what newID returns, the file system, and whether the upload's file
-- closes without an error.
pub record Env : Type 0 where
  pub now : ℕ
  pub new_id : Option Bytes
  pub disk : Blobs.Disk
  pub close_file : Bool

-- err.Error()
abbrev pub message : (Error → Bytes) → Error → Bytes
message other (text t) = t
message other (upload e) = other (upload e)
message other (payload e) = other (payload e)
message other (unsupported_algorithm a) = other (unsupported_algorithm a)
message other body_failed = other body_failed
message other close_failed = other close_failed

-- parseUploadLength
unfoldable pub parse_upload_length : Bytes → Result ℤ
unfolding parse_int
parse_upload_length header =
    let trimmed = trim_space header in
    if same trimmed []
    then err (text (codes "Upload-Length is required"))
    else elim (parse_int trimmed) [
      | none ↦ err (text (codes "Upload-Length must be a non-negative integer"))
      | some n ↦
          if lt_ℤ n (pos 0)
          then err (text (codes "Upload-Length must be a non-negative integer"))
          else ok n
    ]

-- parseUploadChecksum; none is an absent header.
unfoldable pub parse_upload_checksum :
    (Bytes → Option Bytes) → Bytes → Result (Option (Bytes × Bytes))
parse_upload_checksum decode_base64 header =
    let (name, rest) = split_once b' ' (trim_space header) in
    let algorithm = to_lower (trim_space name) in
    if same (trim_space header) [] then ok none else elim rest [
      | none ↦ err (text (codes "invalid Upload-Checksum header"))
      | some encoded ↦
          if same algorithm (codes "sha1") || same algorithm (codes "sha256")
          then (elim (decode_base64 (trim_space encoded)) [
            | none ↦ err (text (codes "invalid Upload-Checksum encoding"))
            | some raw ↦ ok (some (algorithm, raw))
          ])
          else err (unsupported_algorithm algorithm)
    ]

-- checksumMatches
unfoldable pub checksum_matches : (Bytes → Bytes) → (Bytes → Bytes) → Bytes → Bytes → Bytes → Bool
checksum_matches sha1 sha256 algorithm expected content =
    if same algorithm (codes "sha1")
    then same (sha1 content) expected
    else if same algorithm (codes "sha256")
    then same (sha256 content) expected
    else false

-- tusUploadLocation
unfoldable pub tus_upload_location : Bytes → Bytes → Bytes → Bytes
tus_upload_location hash checksum upload_id =
    codes "/v2/payload/push?iohash="
    ++ hash
    ++ codes "&checksum="
    ++ checksum
    ++ codes "&upload_id="
    ++ upload_id

-- formatExpires: seconds of a time in nanoseconds.
unfoldable pub format_expires : ℕ → ℤ
format_expires t = pos (t / 1000000000)

-- setTusHeaders
unfoldable pub set_tus_headers : (ℤ → Bytes) → ℤ → Response → Response
set_tus_headers http_time expiration w =
    let marked = set_header (codes "Tus-Resumable") (codes "1.0.0") w in
    if lt_ℤ (pos 0) expiration
    then set_header (codes "Upload-Expires") (http_time expiration) marked
    else marked

-- The status that writeUploadError gives an error.
unfoldable pub upload_error_status : Error → ℕ
upload_error_status (upload e) = elim e [
  | Uploads.not_found ↦ 404
  | Uploads.expired ↦ 410
  | Uploads.terminated ↦ 410
  | Uploads.offset_mismatch ↦ 409
  | _ ↦ 400
]
upload_error_status _ = 400

-- writeUploadError
unfoldable pub write_upload_error : (Error → Bytes) → Error → Response → Response
unfolding upload_error_status
write_upload_error error_text e = error (message error_text e) (upload_error_status e)
