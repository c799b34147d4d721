-- ===== src/Tests/PushTests.antt =====
-- An upload of four bytes that gets its end by PATCH, and a direct push.
use vaps.Base.{◌≡◌, ◌≤◌, ◌+◌, refl, true, false, some, [], ◌∷◌, length, arith}
use vaps.Text.{Bytes, codes, same}
use vaps.Int64.{pos, negsuc}
use vaps.Bucket.{memory_bucket}
use vaps.Objects.{memory_objects}
use vaps.Metadata.{Payload}
use vaps.Blobs.{Disk}
use vaps.Uploads.{Session, regular}
use vaps.Uploads.Store.{new_session}
use vaps.Http.{Response, empty_response}
use vaps.Requests.{Request, patch, head, post}
use vaps.Push.{Services, World, Env}
use vaps.Push.Patches.{tus_patch_upload, direct_push, push_payload}
use vaps.Dict.{lookup, insert, remove}
use vaps.Text.{trim_space, to_lower}
use vaps.Int64.{parse_int, add64}
use vaps.Blobs.{valid_hash, checksum_valid, stage}
use vaps.Http.{write_header, write, set_header}
use vaps.Requests.{query_payload_identity, query_value, header, write_json}
use vaps.Uploads.{ensure_active}
use vaps.Uploads.Store.{get_session, append, open_temp, mark_completed}
use vaps.Payloads.{put_payload_durably, commit_payload_metadata, save_record}
use vaps.Push.{parse_upload_checksum, set_tus_headers, format_expires}
use vaps.Push.Handlers.{
  check_upload_checksum, append_upload, answer_final, finalize_upload, finalize_file, put_upload,
  commit_upload, complete_upload,
}
use vaps.Push.Patches.{patch_request, check_patch, patch_append, patch_answer, push_body}
use vaps.Push.Refusals.{answered, failing}
use vaps.Push.Answered.{push_payload-answered}
use vaps.Push.Durable.{Completed, tus_patch_upload-Completed}
use vaps.Push.Resume.{Resumes, tus_head_upload-Resumes}
use vaps.Push.Limits.{direct_push-bounded}

abbrev hash : Bytes
hash = codes "0123456789abcdef0123456789abcdef01234567"

abbrev checksum : Bytes
checksum = codes "0a1b2c3d"

abbrev services : Services
services = record {
  sessions = memory_bucket Session;
  temp_dir = codes "/tmp";
  expiration = 60;
  payloads = memory_bucket Payload;
  objects = memory_objects;
  has_uploads = true;
  has_meta = true;
  has_objects = true;
  upload_direct_max_bytes = pos 1;
  checksum_of = λ c. checksum;
  sha1 = λ c. c;
  sha256 = λ c. c;
  decode_base64 = λ c. some c;
  render = λ p. p.hash;
  error_text = λ e. codes "error";
  http_time = λ t. codes "later";
}

abbrev disk : Disk
disk = record {
  temp = true;
  open_temp = true;
  close_temp = true;
  make_dir = true;
  link = true;
  sync_dir = true;
  remove_temp = true;
  stat = true;
  read = true;
  walk = true;
  remove_cached = true;
}

abbrev env : Env
env = record { now = 101; new_id = some (codes "b"); disk = disk; close_file = true }

abbrev half_session : Session
half_session =
    record (new_session (memory_bucket Session) (codes "/tmp") 60 (codes "a") hash checksum regular
      (pos 4) [] 100) { offset = pos 2 }

abbrev half_world : World services
half_world = record {
  uploads = record {
    db = (codes "a", half_session) ∷ [];
    files = (codes "/tmp/a.upload", codes "xy") ∷ [];
  };
  payloads = record {
    blobs = record { max_cache_bytes = pos 0; files = [] };
    remote = [];
    meta = record { db = []; dashboard_payloads = []; dashboard_querying = false };
  };
}

abbrev patch_of : Bytes → Request
patch_of content = record {
  method = patch;
  path = codes "/v2/payload/push";
  headers = (codes "Tus-Resumable", codes "1.0.0") ∷ (codes "Upload-Offset", codes "2") ∷ [];
  query =
      (codes "iohash", hash) ∷ (codes "checksum", checksum) ∷ (codes "upload_id", codes "a") ∷ [];
  content_length = pos (length content);
  body = record { content = content; broken = false };
}

abbrev last_bytes : World services × Response
last_bytes = tus_patch_upload services (patch_of (codes "zw")) env half_world empty_response

last_bytes_status : last_bytes.1.status ≡ some 201
unfolding tus_patch_upload patch_request query_payload_identity query_value header valid_hash
    checksum_valid same trim_space to_lower parse_int check_patch get_session check_upload_checksum
    parse_upload_checksum patch_append append_upload append answer_final finalize_upload
    finalize_file open_temp put_upload put_payload_durably commit_upload commit_payload_metadata
    complete_upload mark_completed save_record write_json write_header write set_header lookup
    insert remove add64 ensure_active stage
last_bytes_status = refl

tus_patch_upload-Completed_example :
    Completed services (patch_of (codes "zw")) half_world last_bytes.0
tus_patch_upload-Completed_example =
    tus_patch_upload-Completed services (patch_of (codes "zw")) env half_world last_bytes.0
      last_bytes.1 refl refl last_bytes_status

abbrev one_byte : World services × Response
one_byte = tus_patch_upload services (patch_of (codes "z")) env half_world empty_response

one_byte_status : one_byte.1.status ≡ some 204
unfolding tus_patch_upload patch_request query_payload_identity query_value header valid_hash
    checksum_valid same trim_space to_lower parse_int check_patch get_session check_upload_checksum
    parse_upload_checksum patch_append append_upload append patch_answer set_tus_headers
    write_header set_header lookup insert remove add64 ensure_active format_expires
one_byte_status = refl

abbrev head_request : Request
head_request = record (patch_of []) { method = head }

half_named :
    (s : Session)
    → (memory_bucket Session).get
        (trim_space (query_value (codes "upload_id") head_request))
        half_world.uploads.db
      ≡ some s
    → s.id ≡ trim_space (query_value (codes "upload_id") head_request)
unfolding lookup same trim_space query_value
half_named s h = ground arith

tus_head_upload-Resumes_example : Resumes services head_request 150 one_byte.0 one_byte.1
unfolding trim_space query_value same
tus_head_upload-Resumes_example =
    tus_head_upload-Resumes services (patch_of (codes "z")) head_request env 150 half_world
      one_byte.0 one_byte.1 half_named refl one_byte_status refl (omega arith)

push_payload-answered_example :
    answered (push_payload services head_request env half_world empty_response).1 ≡ true
push_payload-answered_example =
    push_payload-answered services head_request env half_world empty_response refl

abbrev direct_request : Request
direct_request = record (patch_of (codes "zw")) { method = post; content_length = negsuc 0 }

abbrev direct : World services × Response
direct = direct_push services direct_request env half_world empty_response

direct_accepted : failing direct.1 ≡ false
unfolding direct_push query_payload_identity query_value valid_hash checksum_valid same trim_space
    to_lower push_body put_upload put_payload_durably commit_upload commit_payload_metadata
    save_record write_json write_header write set_header lookup insert remove add64 stage
direct_accepted = refl

direct_push-bounded_example : length (codes "zw") ≤ 1 + 1
direct_push-bounded_example =
    direct_push-bounded services direct_request env half_world direct.0 direct.1 1 refl
      (omega arith) refl direct_accepted
