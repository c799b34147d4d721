-- ===== src/Push/Patches.antt =====
-- The handlers of PATCH, of a direct push and of every push.
use vaps.Base.{
  ℕ, Bool, true, false, not, ◌&&◌, Option, none, some, [], length, take, ltb, ◌==◌, if◌then◌else◌,
}
use vaps.Text.{Bytes, same, codes, trim_space}
use vaps.Int64.{ℤ, pos, pos_part, add64, lt_ℤ, eq_ℤ, parse_int, format_int}
use vaps.Http.{Response, error, set_header, write_header}
use vaps.Blobs
use vaps.Objects
use vaps.Uploads
use vaps.Uploads.{Session, Reader}
use vaps.Uploads.Store.{get_session}
use vaps.Payloads
use vaps.Requests.{
  Request, Checked, refused, accepted, get, head, post, patch, delete, options, other_method,
  header, query_value, query_payload_identity, write_json, is_tus_request,
}
use vaps.Push.{
  Error, upload, payload, body_failed, ok, err, Services, World, Env, format_expires,
  set_tus_headers, write_upload_error,
}
use vaps.Push.Handlers.{
  refuse, check_upload_checksum, append_upload, put_upload, commit_upload, put_response,
  answer_final, tus_head_upload, tus_delete_upload,
}
use vaps.Push.Creations.{tus_create_upload}

-- What a PATCH asks for.
pub record Patch : Type 0 where
  pub hash : Bytes
  pub checksum : Bytes
  pub upload_id : Bytes
  pub offset : ℤ

module _ (v : Services) where
  open v use {
    sessions, temp_dir, expiration, payloads, objects, has_uploads, has_meta, has_objects,
    upload_direct_max_bytes, error_text, http_time,
  }

  -- The checks of tusPatchUpload on the request alone.
  unfoldable pub patch_request : Request → Response → Checked Patch
  patch_request r w = elim (query_payload_identity r w) [
    | refused answer ↦ refused answer
    | accepted (hash, checksum) ↦
        let upload_id = trim_space (query_value (codes "upload_id") r) in
        if same upload_id []
        then refused (error (codes "upload_id is required") 400 w)
        else if same (header (codes "Tus-Resumable") r) []
        then refused (error (codes "missing Tus-Resumable header") 400 w)
        else elim (parse_int (header (codes "Upload-Offset") r)) [
          | none ↦ refused (error (codes "invalid Upload-Offset") 400 w)
          | some offset ↦
              if lt_ℤ offset (pos 0)
              then refused (error (codes "invalid Upload-Offset") 400 w)
              else accepted (record {
                hash = hash;
                checksum = checksum;
                upload_id = upload_id;
                offset = offset;
              })
        ]
  ]

  -- The checks of tusPatchUpload on the session and the body; none is their success.
  unfoldable pub check_patch : Request → Patch → ℕ → World v → Response → Option Response
  check_patch r p now x w =
      elim (get_session sessions temp_dir expiration p.upload_id now x.uploads) [
        | Uploads.err f ↦ some (write_upload_error error_text (upload f) w)
        | Uploads.ok session ↦
            if not (same session.expected_hash p.hash)
            then some (error (codes "iohash does not match upload session") 400 w)
            else if not (same session.expected_checksum p.checksum)
            then some (error (codes "checksum does not match upload session") 400 w)
            else if r.body.broken
            then some (refuse v body_failed 500 w)
            else elim (check_upload_checksum v r r.body.content) [
              | some f ↦ some (refuse v f 400 w)
              | none ↦ none
            ]
      ]

  -- The end of tusPatchUpload for an upload that is not complete.
  unfoldable pub patch_answer : Session → Response → Response
  patch_answer session w =
      let moved = set_header (codes "Upload-Offset") (format_int session.offset) w in
      write_header 204 (set_tus_headers http_time (format_expires session.expires_at) moved)

  -- tusPatchUpload behind its checks
  unfoldable pub patch_append : Request → Patch → Env → World v → Response → World v × Response
  patch_append r p e x w =
      let (y, appended) = append_upload v p.upload_id p.offset r.body.content e.now x in
      elim appended [
        | err f ↦ (y, write_upload_error error_text f w)
        | ok session ↦
            let final = answer_final v e session y w in
            if eq_ℤ session.offset session.length then final else (y, patch_answer session w)
      ]

  -- tusPatchUpload
  unfoldable pub tus_patch_upload : Request → Env → World v → Response → World v × Response
  tus_patch_upload r e x w = elim (patch_request r w) [
    | refused answer ↦ (x, answer)
    | accepted p ↦
        let final = patch_append r p e x w in
        elim (check_patch r p e.now x w) [ some answer ↦ (x, answer) | none ↦ final ]
  ]

  -- pushOptions
  unfoldable pub push_options : Response → Response
  push_options w =
      let resumable = set_header (codes "Tus-Resumable") (codes "1.0.0") w in
      let versioned = set_header (codes "Tus-Version") (codes "1.0.0") resumable in
      let extended =
        set_header (codes "Tus-Extension")
          (codes "creation,creation-with-upload,concatenation,expiration,termination,checksum")
          versioned in
      let summed = set_header (codes "Tus-Checksum-Algorithm") (codes "sha1,sha256") extended in
      write_header 204
        (set_header (codes "Upload-Direct-Max-Bytes") (format_int upload_direct_max_bytes) summed)

  -- What http.MaxBytesReader lets through, and whether the body is longer.
  abbrev pub reader_limit : ℕ
  reader_limit = pos_part (add64 upload_direct_max_bytes (pos 1))

  abbrev pub limited : Reader → Reader × Bool
  limited body =
      if ltb reader_limit (length body.content)
      then (record { content = take reader_limit body.content; broken = true }, true)
      else (body, false)

  -- The status that directPush gives an error of putPayloadDurably; `too_large` says that the reader
  -- stopped at its limit.
  unfoldable pub push_error_status : Bool → Error → ℕ
  push_error_status too_large (payload (Payloads.object Objects.integrity_mismatch)) = 409
  push_error_status too_large (payload (Payloads.blob Blobs.invalid_hash)) = 400
  push_error_status too_large (payload (Payloads.blob Blobs.invalid_checksum)) = 400
  push_error_status too_large (payload (Payloads.blob Blobs.checksum_mismatch)) = 400
  push_error_status too_large (payload (Payloads.blob Blobs.disk_failed)) =
      if too_large then 413 else 500
  push_error_status too_large _ = 500

  -- directPush behind its checks
  unfoldable pub push_body : Env → Bytes → Bytes → Reader → World v → Response → World v × Response
  push_body e hash checksum body x w =
      let (reader, over) = limited body in
      let (y, put) = put_upload v e hash checksum reader.content reader.broken x in
      elim put [
        | err f ↦
            let status = push_error_status (over && e.disk.temp) f in
            (
              y,
              if status == 413
                  then error (codes "payload exceeds direct upload limit") 413 w
                  else refuse v f status w,
            )
        | ok info ↦
            let (z, failed) = commit_upload v e info y in
            (
              z,
              elim failed [
                | some f ↦ refuse v f 500 w
                | none ↦ write_json (if info.created then 201 else 200) (put_response v info) w
              ],
            )
      ]

  -- directPush
  unfoldable pub direct_push : Request → Env → World v → Response → World v × Response
  direct_push r e x w = elim (query_payload_identity r w) [
    | refused answer ↦ (x, answer)
    | accepted (hash, checksum) ↦
        let pushed = push_body e hash checksum r.body x w in
        if lt_ℤ upload_direct_max_bytes r.content_length
        then (x, error (codes "payload exceeds direct upload limit") 413 w)
        else pushed
  ]

  -- pushPayload
  unfoldable pub push_payload : Request → Env → World v → Response → World v × Response
  push_payload r e x w =
      let created = tus_create_upload v r e x w in
      let pushed = direct_push r e x w in
      let patched = tus_patch_upload r e x w in
      let deleted = tus_delete_upload v r e.now x w in
      if not has_uploads
      then (x, error (codes "upload sessions are not configured") 503 w)
      else elim r.method [
        | options ↦ (x, push_options w)
        | post ↦ if is_tus_request r then created else pushed
        | head ↦ (x, tus_head_upload v r e.now x w)
        | patch ↦ patched
        | delete ↦ deleted
        | get ↦ (x, error (codes "method not allowed") 405 w)
        | other_method ↦ (x, error (codes "method not allowed") 405 w)
      ]
