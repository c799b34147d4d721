-- ===== src/Push/Handlers.antt =====
-- The handlers of pushes.
use vaps.Base.{ℕ, Bool, true, false, not, ◌||◌, Option, none, some, [], if◌then◌else◌}
use vaps.Text.{Bytes, same, codes, trim_space}
use vaps.Int64.{ℤ, pos, lt_ℤ, format_int}
use vaps.Dict.{lookup}
use vaps.Http.{Response, error, set_header, write_header}
use vaps.Blobs
use vaps.Uploads
use vaps.Uploads.{Session, Reader, regular, partial, is_partial}
use vaps.Uploads.Store.{get_session, append, terminate, mark_completed, open_temp}
use vaps.Payloads
use vaps.Payloads.{put_payload_durably, commit_payload_metadata}
use vaps.Requests.{
  Request, Checked, refused, accepted, query_value, query_payload_identity, or_empty, write_json,
}
use vaps.Push.{
  Error, upload, payload, text, body_failed, close_failed, Result, ok, err, Services, World, Env,
  message, parse_upload_checksum, checksum_matches, tus_upload_location, format_expires,
  set_tus_headers, write_upload_error,
}

module _ (v : Services) where
  open v use {
    sessions, temp_dir, expiration, payloads, objects, has_uploads, has_meta, has_objects,
    upload_direct_max_bytes, checksum_of, sha1, sha256, decode_base64, render, error_text,
    http_time,
  }

  -- http.Error(w, err.Error(), code)
  unfoldable pub refuse : Error → ℕ → Response → Response
  unfolding error
  refuse e code = error (message error_text e) code

  -- The check of a body against the Upload-Checksum header; none is its success.
  unfoldable pub check_upload_checksum : Request → Bytes → Option Error
  check_upload_checksum r content =
      elim (parse_upload_checksum decode_base64
        (or_empty (lookup (codes "Upload-Checksum") r.headers))) [
          | err e ↦ some e
          | ok none ↦ none
          | ok (some (algorithm, expected)) ↦
              if checksum_matches sha1 sha256 algorithm expected content
              then none
              else some (text (codes "upload checksum mismatch"))
        ]

  -- uploads.Append over the stores of the handler.
  unfoldable pub append_upload : Bytes → ℤ → Bytes → ℕ → World v → World v × Result Session
  append_upload id offset content now x =
      let whole : Reader = record { content = content; broken = false } in
      let (u, appended) = append sessions temp_dir expiration id offset whole now x.uploads in
      (
        record x { uploads = u },
        elim appended [ Uploads.err e ↦ err (upload e) | Uploads.ok s ↦ ok s ],
      )

  -- appendUploadBody
  unfoldable pub append_upload_body : Request → Session → ℤ → ℕ → World v → World v × Result Session
  append_upload_body r session offset now x =
      if r.body.broken
      then (x, err body_failed)
      else elim (check_upload_checksum r r.body.content) [
        | some e ↦ (x, err e)
        | none ↦ append_upload session.id offset r.body.content now x
      ]

  -- putPayloadDurably over the stores of the handler.
  unfoldable pub put_upload :
      Env → Bytes → Bytes → Bytes → Bool → World v → World v × Result Blobs.Info
  put_upload e hash checksum content broken x =
      let (p, put) =
        put_payload_durably payloads objects has_meta has_objects checksum_of e.disk (pos e.now)
          hash checksum content broken x.payloads in
      (
        record x { payloads = p },
        elim put [ Payloads.err f ↦ err (payload f) | Payloads.ok info ↦ ok info ],
      )

  -- commitPayloadMetadata over the stores of the handler; none is nil.
  unfoldable pub commit_upload : Env → Blobs.Info → World v → World v × Option Error
  commit_upload e info x =
      let (p, failed) =
        commit_payload_metadata payloads objects has_meta has_objects checksum_of e.disk e.now info
          x.payloads in
      (record x { payloads = p }, elim failed [ none ↦ none | some f ↦ some (payload f) ])

  -- The response of a stored payload.
  abbrev pub put_response : Blobs.Info → Bytes
  put_response info =
      render
        (record { hash = info.hash; checksum = info.checksum; size = info.size; stored = true })

  -- The end of finalizeUpload: the upload is removed, its partial uploads with it.
  unfoldable pub complete_upload : Env → Bytes → Blobs.Info → World v → World v × Result Blobs.Info
  complete_upload e id info x =
      let (u, marked) = mark_completed sessions temp_dir expiration id e.now x.uploads in
      (
        record x { uploads = u },
        elim marked [ Uploads.err f ↦ err (upload f) | Uploads.ok s ↦ ok info ],
      )

  -- finalizeUpload behind OpenTemp
  unfoldable pub finalize_file :
      Env → Bytes → Bytes → Session → World v → World v × Result Blobs.Info
  finalize_file e id content current x =
      let (y, put) = put_upload e current.expected_hash current.expected_checksum content false x in
      elim put [
        | err f ↦ (y, err f)
        | ok info ↦
            let (z, failed) = commit_upload e info y in
            let completed = complete_upload e id info z in
            if not e.close_file
            then (y, err close_failed)
            else elim failed [ some f ↦ (z, err f) | none ↦ completed ]
      ]

  -- finalizeUpload: its error is left to the caller to answer.
  unfoldable pub finalize_upload : Env → Session → World v → World v × Result Blobs.Info
  finalize_upload e session x =
      elim (open_temp sessions temp_dir expiration session.id e.now x.uploads) [
        | Uploads.err f ↦ (x, err (upload f))
        | Uploads.ok (content, current) ↦ finalize_file e session.id content current x
      ]

  -- The calls of finalizeUpload with the answer to its error.
  unfoldable pub answer_final : Env → Session → World v → Response → World v × Response
  answer_final e session x w =
      let (y, done) = finalize_upload e session x in
      (y, elim done [ err f ↦ refuse f 400 w | ok info ↦ write_json 201 (put_response info) w ])

  -- writeTusCreated
  unfoldable pub write_tus_created : Session → ℤ → Response → Response
  write_tus_created session offset w =
      let location =
        tus_upload_location session.expected_hash session.expected_checksum session.id in
      let placed = set_header (codes "Location") location w in
      let moved = set_header (codes "Upload-Offset") (format_int offset) placed in
      let sized =
        if lt_ℤ (pos 0) session.length
        then set_header (codes "Upload-Length") (format_int session.length) moved
        else moved in
      let typed =
        if is_partial session.kind
        then set_header (codes "Upload-Concat") (codes "partial") sized
        else sized in
      write_header 201 (set_tus_headers http_time (format_expires session.expires_at) typed)

  -- The checks that HEAD and DELETE share: the session that the request names.
  unfoldable pub find_session : Request → ℕ → World v → Response → Checked (Bytes × Session)
  find_session r now x w = elim (query_payload_identity r w) [
    | refused answer ↦ refused answer
    | accepted (hash, checksum) ↦
        let upload_id = trim_space (query_value (codes "upload_id") r) in
        if same upload_id []
        then refused (error (codes "upload_id is required") 400 w)
        else elim (get_session sessions temp_dir expiration upload_id now x.uploads) [
          | Uploads.err f ↦ refused (write_upload_error error_text (upload f) w)
          | Uploads.ok session ↦
              if not (same session.expected_hash hash)
                || not (same session.expected_checksum checksum)
              then refused (error (codes "upload identity does not match upload session") 400 w)
              else accepted (upload_id, session)
        ]
  ]

  -- The answer of tusHeadUpload for a session.
  unfoldable pub head_answer : Session → Response → Response
  head_answer session w =
      let moved = set_header (codes "Upload-Offset") (format_int session.offset) w in
      let sized = set_header (codes "Upload-Length") (format_int session.length) moved in
      let timed = set_tus_headers http_time (format_expires session.expires_at) sized in
      write_header 200 (
        if is_partial session.kind
        then set_header (codes "Upload-Concat") (codes "partial") timed
        else timed)

  -- tusHeadUpload
  unfoldable pub tus_head_upload : Request → ℕ → World v → Response → Response
  tus_head_upload r now x w = elim (find_session r now x w) [
    | refused answer ↦ answer
    | accepted (upload_id, session) ↦ head_answer session w
  ]

  -- tusDeleteUpload
  unfoldable pub tus_delete_upload : Request → ℕ → World v → Response → World v × Response
  tus_delete_upload r now x w = elim (find_session r now x w) [
    | refused answer ↦ (x, answer)
    | accepted (upload_id, session) ↦
        let (u, failed) = terminate sessions temp_dir expiration upload_id x.uploads in
        (
          record x { uploads = u },
          elim failed [
            | some f ↦ write_upload_error error_text (upload f) w
            | none ↦ write_header 204 w
          ],
        )
  ]
