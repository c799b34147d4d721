-- ===== src/Push/Creations.antt =====
-- The handlers that create uploads.
use vaps.Base.{ℕ, not, List, [], ◌∷◌, length, if◌then◌else◌}
use vaps.Text.{Bytes, same, codes, has_prefix, trim_prefix}
use vaps.Int64.{ℤ, pos, lt_ℤ, eq_ℤ}
use vaps.Dict.{lookup}
use vaps.Http.{Response, error}
use vaps.Uploads
use vaps.Uploads.{Session, Reader, regular, partial, is_partial}
use vaps.Uploads.Store.{create, build_final, get_by_ref}
use vaps.Requests.{Request, refused, accepted, header, query_payload_identity, or_empty, fields}
use vaps.Push.{upload, Result, ok, err, Services, World, Env, parse_upload_length}
use vaps.Push.Handlers.{refuse, append_upload_body, answer_final, write_tus_created}

module _ (v : Services) where
  open v use {
    sessions, temp_dir, expiration, payloads, objects, has_uploads, has_meta, has_objects,
    upload_direct_max_bytes, checksum_of, sha1, sha256, decode_base64, render, error_text,
    http_time,
  }

  -- tusCreateUpload behind its checks, for a regular upload. The response of a failed upload is that
  -- of the error; the session stays.
  unfoldable pub create_regular :
      Request → Env → Bytes → Bytes → ℤ → World v → Response → World v × Response
  create_regular r e hash checksum length x w =
      let (u, created) =
        create sessions temp_dir expiration e.new_id hash checksum regular length [] e.now
          x.uploads in
      let y = record x { uploads = u } in
      elim created [
        | Uploads.err f ↦ (y, refuse v (upload f) 500 w)
        | Uploads.ok session ↦
            let (z, appended) = append_upload_body v r session (pos 0) e.now y in
            if not (lt_ℤ (pos 0) r.content_length)
            then (y, write_tus_created v session (pos 0) w)
            else (elim appended [
              | err f ↦ (z, refuse v f 400 w)
              | ok grown ↦
                  let final = answer_final v e grown z w in
                  if eq_ℤ grown.offset grown.length
                  then final
                  else (z, write_tus_created v grown grown.offset w)
            ])
      ]

  -- The loop of tusCreateConcat over the references.
  unfoldable pub find_partials : List Bytes → ℕ → World v → Result (List Session)
  find_partials [] now x = ok []
  find_partials (ref ∷ refs) now x =
      let rest = find_partials refs now x in
      elim (get_by_ref sessions temp_dir expiration ref now x.uploads) [
        | Uploads.err f ↦ err (upload f)
        | Uploads.ok p ↦ elim rest [ err f ↦ err f | ok ps ↦ ok (p ∷ ps) ]
      ]

  -- tusCreateConcat for a partial upload
  unfoldable pub create_partial : Env → Bytes → Bytes → World v → Response → World v × Response
  create_partial e hash checksum x w =
      let (u, created) =
        create sessions temp_dir expiration e.new_id hash checksum partial (pos 0) [] e.now
          x.uploads in
      (
        record x { uploads = u },
        elim created [
          | Uploads.err f ↦ refuse v (upload f) 500 w
          | Uploads.ok session ↦ write_tus_created v session (pos 0) w
        ],
      )

  -- tusCreateConcat for a final upload
  unfoldable pub create_final :
      Env → Bytes → Bytes → List Bytes → World v → Response → World v × Response
  create_final e hash checksum refs x w = elim (find_partials refs e.now x) [
    | err f ↦ (x, refuse v f 400 w)
    | ok partials ↦
        let (u, built) =
          build_final sessions temp_dir expiration e.new_id hash checksum partials e.now
            x.uploads in
        let y = record x { uploads = u } in
        elim built [
          | Uploads.err f ↦ (y, refuse v (upload f) 400 w)
          | Uploads.ok final ↦ answer_final v e final y w
        ]
  ]

  -- tusCreateConcat
  unfoldable pub tus_create_concat :
      Env → Bytes → Bytes → Bytes → World v → Response → World v × Response
  tus_create_concat e hash checksum concat x w =
      if has_prefix concat (codes "partial")
      then create_partial e hash checksum x w
      else if not (has_prefix concat (codes "final;"))
      then (x, error (codes "invalid Upload-Concat header") 400 w)
      else create_final e hash checksum (fields (trim_prefix concat (codes "final;"))) x w

  -- tusCreateUpload
  unfoldable pub tus_create_upload : Request → Env → World v → Response → World v × Response
  tus_create_upload r e x w = elim (query_payload_identity r w) [
    | refused answer ↦ (x, answer)
    | accepted (hash, checksum) ↦
        let concat = header (codes "Upload-Concat") r in
        if same (header (codes "Tus-Resumable") r) []
        then (x, error (codes "missing Tus-Resumable header") 400 w)
        else if not (same concat [])
        then tus_create_concat e hash checksum concat x w
        else elim (parse_upload_length (or_empty (lookup (codes "Upload-Length") r.headers))) [
          | err f ↦ (x, refuse v f 400 w)
          | ok length ↦ create_regular r e hash checksum length x w
        ]
  ]
