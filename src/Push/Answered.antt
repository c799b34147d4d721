-- ===== src/Push/Answered.antt =====
-- Every push gets an answer.
use vaps.Base.{ℕ, ◌≡◌, true, ◌&&◌, none, [], List, arith, Option-cases, inl, inr}
use vaps.Text.{Bytes, codes, trim_prefix}
use vaps.Int64.{ℤ, pos}
use vaps.Http.{Response}
use vaps.Http.Statuses.{write_header-status}
use vaps.Requests.{Request, query_payload_identity, header, fields, or_empty}
use vaps.Uploads.{Session, Reader, regular, partial}
use vaps.Uploads.Store.{create, build_final, terminate}
use vaps.Push.{Services, World, Env, upload, parse_upload_length}
use vaps.Push.Handlers.{
  append_upload, put_upload, commit_upload, finalize_upload, append_upload_body, put_response,
  answer_final, write_tus_created, find_session, tus_head_upload, tus_delete_upload,
}
use vaps.Push.Creations.{
  create_regular, create_partial, create_final, find_partials, tus_create_concat, tus_create_upload,
}
use vaps.Push.Patches.{
  Patch, patch_request, check_patch, patch_append, tus_patch_upload, limited, push_error_status,
  push_body, direct_push, push_payload,
}
use vaps.Dict.{lookup}
use vaps.Push.Answers.{
  write_json-status, write_tus_created-status, head_answer-status, patch_answer-status,
  push_options-status,
}
use vaps.Push.Refusals.{
  answered, checked, Checked-cases, upload-cases, push-cases, is_answered, error-answered,
  query_payload_identity-checked, find_session-checked, patch_request-checked, check_patch-failing,
  upload_error-answered, refuse-answered,
}

module _ (v : Services) where
  answer_final-answered :
      (e : Env) (s : Session) (x : World v) (w : Response)
      → w.status ≡ none
      → answered (answer_final v e s x w).1 ≡ true
  unfolding answer_final
  answer_final-answered e s x w h = elim (push-cases (finalize_upload v e s x).1) [
    | inl (f, q) ↦ ground (arith, refuse-answered v f 400 w h)
    | inr (info, q) ↦
        ground (arith, is_answered _ _ (write_json-status 201 (put_response v info) w h))
  ]

  created-answered :
      (s : Session) (offset : ℤ) (w : Response)
      → w.status ≡ none
      → answered (write_tus_created v s offset w) ≡ true
  created-answered s offset w h = is_answered _ _ (write_tus_created-status v s offset w h)

  create_regular-answered :
      (r : Request) (e : Env) (hash checksum : Bytes) (n : ℤ) (x : World v) (w : Response)
      → w.status ≡ none
      → answered (create_regular v r e hash checksum n x w).1 ≡ true
  unfolding create_regular
  create_regular-answered r e hash checksum n x w h =
      let made =
        create v.sessions v.temp_dir v.expiration e.new_id hash checksum regular n [] e.now
          x.uploads in
      elim (upload-cases made.1) [
        | inl (f, q) ↦ ground (arith, refuse-answered v (upload f) 500 w h)
        | inr (s, q) ↦
            let y = record x { uploads = made.0 } in
            let grown = append_upload_body v r s (pos 0) e.now y in
            elim (push-cases grown.1) [
              | inl (f, g) ↦
                  ground (arith, refuse-answered v f 400 w h, created-answered s (pos 0) w h)
              | inr (t, g) ↦ ground (
                arith,
                created-answered s (pos 0) w h,
                answer_final-answered e t grown.0 w h,
                created-answered t t.offset w h,
              )
            ]
      ]

  create_partial-answered :
      (e : Env) (hash checksum : Bytes) (x : World v) (w : Response)
      → w.status ≡ none
      → answered (create_partial v e hash checksum x w).1 ≡ true
  unfolding create_partial
  create_partial-answered e hash checksum x w h =
      elim (upload-cases
        (create v.sessions v.temp_dir v.expiration e.new_id hash checksum partial (pos 0) [] e.now
          x.uploads).1) [
            | inl (f, q) ↦ ground (arith, refuse-answered v (upload f) 500 w h)
            | inr (s, q) ↦ ground (arith, created-answered s (pos 0) w h)
          ]

  create_final-answered :
      (e : Env) (hash checksum : Bytes) (refs : List Bytes) (x : World v) (w : Response)
      → w.status ≡ none
      → answered (create_final v e hash checksum refs x w).1 ≡ true
  unfolding create_final
  create_final-answered e hash checksum refs x w h =
      elim (push-cases (find_partials v refs e.now x)) [
        | inl (f, q) ↦ ground (arith, refuse-answered v f 400 w h)
        | inr (ps, q) ↦
            let built =
              build_final v.sessions v.temp_dir v.expiration e.new_id hash checksum ps e.now
                x.uploads in
            elim (upload-cases built.1) [
              | inl (f, g) ↦ ground (arith, refuse-answered v (upload f) 400 w h)
              | inr (s, g) ↦
                  ground (arith, answer_final-answered e s (record x { uploads = built.0 }) w h)
            ]
      ]

  tus_create_upload-answered :
      (r : Request) (e : Env) (x : World v) (w : Response)
      → w.status ≡ none
      → answered (tus_create_upload v r e x w).1 ≡ true
  unfolding tus_create_upload tus_create_concat checked
  tus_create_upload-answered r e x w h = elim (Checked-cases (query_payload_identity r w)) [
    | inl (a, q) ↦ ground (arith, query_payload_identity-checked r w h)
    | inr ((hash, checksum), q) ↦
        let concat = header (codes "Upload-Concat") r in
        let partial_answer = create_partial-answered e hash checksum x w h in
        let final_answer =
          create_final-answered e hash checksum (fields (trim_prefix concat (codes "final;"))) x w
            h in
        let missing = error-answered (codes "missing Tus-Resumable header") 400 w h in
        let invalid = error-answered (codes "invalid Upload-Concat header") 400 w h in
        elim (push-cases
          (parse_upload_length (or_empty (lookup (codes "Upload-Length") r.headers)))) [
            | inl (f, g) ↦
                ground (
                  arith,
                  partial_answer,
                  final_answer,
                  missing,
                  invalid,
                  refuse-answered v f 400 w h,
                )
            | inr (n, g) ↦ ground (
              arith,
              partial_answer,
              final_answer,
              missing,
              invalid,
              create_regular-answered r e hash checksum n x w h,
            )
          ]
  ]

  tus_head_upload-answered :
      (r : Request) (now : ℕ) (x : World v) (w : Response)
      → w.status ≡ none
      → answered (tus_head_upload v r now x w) ≡ true
  unfolding tus_head_upload checked
  tus_head_upload-answered r now x w h = elim (Checked-cases (find_session v r now x w)) [
    | inl (a, q) ↦ ground (arith, find_session-checked v r now x w h)
    | inr ((id, s), q) ↦ ground (arith, is_answered _ _ (head_answer-status v s w h))
  ]

  tus_delete_upload-answered :
      (r : Request) (now : ℕ) (x : World v) (w : Response)
      → w.status ≡ none
      → answered (tus_delete_upload v r now x w).1 ≡ true
  unfolding tus_delete_upload checked
  tus_delete_upload-answered r now x w h = elim (Checked-cases (find_session v r now x w)) [
    | inl (a, q) ↦ ground (arith, find_session-checked v r now x w h)
    | inr ((id, s), q) ↦
        elim (Option-cases (terminate v.sessions v.temp_dir v.expiration id x.uploads).1) [
          | inl g ↦ ground (arith, is_answered _ _ (write_header-status 204 w h))
          | inr (f, g) ↦ ground (arith, upload_error-answered v (upload f) w h)
        ]
  ]

  patch_append-answered :
      (r : Request) (p : Patch) (e : Env) (x : World v) (w : Response)
      → w.status ≡ none
      → answered (patch_append v r p e x w).1 ≡ true
  unfolding patch_append
  patch_append-answered r p e x w h =
      let grown = append_upload v p.upload_id p.offset r.body.content e.now x in
      elim (push-cases grown.1) [
        | inl (f, q) ↦ ground (arith, upload_error-answered v f w h)
        | inr (s, q) ↦ ground (
          arith,
          answer_final-answered e s grown.0 w h,
          is_answered _ _ (patch_answer-status v s w h),
        )
      ]

  tus_patch_upload-answered :
      (r : Request) (e : Env) (x : World v) (w : Response)
      → w.status ≡ none
      → answered (tus_patch_upload v r e x w).1 ≡ true
  unfolding tus_patch_upload checked
  tus_patch_upload-answered r e x w h = elim (Checked-cases (patch_request v r w)) [
    | inl (a, q) ↦ ground (arith, patch_request-checked v r w h)
    | inr (p, q) ↦ elim (Option-cases (check_patch v r p e.now x w)) [
      | inl g ↦ ground (arith, patch_append-answered r p e x w h)
      | inr (a, g) ↦ ground (arith, check_patch-failing v r p e.now x w a h g)
    ]
  ]

  push_body-answered :
      (e : Env) (hash checksum : Bytes) (body : Reader) (x : World v) (w : Response)
      → w.status ≡ none
      → answered (push_body v e hash checksum body x w).1 ≡ true
  unfolding push_body
  push_body-answered e hash checksum body x w h =
      let (reader, over) = limited v body in
      let put = put_upload v e hash checksum reader.content reader.broken x in
      elim (push-cases put.1) [
        | inl (f, q) ↦
            let status = push_error_status v (over && e.disk.temp) f in
            ground (
              arith,
              refuse-answered v f status w h,
              error-answered (codes "payload exceeds direct upload limit") 413 w h,
            )
        | inr (info, q) ↦ elim (Option-cases (commit_upload v e info put.0).1) [
          | inl g ↦ ground (
            arith,
            is_answered _ _ (write_json-status 201 (put_response v info) w h),
            is_answered _ _ (write_json-status 200 (put_response v info) w h),
          )
          | inr (f, g) ↦ ground (arith, refuse-answered v f 500 w h)
        ]
      ]

  direct_push-answered :
      (r : Request) (e : Env) (x : World v) (w : Response)
      → w.status ≡ none
      → answered (direct_push v r e x w).1 ≡ true
  unfolding direct_push checked
  direct_push-answered r e x w h = elim (Checked-cases (query_payload_identity r w)) [
    | inl (a, q) ↦ ground (arith, query_payload_identity-checked r w h)
    | inr ((hash, checksum), q) ↦ ground (
      arith,
      push_body-answered e hash checksum r.body x w h,
      error-answered (codes "payload exceeds direct upload limit") 413 w h,
    )
  ]

  -- Every request to the push endpoint is answered with a status, whatever it contains and
  -- whatever fails, if the response has no status before.
  pub push_payload-answered :
      (r : Request) (e : Env) (x : World v) (w : Response)
      → w.status ≡ none
      → answered (push_payload v r e x w).1 ≡ true
  unfolding push_payload
  push_payload-answered r e x w h = ground (
    arith,
    error-answered (codes "upload sessions are not configured") 503 w h,
    error-answered (codes "method not allowed") 405 w h,
    is_answered _ _ (push_options-status v w h),
    tus_create_upload-answered r e x w h,
    direct_push-answered r e x w h,
    tus_head_upload-answered r e.now x w h,
    tus_patch_upload-answered r e x w h,
    tus_delete_upload-answered r e.now x w h,
  )
