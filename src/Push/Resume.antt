-- ===== src/Push/Resume.antt =====
-- A client that asks with HEAD where to resume learns the offset that its last PATCH was answered with.
use vaps.Base.{
  ℕ, ◌+◌, ◌≤◌, ◌≡◌, refl, sym, ap, ◌∙◌, false, none, some, [], arith, Option-cases, inl, inr,
}
use vaps.Text.{Bytes, same, same_refl, codes, trim_space}
use vaps.Int64.{ℤ, format_int, parse_int}
use vaps.Dict.{lookup, insert, remove}
use vaps.Http.{Response, empty_response, set_header, write_header}
use vaps.Requests.{
  Request, header, query_value, or_empty, query_hash, query_payload_identity, accepted,
}
use vaps.Uploads.{Session, ensure_active}
use vaps.Uploads.Store.{get_session, get_locked}
use vaps.Uploads.Appends.{Appended, append-Appended, Appended-identity}
use vaps.Push.{ok, Services, World, Env, set_tus_headers}
use vaps.Push.Handlers.{
  put_response, append_upload, finalize_upload, find_session, head_answer, tus_head_upload,
  answer_final,
}
use vaps.Push.Patches.{Patch, patch_request, patch_append, patch_answer, tus_patch_upload}
use vaps.Push.Answers.{refuse-status, head_answer-status, write_json-status}
use vaps.Push.Refusals.{Checked-cases, push-cases, upload_error-failing}
use vaps.Push.Stored.{tus_patch_upload-inv, check_patch-inv, append_upload-inv}

module _ (v : Services) where
  -- A status of 204 comes from an upload that is not complete.
  patch_append-open :
      (r : Request) (p : Patch) (e : Env) (x y : World v) (w a : Response)
      → w.status ≡ none
      → patch_append v r p e x w ≡ (y, a)
      → a.status ≡ some 204
      → (s : Session) × (append_upload v p.upload_id p.offset r.body.content e.now x ≡ (y, ok s))
        × (a ≡ patch_answer v s w)
  unfolding patch_append answer_final
  patch_append-open r p e x y w a h k c =
      let grown = append_upload v p.upload_id p.offset r.body.content e.now x in
      elim (push-cases grown.1) [
        | inl (f, q) ↦ absurd (ground (arith, upload_error-failing v f w h))
        | inr (s, q) ↦ elim (push-cases (finalize_upload v e s grown.0).1) [
          | inl (f, g) ↦ (
            s,
            ground (arith, refuse-status v f 400 w h),
            ground (arith, refuse-status v f 400 w h),
          )
          | inr (info, g) ↦ (
            s,
            ground (arith, write_json-status 201 (put_response v info) w h),
            ground (arith, write_json-status 201 (put_response v info) w h),
          )
        ]
      ]

  -- The accepted request names an identity and an upload.
  patch_request-inv :
      (r : Request) (w : Response) (p : Patch)
      → patch_request v r w ≡ accepted p
      → (query_payload_identity r w ≡ accepted (p.hash, p.checksum))
        × (p.upload_id ≡ trim_space (query_value (codes "upload_id") r))
        × (same p.upload_id [] ≡ false)
  unfolding patch_request
  patch_request-inv r w p h = elim (Checked-cases (query_payload_identity r w)) [
    | inl (a, q) ↦ absurd (ground arith)
    | inr ((hash, checksum), q) ↦
        ground (arith, Option-cases (parse_int (header (codes "Upload-Offset") r)))
  ]

  query_payload_identity-query :
      (r t : Request) (w : Response)
      → t.query ≡ r.query
      → query_payload_identity t w ≡ query_payload_identity r w
  unfolding query_payload_identity query_hash query_value
  query_payload_identity-query r t w h = ground arith

  -- The checks of HEAD, for a session that is there.
  find_session-accepted :
      (t : Request) (now : ℕ) (y : World v) (w : Response) (hash checksum : Bytes) (s : Session)
      → query_payload_identity t w ≡ accepted (hash, checksum)
      → same (trim_space (query_value (codes "upload_id") t)) [] ≡ false
      → v.sessions.get (trim_space (query_value (codes "upload_id") t)) y.uploads.db ≡ some s
      → ensure_active now s ≡ none
      → s.expected_hash ≡ hash
      → s.expected_checksum ≡ checksum
      → find_session v t now y w ≡ accepted (trim_space (query_value (codes "upload_id") t), s)
  unfolding find_session get_session get_locked
  find_session-accepted t now y w hash checksum s q n g a h c =
      ground (arith, same_refl s.expected_hash, same_refl s.expected_checksum)

  -- The header that both answers have.
  head_answer-offset :
      (s : Session)
      → lookup (codes "Upload-Offset") (head_answer v s empty_response).headers
        ≡ some (format_int s.offset)
  unfolding head_answer set_tus_headers set_header write_header lookup insert remove same
  head_answer-offset s = ground arith

  patch_answer-offset :
      (s : Session)
      → lookup (codes "Upload-Offset") (patch_answer v s empty_response).headers
        ≡ some (format_int s.offset)
  unfolding patch_answer set_tus_headers set_header write_header lookup insert remove same
  patch_answer-offset s = ground arith

  -- Both answers of a session are of one offset.
  pub record Resumes (t : Request) (now : ℕ) (y : World v) (a : Response) : Type 0 where
    pub offset : ℤ
    pub told : lookup (codes "Upload-Offset") a.headers ≡ some (format_int offset)
    pub answered : (tus_head_upload v t now y empty_response).status ≡ some 200
    pub told_again :
        lookup (codes "Upload-Offset") (tus_head_upload v t now y empty_response).headers
        ≡ some (format_int offset)

  head-Resumes :
      (t : Request) (now : ℕ) (y : World v) (a : Response) (id : Bytes) (s : Session)
      → find_session v t now y empty_response ≡ accepted (id, s)
      → a ≡ patch_answer v s empty_response
      → Resumes t now y a
  unfolding tus_head_upload
  head-Resumes t now y a id s f k = record {
    offset = s.offset;
    told = rw k (patch_answer-offset s);
    answered = ground (arith, head_answer-status v s empty_response refl);
    told_again = ground (arith, head_answer-offset s);
  }

  -- The session that Append stored is found, is active and has the same identity.
  module _ (id : Bytes) (offset : ℤ) (content : Bytes) (e : Env) (x y : World v) (s : Session)
      (a : Appended v.sessions v.temp_dir v.expiration id offset
        (record { content = content; broken = false })
        e.now
        x.uploads
        y.uploads
        s) where
    stored_session : a.before.id ≡ id → v.sessions.get id y.uploads.db ≡ some s
    stored_session k = ground (
      arith,
      v.sessions.get-put id a.before.id s x.uploads.db y.uploads.db a.stored,
      same_refl id,
    )

    still_active : (now : ℕ) → now ≤ e.now + v.expiration → ensure_active now s ≡ none
    unfolding ensure_active
    still_active now h = ground (arith, a.session, a.active)

  module _ (r t : Request) (e : Env) (now : ℕ) (x y : World v) where
    abbrev asked : Bytes
    asked = trim_space (query_value (codes "upload_id") r)

    -- The session that the PATCH stored is the one that HEAD finds.
    found_by_head :
        (p : Patch) (s b : Session)
        → ((s : Session) → v.sessions.get asked x.uploads.db ≡ some s → s.id ≡ asked)
        → t.query ≡ r.query
        → now ≤ e.now + v.expiration
        → (query_payload_identity r empty_response ≡ accepted (p.hash, p.checksum))
          × (p.upload_id ≡ asked)
          × (same p.upload_id [] ≡ false)
        → v.sessions.get p.upload_id x.uploads.db ≡ some b
        → b.expected_hash ≡ p.hash
        → b.expected_checksum ≡ p.checksum
        → Appended v.sessions v.temp_dir v.expiration p.upload_id p.offset
            (record { content = r.body.content; broken = false })
            e.now
            x.uploads
            y.uploads
            s
        → find_session v t now y empty_response ≡ accepted (asked, s)
    unfolding query_value
    found_by_head p s b keyed q d (i, j, k) g m n a =
        let stored = stored_session p.upload_id p.offset r.body.content e x y s a in
        let active = still_active p.upload_id p.offset r.body.content e x y s a now d in
        let named : a.before.id ≡ p.upload_id = keyed a.before (rw (← j) a.found) ∙ sym j in
        let identity = query_payload_identity-query r t empty_response q ∙ i in
        let same_id : trim_space (query_value (codes "upload_id") t) ≡ p.upload_id =
          ap (λ z. trim_space (or_empty (lookup (codes "upload_id") z))) q ∙ sym j in
        let (h, c) =
          Appended-identity v.sessions v.temp_dir v.expiration p.upload_id p.offset
            (record { content = r.body.content; broken = false }) e.now x.uploads y.uploads s b g
            a in
        find_session-accepted t now y empty_response p.hash p.checksum s identity (rw same_id k)
          (rw same_id (stored named)) active (h ∙ m) (c ∙ n)
        ∙ ap (λ z. accepted (z, s)) (same_id ∙ j)

  -- If the session that a PATCH names carries its own identifier and the PATCH is answered with
  -- 204, a HEAD for the same upload, before the session expires, is answered with 200 and with the
  -- same Upload-Offset.
  pub tus_head_upload-Resumes :
      (r t : Request) (e : Env) (now : ℕ) (x y : World v) (a : Response)
      → ((s : Session)
          → v.sessions.get (trim_space (query_value (codes "upload_id") r)) x.uploads.db ≡ some s
          → s.id ≡ trim_space (query_value (codes "upload_id") r))
      → tus_patch_upload v r e x empty_response ≡ (y, a)
      → a.status ≡ some 204
      → t.query ≡ r.query
      → now ≤ e.now + v.expiration
      → Resumes t now y a
  tus_head_upload-Resumes r t e now x y a keyed h c q d =
      let (p, req, chk, app) =
        tus_patch_upload-inv v r e x y empty_response a refl h (ground arith) in
      let (i, j, k) = patch_request-inv r empty_response p req in
      let (b, g, m, n) = check_patch-inv v r p e.now x empty_response chk in
      let (s, grown, l) = patch_append-open r p e x y empty_response a refl app c in
      let (u, u') = append_upload-inv v p.upload_id p.offset r.body.content e.now x y s grown in
      let t' =
        append-Appended v.sessions v.temp_dir v.expiration p.upload_id p.offset
          (record { content = r.body.content; broken = false }) e.now x.uploads y.uploads s u in
      head-Resumes t now y a (asked r t e now x y) s
        (found_by_head r t e now x y p s b keyed q d (i, j, k) g m n t') l
