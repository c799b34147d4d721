-- ===== src/Push/Stored.antt =====
-- What has happened once a PATCH has been answered with 201.
use vaps.Base.{ℕ, ◌≡◌, refl, false, none, some, arith, Option-cases, inl, inr}
use vaps.Text.{Bytes, same→eq, codes, trim_space}
use vaps.Int64.{ℤ, pos, parse_int}
use vaps.Dict.{lookup}
use vaps.Blobs
use vaps.Blobs.{Disk, exists}
use vaps.Http.{Response}
use vaps.Requests.{Request, query_value, query_hash, query_payload_identity, header, accepted}
use vaps.Uploads
use vaps.Uploads.{Session, Reader, ensure_active}
use vaps.Uploads.Store.{get_session, get_locked, append, open_temp}
use vaps.Payloads
use vaps.Payloads.Records.{commit_payload_metadata-remote}
use vaps.Payloads.{
  put_payload_durably, commit_payload_metadata, save_record, merge_record, new_record,
}
use vaps.Payloads.Durable.{payload-cases}
use vaps.Push.{ok, Services, World, Env}
use vaps.Push.Handlers.{
  append_upload, put_upload, commit_upload, complete_upload, finalize_file, finalize_upload,
  answer_final,
}
use vaps.Push.Patches.{Patch, patch_request, check_patch, patch_append, tus_patch_upload}
use vaps.Push.Answers.{refuse-status, patch_answer-status}
use vaps.Push.Refusals.{
  checked, failing, Checked-cases, push-cases, upload-cases, patch_request-checked,
  check_patch-failing, upload_error-failing,
}

query_payload_identity-inv :
    (r : Request) (w : Response) (hash checksum : Bytes)
    → query_payload_identity r w ≡ accepted (hash, checksum)
    → (hash ≡ query_value (codes "iohash") r)
      × (checksum ≡ trim_space (query_value (codes "checksum") r))
unfolding query_payload_identity query_hash
query_payload_identity-inv r w hash checksum h = ground arith

module _ (v : Services) where
  pub put_upload-inv :
      (e : Env) (hash checksum content : Bytes) (x y : World v) (info : Blobs.Info)
      → put_upload v e hash checksum content false x ≡ (y, ok info)
      → put_payload_durably v.payloads v.objects v.has_meta v.has_objects v.checksum_of e.disk
          (pos e.now)
          hash
          checksum
          content
          false
          x.payloads
        ≡ (y.payloads, Payloads.ok info)
  unfolding put_upload
  put_upload-inv e hash checksum content x y info h =
      let put =
        put_payload_durably v.payloads v.objects v.has_meta v.has_objects v.checksum_of e.disk
          (pos e.now) hash checksum content false x.payloads in
      elim (payload-cases put.1) [ inl (f, q) ↦ absurd (ground arith) | inr (i, q) ↦ ground arith ]

  -- The metadata record does not touch the objects.
  commit_upload-remote :
      (e : Env) (info : Blobs.Info) (x : World v)
      → (commit_upload v e info x).0.payloads.remote ≡ x.payloads.remote
  unfolding commit_upload
  commit_upload-remote e info x =
      commit_payload_metadata-remote v.payloads v.objects v.has_objects v.checksum_of v.has_meta
        e.disk e.now info x.payloads

  complete_upload-payloads :
      (e : Env) (id : Bytes) (info : Blobs.Info) (x : World v)
      → (complete_upload v e id info x).0.payloads ≡ x.payloads
  unfolding complete_upload
  complete_upload-payloads e id info x = refl

  pub finalize_file-inv :
      (e : Env) (id content : Bytes) (s : Session) (x y : World v) (info : Blobs.Info)
      → finalize_file v e id content s x ≡ (y, ok info)
      → (z : World v) × (i : Blobs.Info) × (put_upload v e s.expected_hash s.expected_checksum
            content false x
          ≡ (z, ok i))
        × (y.payloads.remote ≡ z.payloads.remote)
  unfolding finalize_file
  finalize_file-inv e id content s x y info h =
      let put = put_upload v e s.expected_hash s.expected_checksum content false x in
      elim (push-cases put.1) [
        | inl (f, q) ↦ absurd (ground arith)
        | inr (i, q) ↦ elim (Option-cases (commit_upload v e i put.0).1) [
          | inr (f, g) ↦ absurd (ground arith)
          | inl g ↦ (
            put.0,
            i,
            ground arith,
            ground (
              arith,
              commit_upload-remote e i put.0,
              complete_upload-payloads e id i (commit_upload v e i put.0).0,
            ),
          )
        ]
      ]

  pub finalize_upload-inv :
      (e : Env) (s : Session) (x y : World v) (info : Blobs.Info)
      → finalize_upload v e s x ≡ (y, ok info)
      → (content : Bytes) × (current : Session) × (open_temp v.sessions v.temp_dir v.expiration s.id
            e.now x.uploads
          ≡ Uploads.ok (content, current))
        × (finalize_file v e s.id content current x ≡ (y, ok info))
  unfolding finalize_upload
  finalize_upload-inv e s x y info h =
      elim (upload-cases (open_temp v.sessions v.temp_dir v.expiration s.id e.now x.uploads)) [
        | inl (f, q) ↦ absurd (ground arith)
        | inr ((content, current), q) ↦ (content, current, q, ground arith)
      ]

  pub open_temp-inv :
      (id : Bytes) (now : ℕ) (u : Uploads.World v.sessions.Db) (content : Bytes) (current : Session)
      → open_temp v.sessions v.temp_dir v.expiration id now u ≡ Uploads.ok (content, current)
      → (v.sessions.get id u.db ≡ some current) × (lookup current.temp_path u.files ≡ some content)
  unfolding open_temp get_session get_locked
  open_temp-inv id now u content current h = elim (Option-cases (v.sessions.get id u.db)) [
    | inl q ↦ absurd (ground arith)
    | inr (s, q) ↦ elim (Option-cases (ensure_active now s)) [
      | inr (f, g) ↦ absurd (ground arith)
      | inl g ↦ ground (arith, Option-cases (lookup s.temp_path u.files))
    ]
  ]

  get_session-inv :
      (id : Bytes) (now : ℕ) (u : Uploads.World v.sessions.Db) (s : Session)
      → get_session v.sessions v.temp_dir v.expiration id now u ≡ Uploads.ok s
      → v.sessions.get id u.db ≡ some s
  unfolding get_session get_locked
  get_session-inv id now u s h = elim (Option-cases (v.sessions.get id u.db)) [
    | inl q ↦ absurd (ground arith)
    | inr (t, q) ↦ ground (arith, Option-cases (ensure_active now t))
  ]

  -- A status of 201 comes from a completed upload.
  pub patch_append-inv :
      (r : Request) (p : Patch) (e : Env) (x y : World v) (w a : Response)
      → w.status ≡ none
      → patch_append v r p e x w ≡ (y, a)
      → a.status ≡ some 201
      → (z : World v) × (s : Session) × (info : Blobs.Info) × (append_upload v p.upload_id p.offset
            r.body.content e.now x
          ≡ (z, ok s))
        × (finalize_upload v e s z ≡ (y, ok info))
  unfolding patch_append answer_final
  patch_append-inv r p e x y w a h k c =
      let grown = append_upload v p.upload_id p.offset r.body.content e.now x in
      elim (push-cases grown.1) [
        | inl (f, q) ↦ absurd (ground (arith, upload_error-failing v f w h))
        | inr (s, q) ↦ elim (push-cases (finalize_upload v e s grown.0).1) [
          | inl (f, g) ↦
              absurd (ground (arith, refuse-status v f 400 w h, patch_answer-status v s w h))
          | inr (info, g) ↦
              (grown.0, s, info, ground arith, ground (arith, patch_answer-status v s w h))
        ]
      ]

  pub tus_patch_upload-inv :
      (r : Request) (e : Env) (x y : World v) (w a : Response)
      → w.status ≡ none
      → tus_patch_upload v r e x w ≡ (y, a)
      → failing a ≡ false
      → (p : Patch) × (patch_request v r w ≡ accepted p)
        × (check_patch v r p e.now x w ≡ none)
        × (patch_append v r p e x w ≡ (y, a))
  unfolding tus_patch_upload checked
  tus_patch_upload-inv r e x y w a h k c = elim (Checked-cases (patch_request v r w)) [
    | inl (b, q) ↦ absurd (ground (arith, patch_request-checked v r w h))
    | inr (p, q) ↦ elim (Option-cases (check_patch v r p e.now x w)) [
      | inr (b, g) ↦ absurd (ground (arith, check_patch-failing v r p e.now x w b h g))
      | inl g ↦ (p, q, g, ground arith)
    ]
  ]

  pub patch_request-identity :
      (r : Request) (w : Response) (p : Patch)
      → patch_request v r w ≡ accepted p
      → (p.hash ≡ query_value (codes "iohash") r)
        × (p.checksum ≡ trim_space (query_value (codes "checksum") r))
        × (p.upload_id ≡ trim_space (query_value (codes "upload_id") r))
  unfolding patch_request
  patch_request-identity r w p h = elim (Checked-cases (query_payload_identity r w)) [
    | inl (a, q) ↦ absurd (ground arith)
    | inr ((hash, checksum), q) ↦
        let (i, j) = query_payload_identity-inv r w hash checksum q in
        ground (arith, Option-cases (parse_int (header (codes "Upload-Offset") r)), i, j)
  ]

  pub check_patch-inv :
      (r : Request) (p : Patch) (now : ℕ) (x : World v) (w : Response)
      → check_patch v r p now x w ≡ none
      → (s : Session) × (v.sessions.get p.upload_id x.uploads.db ≡ some s)
        × (s.expected_hash ≡ p.hash)
        × (s.expected_checksum ≡ p.checksum)
  unfolding check_patch
  check_patch-inv r p now x w h =
      elim (upload-cases
        (get_session v.sessions v.temp_dir v.expiration p.upload_id now x.uploads)) [
          | inl (f, q) ↦ absurd (ground arith)
          | inr (s, q) ↦ (
            s,
            get_session-inv p.upload_id now x.uploads s q,
            ground (arith, same→eq s.expected_hash p.hash),
            ground (arith, same→eq s.expected_checksum p.checksum),
          )
        ]

  pub append_upload-inv :
      (id : Bytes) (offset : ℤ) (content : Bytes) (now : ℕ) (x z : World v) (s : Session)
      → append_upload v id offset content now x ≡ (z, ok s)
      → (append v.sessions v.temp_dir v.expiration id offset
            (record { content = content; broken = false })
            now
            x.uploads
          ≡ (z.uploads, Uploads.ok s))
        × (z.payloads ≡ x.payloads)
  unfolding append_upload
  append_upload-inv id offset content now x z s h =
      let whole : Reader = record { content = content; broken = false } in
      elim (upload-cases
        (append v.sessions v.temp_dir v.expiration id offset whole now x.uploads).1) [
          | inl (f, q) ↦ absurd (ground arith)
          | inr (t, q) ↦ ground arith
        ]
