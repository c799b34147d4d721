-- ===== src/Push/Durable.antt =====
-- What the object store holds once a PATCH has been answered with 201.
use vaps.Base.{◌≡◌, refl, sym, ap, subst, ◌∙◌, true, false, some, ◌++◌, arith}
use vaps.Text.{Bytes, same_refl, codes, trim_space}
use vaps.Int64.{ℤ, pos}
use vaps.Dict.{lookup, lookup-insert}
use vaps.Http.{Response, empty_response}
use vaps.Requests.{Request, query_value}
use vaps.Uploads.{Session, Reader}
use vaps.Uploads.Appends.{Appended, append-Appended, Appended-identity}
use vaps.Blobs.{Info}
use vaps.Payloads
use vaps.Payloads.{put_payload_durably}
use vaps.Payloads.Durable.{Durable, is_missing, put_payload_durably-missing}
use vaps.Push.{ok, Services, World, Env}
use vaps.Push.Handlers.{put_upload, finalize_upload}
use vaps.Push.Patches.{Patch, tus_patch_upload}
use vaps.Push.Stored.{
  put_upload-inv, finalize_file-inv, finalize_upload-inv, open_temp-inv, patch_append-inv,
  tus_patch_upload-inv, patch_request-identity, check_patch-inv, append_upload-inv,
}

module _ (v : Services) where
  -- The object store holds what the file of the session held, with the bytes of the request behind it.
  pub record Completed (r : Request) (x y : World v) : Type 0 where
    pub session : Session
    pub old : Bytes
    pub found :
        v.sessions.get (trim_space (query_value (codes "upload_id") r)) x.uploads.db ≡ some session
    pub file : lookup session.temp_path x.uploads.files ≡ some old
    pub checksum :
        v.checksum_of (old ++ r.body.content) ≡ trim_space (query_value (codes "checksum") r)
    pub durable :
        Durable v.payloads v.objects v.has_meta v.checksum_of
          (query_value (codes "iohash") r)
          (trim_space (query_value (codes "checksum") r))
          (old ++ r.body.content)
          (is_missing (v.objects.head (query_value (codes "iohash") r) x.payloads.remote))
          y.payloads.remote

  module _ (id : Bytes) (e : Env) (r : Reader) (x z : World v) (offset : ℤ) (s : Session)
      (a : Appended v.sessions v.temp_dir v.expiration id offset r e.now x.uploads z.uploads
        s) where
    id_kept : s.id ≡ a.before.id
    id_kept = ap (λ t. t.id) a.session

    -- The session is found again.
    found_again : (c : Session) → v.sessions.get s.id z.uploads.db ≡ some c → c ≡ s
    found_again c g = ground (
      arith,
      v.sessions.get-put s.id a.before.id s x.uploads.db z.uploads.db a.stored,
      id_kept,
      same_refl s.id,
    )

    -- Its file has the new bytes behind the old ones.
    content_again :
        (content : Bytes)
        → lookup s.temp_path z.uploads.files ≡ some content
        → content ≡ a.old ++ r.content
    content_again content l = ground (
      arith,
      ap (λ t. t.temp_path) a.session,
      a.files,
      lookup-insert s.temp_path a.before.temp_path (a.old ++ r.content) x.uploads.files,
      same_refl s.temp_path,
    )

  put_upload-Durable :
      (e : Env) (hash checksum content : Bytes) (x y : World v) (info : Info)
      → v.has_objects ≡ true
      → put_upload v e hash checksum content false x ≡ (y, ok info)
      → (v.checksum_of content ≡ checksum)
        × Durable v.payloads v.objects v.has_meta v.checksum_of hash checksum content
            (is_missing (v.objects.head hash x.payloads.remote))
            y.payloads.remote
  put_upload-Durable e hash checksum content x y info objects h =
      put_payload_durably-missing v.payloads v.objects v.has_meta v.checksum_of e.disk (pos e.now)
        hash checksum content false x.payloads y.payloads info
        (subst
          (λ t.
            put_payload_durably v.payloads v.objects v.has_meta t v.checksum_of e.disk (pos e.now)
              hash checksum content false x.payloads
            ≡ (y.payloads, Payloads.ok info))
          objects (put_upload-inv v e hash checksum content x y info h))

  -- finalizeUpload of the session that Append has just stored.
  finalize-Durable :
      (id : Bytes) (e : Env) (r : Reader) (x z y : World v) (offset : ℤ) (s : Session) (info : Info)
      → v.has_objects ≡ true
      → (a : Appended v.sessions v.temp_dir v.expiration id offset r e.now x.uploads z.uploads s)
      → finalize_upload v e s z ≡ (y, ok info)
      → (v.checksum_of (a.old ++ r.content) ≡ s.expected_checksum)
        × Durable v.payloads v.objects v.has_meta v.checksum_of s.expected_hash s.expected_checksum
            (a.old ++ r.content)
            (is_missing (v.objects.head s.expected_hash z.payloads.remote))
            y.payloads.remote
  finalize-Durable id e r x z y offset s info objects a h =
      let (content, current, o, f) = finalize_upload-inv v e s z y info h in
      let (g, l) = open_temp-inv v s.id e.now z.uploads content current o in
      let (z1, i, p, q) = finalize_file-inv v e s.id content current z y info f in
      let is_s = found_again id e r x z offset s a current g in
      let is_content = content_again id e r x z offset s a content (rw (← is_s) l) in
      let (k, d) =
        put_upload-Durable e current.expected_hash current.expected_checksum content z z1 i objects
          p in
      (rw (← is_content, ← is_s) k, rw (← is_content, ← is_s, q) d)

  module _ (r : Request) (e : Env) (x y z : World v) where
    abbrev whole : Reader
    whole = record { content = r.body.content; broken = false }

    assemble :
        (p : Patch) (s b : Session)
        → z.payloads ≡ x.payloads
        → (p.hash ≡ query_value (codes "iohash") r)
          × (p.checksum ≡ trim_space (query_value (codes "checksum") r))
          × (p.upload_id ≡ trim_space (query_value (codes "upload_id") r))
        → v.sessions.get p.upload_id x.uploads.db ≡ some b
        → b.expected_hash ≡ p.hash
        → b.expected_checksum ≡ p.checksum
        → (t : Appended v.sessions v.temp_dir v.expiration p.upload_id p.offset whole e.now
            x.uploads z.uploads s)
        → v.checksum_of (t.old ++ r.body.content) ≡ s.expected_checksum
        → Durable v.payloads v.objects v.has_meta v.checksum_of s.expected_hash s.expected_checksum
            (t.old ++ r.body.content)
            (is_missing (v.objects.head s.expected_hash z.payloads.remote))
            y.payloads.remote
        → Completed r x y
    assemble p s b kept (i, j, k) g m n t c d =
        let (m', n') =
          Appended-identity v.sessions v.temp_dir v.expiration p.upload_id p.offset whole e.now
            x.uploads z.uploads s b g t in
        record {
          session = t.before;
          old = t.old;
          found = rw (← k) t.found;
          file = t.file;
          checksum = c ∙ n' ∙ n ∙ j;
          durable = rw (← kept, sym (m' ∙ m ∙ i), sym (n' ∙ n ∙ j)) d;
        }

  -- When a PATCH is answered with 201 and the handler has an object store, the file of the upload
  -- that the request names held some bytes; these with the bytes of the request behind them have
  -- the requested checksum, and the object store has an object of the requested hash with that
  -- checksum, which gives back exactly these bytes if Head found no object of the hash before.
  pub tus_patch_upload-Completed :
      (r : Request) (e : Env) (x y : World v) (a : Response)
      → v.has_objects ≡ true
      → tus_patch_upload v r e x empty_response ≡ (y, a)
      → a.status ≡ some 201
      → Completed r x y
  tus_patch_upload-Completed r e x y a objects h c =
      let (p, req, chk, app) =
        tus_patch_upload-inv v r e x y empty_response a refl h (ground arith) in
      let (b, g, m, n) = check_patch-inv v r p e.now x empty_response chk in
      let (z, s, info, grown, done) = patch_append-inv v r p e x y empty_response a refl app c in
      let (u, u') = append_upload-inv v p.upload_id p.offset r.body.content e.now x z s grown in
      let t =
        append-Appended v.sessions v.temp_dir v.expiration p.upload_id p.offset (whole r e x y z)
          e.now x.uploads z.uploads s u in
      let (ck, d) =
        finalize-Durable p.upload_id e (whole r e x y z) x z y p.offset s info objects t done in
      assemble r e x y z p s b u' (patch_request-identity v r empty_response p req) g m n t ck d
