-- ===== src/Push/Limits.antt =====
-- How long a body a direct push accepts.
use vaps.Base.{
  ℕ, ◌+◌, ◌≤◌, ◌<◌, ◌^◌, ◌≡◌, refl, Bool, true, false, ◌&&◌, length, take, arith, ltb, leb,
  Bool-cases, inl, inr,
}
use vaps.Text.{Bytes, codes}
use vaps.Int64.{ℤ, pos}
use vaps.Int64.Laws.{add64-pos}
use vaps.Blobs
use vaps.Blobs.{stage, checksum_valid, relative_path, Disk}
use vaps.Http.{Response, empty_response}
use vaps.Http.Statuses.{error-status}
use vaps.Requests.{Request, query_payload_identity}
use vaps.Payloads
use vaps.Payloads.{put_payload_durably}
use vaps.Payloads.Durable.{staged-cases}
use vaps.Uploads.{Reader}
use vaps.Push.{err, Services, World, Env, payload}
use vaps.Push.Handlers.{put_upload}
use vaps.Push.Patches.{reader_limit, push_error_status, push_body, direct_push}
use vaps.Push.Answers.{refuse-status}
use vaps.Push.Refusals.{failing, checked, Checked-cases, query_payload_identity-checked}

-- Stage refuses a reader that breaks off.
stage-broken :
    (checksum_of : Bytes → Bytes) (disk : Disk) (now : ℤ) (hash checksum content : Bytes)
    → (f : Blobs.Error) × (stage checksum_of disk now hash checksum content true ≡ Blobs.err f)
unfolding stage
stage-broken checksum_of disk now hash checksum content = elim (staged-cases (relative_path hash)) [
  | inl (f, q) ↦ (f, ground arith)
  | inr (p, q) ↦ elim (Bool-cases (checksum_valid checksum)) [
    | inl k ↦ (Blobs.disk_failed, ground arith)
    | inr k ↦ (Blobs.invalid_checksum, ground arith)
  ]
]

module _ (v : Services) where
  put_upload-broken :
      (e : Env) (hash checksum content : Bytes) (x : World v)
      → (f : Blobs.Error) × ((put_upload v e hash checksum content true x).1
          ≡ err (payload (Payloads.blob f)))
  unfolding put_upload put_payload_durably
  put_upload-broken e hash checksum content x =
      let (f, q) = stage-broken v.checksum_of e.disk (pos e.now) hash checksum content in
      (f, ground arith)

  push_error_status-failing :
      (over : Bool) (f : Blobs.Error)
      → leb 400 (push_error_status v over (payload (Payloads.blob f))) ≡ true
  unfolding push_error_status
  push_error_status-failing over Blobs.invalid_hash = refl
  push_error_status-failing over Blobs.invalid_checksum = refl
  push_error_status-failing over Blobs.checksum_mismatch = refl
  push_error_status-failing true Blobs.disk_failed = refl
  push_error_status-failing false Blobs.disk_failed = refl

  push_body-failing :
      (e : Env) (hash checksum : Bytes) (body : Reader) (x : World v)
      → ltb (reader_limit v) (length body.content) ≡ true
      → failing (push_body v e hash checksum body x empty_response).1 ≡ true
  unfolding push_body
  push_body-failing e hash checksum body x h =
      let cut = take (reader_limit v) body.content in
      let (f, q) = put_upload-broken e hash checksum cut x in
      let status = push_error_status v (true && e.disk.temp) (payload (Payloads.blob f)) in
      ground (
        arith,
        push_error_status-failing (true && e.disk.temp) f,
        refuse-status v (payload (Payloads.blob f)) status empty_response refl,
        error-status (codes "payload exceeds direct upload limit") 413 empty_response refl,
      )

  reader_limit-below :
      (m : ℕ) → v.upload_direct_max_bytes ≡ pos m → m + 1 < 2 ^ 63 → reader_limit v ≡ m + 1
  reader_limit-below m k h = ground (arith, add64-pos m 1 h)

  -- For a limit of m bytes, with m + 1 below 2^63, a direct push that is not answered with an
  -- error has a body of at most m + 1 bytes.
  pub direct_push-bounded :
      (r : Request) (e : Env) (x y : World v) (a : Response) (m : ℕ)
      → v.upload_direct_max_bytes ≡ pos m
      → m + 1 < 2 ^ 63
      → direct_push v r e x empty_response ≡ (y, a)
      → failing a ≡ false
      → length r.body.content ≤ m + 1
  unfolding direct_push checked
  direct_push-bounded r e x y a m k h d c =
      elim (Checked-cases (query_payload_identity r empty_response)) [
        | inl (b, q) ↦ absurd (ground (arith, query_payload_identity-checked r empty_response refl))
        | inr ((hash, checksum), q) ↦
            elim (Bool-cases (ltb (reader_limit v) (length r.body.content))) [
              | inl g ↦ absurd (
                  ground (
                    arith,
                    push_body-failing e hash checksum r.body x g,
                    error-status (codes "payload exceeds direct upload limit") 413 empty_response
                        refl,
                  ))
              | inr g ↦ ground (arith, reader_limit-below m k h)
            ]
      ]
