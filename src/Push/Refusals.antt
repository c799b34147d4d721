-- ===== src/Push/Refusals.antt =====
-- The refusals of pushes answer with an error.
use vaps.Base.{
  ℕ, ◌≡◌, refl, Bool, true, false, is_some, Option, none, some, arith, Option-cases, inl, inr, ◌⊎◌,
  leb, if◌then◌else◌,
}
use vaps.Text.{Bytes, codes, trim_space}
use vaps.Int64.{parse_int}
use vaps.Http.{Response, error}
use vaps.Http.Statuses.{error-status}
use vaps.Requests.{
  Request, Checked, refused, accepted, query_hash, query_payload_identity, query_value, header,
}
use vaps.Uploads
use vaps.Uploads.{Session, Reader, regular, partial}
use vaps.Uploads.Store.{get_session}
use vaps.Push.{
  Error, Result, ok, err, Services, World, body_failed, close_failed, payload, text,
  unsupported_algorithm, upload_error_status, upload, write_upload_error,
}
use vaps.Push.Handlers.{refuse, check_upload_checksum, find_session}
use vaps.Push.Patches.{Patch, patch_request, check_patch}
use vaps.Push.Answers.{refuse-status, write_upload_error-status}

-- The response has a status.
abbrev pub answered : Response → Bool
answered w = is_some w.status

-- The status is that of an error.
abbrev pub failing : Response → Bool
failing w = elim w.status [ none ↦ false | some s ↦ leb 400 s ]

-- A refusal answers with an error.
unfoldable pub checked : {A : Type 0} → Checked A → Bool
checked (refused a) = failing a
checked (accepted p) = true

pub Checked-cases :
    {A : Type 0} (c : Checked A) → ((a : Response) × (c ≡ refused a)) ⊎ ((p : A) × (c ≡ accepted p))
Checked-cases (refused a) = inl (a, refl)
Checked-cases (accepted p) = inr (p, refl)

pub upload-cases :
    {A : Type 0} (r : Uploads.Result A)
    → ((e : Uploads.Error) × (r ≡ Uploads.err e)) ⊎ ((a : A) × (r ≡ Uploads.ok a))
upload-cases (Uploads.err e) = inl (e, refl)
upload-cases (Uploads.ok a) = inr (a, refl)

pub push-cases : {A : Type 0} (r : Result A) → ((e : Error) × (r ≡ err e)) ⊎ ((a : A) × (r ≡ ok a))
push-cases (err e) = inl (e, refl)
push-cases (ok a) = inr (a, refl)

pub is_answered : (s : ℕ) (o : Option ℕ) → o ≡ some s → is_some o ≡ true
is_answered s o h = ground arith

pub both :
    (c : Bool) (w x : Response)
    → answered w ≡ true
    → answered x ≡ true
    → answered (if c then w else x) ≡ true
both true w x h k = h
both false w x h k = k

pub error-answered :
    (m : Bytes) (c : ℕ) (w : Response) → w.status ≡ none → answered (error m c w) ≡ true
error-answered m c w h = is_answered c _ (error-status m c w h)

pub error-failing :
    (m : Bytes) (c : ℕ) (w : Response)
    → w.status ≡ none
    → leb 400 c ≡ true
    → failing (error m c w) ≡ true
error-failing m c w h k = ground (arith, error-status m c w h)

pub query_payload_identity-checked :
    (r : Request) (w : Response) → w.status ≡ none → checked (query_payload_identity r w) ≡ true
unfolding query_payload_identity query_hash checked
query_payload_identity-checked r w h = ground (
  arith,
  error-failing (codes "invalid iohash") 400 w h refl,
  error-failing (codes "invalid checksum") 400 w h refl,
)

pub upload_error_status-failing : (f : Error) → leb 400 (upload_error_status f) ≡ true
unfolding upload_error_status
upload_error_status-failing (upload Uploads.not_found) = refl
upload_error_status-failing (upload Uploads.expired) = refl
upload_error_status-failing (upload Uploads.terminated) = refl
upload_error_status-failing (upload Uploads.offset_mismatch) = refl
upload_error_status-failing (upload Uploads.completed) = refl
upload_error_status-failing (upload Uploads.invalid_state) = refl
upload_error_status-failing (upload Uploads.not_partial) = refl
upload_error_status-failing (upload Uploads.incomplete) = refl
upload_error_status-failing (upload Uploads.identity_mismatch) = refl
upload_error_status-failing (upload Uploads.io) = refl
upload_error_status-failing (payload f) = refl
upload_error_status-failing (text t) = refl
upload_error_status-failing (unsupported_algorithm a) = refl
upload_error_status-failing body_failed = refl
upload_error_status-failing close_failed = refl

module _ (v : Services) where
  pub upload_error-answered :
      (f : Error) (w : Response)
      → w.status ≡ none
      → answered (write_upload_error v.error_text f w) ≡ true
  upload_error-answered f w h = is_answered _ _ (write_upload_error-status v f w h)

  pub refuse-answered :
      (f : Error) (c : ℕ) (w : Response) → w.status ≡ none → answered (refuse v f c w) ≡ true
  refuse-answered f c w h = is_answered _ _ (refuse-status v f c w h)

  pub refuse-failing :
      (f : Error) (c : ℕ) (w : Response)
      → w.status ≡ none
      → leb 400 c ≡ true
      → failing (refuse v f c w) ≡ true
  refuse-failing f c w h k = ground (arith, refuse-status v f c w h)

  pub upload_error-failing :
      (f : Error) (w : Response)
      → w.status ≡ none
      → failing (write_upload_error v.error_text f w) ≡ true
  upload_error-failing f w h =
      ground (arith, write_upload_error-status v f w h, upload_error_status-failing f)

  pub find_session-checked :
      (r : Request) (now : ℕ) (x : World v) (w : Response)
      → w.status ≡ none
      → checked (find_session v r now x w) ≡ true
  unfolding find_session checked
  find_session-checked r now x w h = elim (Checked-cases (query_payload_identity r w)) [
    | inl (a, q) ↦ ground (arith, query_payload_identity-checked r w h)
    | inr ((hash, checksum), q) ↦
        elim (upload-cases (
          get_session v.sessions v.temp_dir v.expiration
            (trim_space (query_value (codes "upload_id") r)) now x.uploads)) [
              | inl (f, g) ↦ ground (
                arith,
                upload_error-failing (upload f) w h,
                error-failing (codes "upload_id is required") 400 w h refl,
              )
              | inr (s, g) ↦ ground (
                arith,
                error-failing (codes "upload_id is required") 400 w h refl,
                error-failing (codes "upload identity does not match upload session") 400 w h refl,
              )
            ]
  ]

  pub patch_request-checked :
      (r : Request) (w : Response) → w.status ≡ none → checked (patch_request v r w) ≡ true
  unfolding patch_request checked
  patch_request-checked r w h =
      let no_id = error-failing (codes "upload_id is required") 400 w h refl in
      let missing = error-failing (codes "missing Tus-Resumable header") 400 w h refl in
      let invalid = error-failing (codes "invalid Upload-Offset") 400 w h refl in
      elim (Checked-cases (query_payload_identity r w)) [
        | inl (a, q) ↦ ground (arith, query_payload_identity-checked r w h)
        | inr ((hash, checksum), q) ↦
            elim (Option-cases (parse_int (header (codes "Upload-Offset") r))) [
              | inl g ↦ ground (arith, no_id, missing, invalid)
              | inr (n, g) ↦ ground (arith, no_id, missing, invalid)
            ]
      ]

  pub check_patch-failing :
      (r : Request) (p : Patch) (now : ℕ) (x : World v) (w a : Response)
      → w.status ≡ none
      → check_patch v r p now x w ≡ some a
      → failing a ≡ true
  unfolding check_patch
  check_patch-failing r p now x w a h k =
      let other_hash = error-failing (codes "iohash does not match upload session") 400 w h refl in
      let other_checksum =
        error-failing (codes "checksum does not match upload session") 400 w h refl in
      let broken = refuse-failing body_failed 500 w h refl in
      elim (upload-cases
        (get_session v.sessions v.temp_dir v.expiration p.upload_id now x.uploads)) [
          | inl (f, q) ↦ ground (arith, upload_error-failing (upload f) w h)
          | inr (s, q) ↦ elim (Option-cases (check_upload_checksum v r r.body.content)) [
            | inl g ↦ ground (arith, other_hash, other_checksum, broken)
            | inr (f, g) ↦
                ground (arith, other_hash, other_checksum, broken, refuse-failing f 400 w h refl)
          ]
        ]
