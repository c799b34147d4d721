-- ===== src/Push/Answers.antt =====
-- Every push gets an answer.
use vaps.Base.{ℕ, ◌≡◌, Bool, is_some, Option, none, some}
use vaps.Http.Statuses.{status_rules, error-status}
use vaps.Text.{Bytes}
use vaps.Int64.{ℤ}
use vaps.Http.{Response}
use vaps.Requests.{write_json}
use vaps.Uploads.{Session}
use vaps.Push.{Error, Services, set_tus_headers, write_upload_error, upload_error_status}
use vaps.Push.Handlers.{refuse, write_tus_created, head_answer}
use vaps.Push.Patches.{patch_answer, push_options}

-- The response has a status.
abbrev pub answered : Response → Bool
answered w = is_some w.status

-- Each way of writing an answer, on a response that has no status yet.
pub write_json-status :
    (s : ℕ) (m : Bytes) (w : Response) → w.status ≡ none → (write_json s m w).status ≡ some s
unfolding write_json
write_json-status s m w h = search status_rules

pub set_tus_headers-kept :
    (f : ℤ → Bytes) (t : ℤ) (o : Option ℕ) (w : Response)
    → w.status ≡ o
    → (set_tus_headers f t w).status ≡ o
unfolding set_tus_headers
set_tus_headers-kept f t o w h = search status_rules

ruleset header_rules = (status_rules, set_tus_headers-kept)

module _ (v : Services) where
  pub refuse-status :
      (f : Error) (c : ℕ) (w : Response) → w.status ≡ none → (refuse v f c w).status ≡ some c
  unfolding refuse
  refuse-status f c w h = search error-status

  pub write_tus_created-status :
      (s : Session) (offset : ℤ) (w : Response)
      → w.status ≡ none
      → (write_tus_created v s offset w).status ≡ some 201
  unfolding write_tus_created
  write_tus_created-status s offset w h = search header_rules depth 9

  pub head_answer-status :
      (s : Session) (w : Response) → w.status ≡ none → (head_answer v s w).status ≡ some 200
  unfolding head_answer
  head_answer-status s w h = search header_rules depth 9

  pub patch_answer-status :
      (s : Session) (w : Response) → w.status ≡ none → (patch_answer v s w).status ≡ some 204
  unfolding patch_answer
  patch_answer-status s w h = search header_rules depth 9

  pub push_options-status : (w : Response) → w.status ≡ none → (push_options v w).status ≡ some 204
  unfolding push_options
  push_options-status w h = search header_rules depth 9

  pub write_upload_error-status :
      (f : Error) (w : Response)
      → w.status ≡ none
      → (write_upload_error v.error_text f w).status ≡ some (upload_error_status f)
  unfolding write_upload_error
  write_upload_error-status f w h = search error-status
