-- ===== src/Requests.antt =====
-- What the handlers read of a request, and the helpers of internal/httpapi/handler.go and
-- internal/httpapi/auth_helpers.go on requests. The keys of headers are in their canonical form.
use vaps.Base.{
  ℕ, Bool, false, ◌&&◌, ◌||◌, not, Option, none, some, List, [], ◌∷◌, ◌++◌, if◌then◌else◌,
}
use vaps.Text.{Bytes, same, codes, trim_space, is_space, to_lower}
use vaps.Int64.{ℤ}
use vaps.Dict.{Dict, lookup}
use vaps.Http.{Response, error, set_header, write_header, write}
use vaps.Uploads.{Reader}
use vaps.Blobs.{valid_hash, checksum_valid}

pub data Method : Type 0 where
  get head post patch delete options other_method : Method

pub record Request : Type 0 where
  pub method : Method
  pub path : Bytes
  pub headers : Dict Bytes
  pub query : Dict Bytes
  pub content_length : ℤ
  pub body : Reader

-- A check that either writes the answer to the request or goes on.
pub data Checked {ℓ} (A : Type ℓ) : Type ℓ where
  refused : Response → Checked A
  accepted : A → Checked A

abbrev pub or_empty : Option Bytes → Bytes
or_empty none = []
or_empty (some t) = t

-- strings.TrimSpace(r.Header.Get(k))
unfoldable pub header : Bytes → Request → Bytes
unfolding lookup
header k r = trim_space (or_empty (lookup k r.headers))

-- r.URL.Query().Get(k)
unfoldable pub query_value : Bytes → Request → Bytes
unfolding lookup
query_value k r = or_empty (lookup k r.query)

-- queryHash
unfoldable pub query_hash : Request → Response → Checked Bytes
query_hash r w =
    let hash = query_value (codes "iohash") r in
    if valid_hash hash then accepted hash else refused (error (codes "invalid iohash") 400 w)

-- queryPayloadIdentity
unfoldable pub query_payload_identity : Request → Response → Checked (Bytes × Bytes)
unfolding query_hash
query_payload_identity r w = elim (query_hash r w) [
  | refused answer ↦ refused answer
  | accepted hash ↦
      let checksum = trim_space (query_value (codes "checksum") r) in
      if checksum_valid checksum
      then accepted (hash, checksum)
      else refused (error (codes "invalid checksum") 400 w)
]

-- writeJSON, with the encoded value given
unfoldable pub write_json : ℕ → Bytes → Response → Response
write_json status encoded w =
    write encoded
      (write_header status (set_header (codes "Content-Type") (codes "application/json") w))

-- strings.Fields on ASCII, with the word read so far
unfoldable pub fields_from : Bytes → Bytes → List Bytes
unfolding is_space
fields_from word [] = if same word [] then [] else word ∷ []
fields_from word (c ∷ s) =
    let rest = fields_from [] s in
    let longer = fields_from (word ++ (c ∷ [])) s in
    if is_space c then (if same word [] then rest else word ∷ rest) else longer

unfoldable pub fields : Bytes → List Bytes
unfolding fields_from
fields = fields_from []

-- The two words of an Authorization header; strings.EqualFold on ASCII.
unfoldable pub bearer_of : List Bytes → Bytes
bearer_of (scheme ∷ token ∷ []) = if same (to_lower scheme) (codes "bearer") then token else []
bearer_of _ = []

-- bearerToken
unfoldable pub bearer_token : Request → Bytes
unfolding bearer_of fields header
bearer_token r = bearer_of (fields (header (codes "Authorization") r))

abbrev push_path : Bytes
push_path = codes "/v2/payload/push"

-- The `switch` that ends isTusRequest.
unfoldable pub is_tus_method : Request → Bool
is_tus_method r = elim r.method [
  | patch ↦ same r.path push_path
  | delete ↦ same r.path push_path
  | head ↦ same r.path push_path && not (same (query_value (codes "upload_id") r) [])
  | options ↦ same r.path push_path
  | get ↦ false
  | post ↦ false
  | other_method ↦ false
]

-- isTusRequest
unfoldable pub is_tus_request : Request → Bool
unfolding is_tus_method
is_tus_request r =
    not (same (header (codes "Tus-Resumable") r) [])
    || not (same (header (codes "Upload-Length") r) [])
    || not (same (header (codes "Upload-Concat") r) [])
    || not (same (trim_space (query_value (codes "upload_id") r)) [])
    || is_tus_method r
