-- ===== src/Vcs.antt =====
-- internal/metadata/vcs.go: what version control says of payloads, in a bucket of the database, and its
-- handlers in internal/httpapi/metadata_v2.go. Times are nanoseconds.
pub mod Stored
use vaps.Base.{
  ℕ, Bool, true, false, ◌||◌, not, Option, none, some, List, [], ◌∷◌, ◌++◌, length, ltb,
  if◌then◌else◌, map, select,
}
use vaps.Text.{Bytes, same, codes, trim_space, to_lower, has_prefix}
use vaps.Dict.{Dict}
use vaps.Bucket.{Bucket}
use vaps.Http.{Response, error}
use vaps.Requests.{
  Request, Method, get, post, head, patch, delete, options, other_method, query_value, write_json,
}
use vaps.Blobs.{valid_hash}

pub record VcsRecord : Type 0 where
  pub key : Bytes
  pub payload_hash : Bytes
  pub vcs_type : Bytes
  pub repo : Bytes
  pub revision : Bytes
  pub path : Bytes
  pub asset_id : Bytes
  pub metadata : Option (Dict Bytes)
  pub reported_at : ℕ
  pub remote_ip : Bytes

-- vcsMetadataRequest
pub record VcsRequest : Type 0 where
  pub payload_hash : Bytes
  pub vcs_type : Bytes
  pub repo : Bytes
  pub revision : Bytes
  pub path : Bytes
  pub asset_id : Bytes
  pub metadata : Option (Dict Bytes)

-- vcsKey
unfoldable pub vcs_key : VcsRecord → Bytes
vcs_key r =
    r.payload_hash
    ++ (codes "|"
        ++ to_lower r.vcs_type
        ++ codes "|"
        ++ r.repo
        ++ codes "|"
        ++ r.revision
        ++ codes "|"
        ++ r.path)

-- The texts of a request without the spaces around them.
unfoldable pub trimmed : VcsRequest → VcsRequest
trimmed q = record {
  payload_hash = to_lower (trim_space q.payload_hash);
  vcs_type = trim_space q.vcs_type;
  repo = trim_space q.repo;
  revision = trim_space q.revision;
  path = trim_space q.path;
  asset_id = q.asset_id;
  metadata = q.metadata;
}

-- The record of a request; its key is given by PutVCSRecord.
unfoldable pub record_of : VcsRequest → ℕ → Bytes → VcsRecord
record_of q now remote_ip = record {
  key = [];
  payload_hash = q.payload_hash;
  vcs_type = q.vcs_type;
  repo = q.repo;
  revision = q.revision;
  path = q.path;
  asset_id = trim_space q.asset_id;
  metadata = q.metadata;
  reported_at = now;
  remote_ip = remote_ip;
}

module _ (b : Bucket VcsRecord) where
  open b use {Db, put, entries}

  -- PutVCSRecord; none is an error of the database.
  unfoldable pub put_vcs_record : VcsRecord → Db → Option Db
  unfolding vcs_key
  put_vcs_record r d = put (vcs_key r) (record r { key = vcs_key r }) d

  -- QueryVCSByPayloadHash; none is an error, which reading a bucket of decoded values never gives.
  unfoldable pub query_vcs_by_payload_hash : Bytes → Db → Option (List VcsRecord)
  query_vcs_by_payload_hash payload_hash d =
      let hash = to_lower (trim_space payload_hash) in
      some (map (λ e. e.1) (select (λ e. has_prefix e.0 (hash ++ codes "|")) (entries d)))

  -- CountVCSByPayloadHash
  unfoldable pub count_vcs_by_payload_hash : Bytes → Db → Option ℕ
  unfolding query_vcs_by_payload_hash
  count_vcs_by_payload_hash payload_hash d = elim (query_vcs_by_payload_hash payload_hash d) [
    | none ↦ none
    | some records ↦ some (length records)
  ]

  -- `decode` is json.Unmarshal, `render` and `render_all` encode a record and a list of them,
  -- `failure` is the text of a database error.
  module _ (has_meta : Bool) (decode : Bytes → Option VcsRequest) (render : VcsRecord → Bytes)
      (render_all : List VcsRecord → Bytes) (failure : Bytes) where
    -- postVCSMetadata behind the reading of the body
    unfoldable pub post_record : VcsRequest → ℕ → Bytes → Db → Response → Db × Response
    unfolding trimmed record_of put_vcs_record
    post_record request now remote_ip d w =
        let q = trimmed request in
        let r = record_of q now remote_ip in
        let stored = put_vcs_record r d in
        if not (valid_hash q.payload_hash)
        then (d, error (codes "invalid payload_hash") 400 w)
        else if same q.vcs_type [] || same q.repo [] || same q.revision [] || same q.path []
        then (d, error (codes "vcs_type, repo, revision, and path are required") 400 w)
        else elim stored [
          | none ↦ (d, error failure 500 w)
          | some t ↦ (t, write_json 201 (render r) w)
        ]

    -- postVCSMetadata; 65536 is maxVCSMetadataBodyBytes.
    unfoldable pub post_vcs_metadata : Request → ℕ → Bytes → Db → Response → Db × Response
    unfolding post_record
    post_vcs_metadata r now remote_ip d w =
        if not has_meta
        then (d, error (codes "metadata is not configured") 503 w)
        else if ltb 65536 (length r.body.content) || r.body.broken
        then (d, error (codes "metadata body too large") 413 w)
        else elim (decode r.body.content) [
          | none ↦ (d, error (codes "invalid json body") 400 w)
          | some request ↦ post_record request now remote_ip d w
        ]

    -- getVCSMetadata
    unfoldable pub get_vcs_metadata : Request → Db → Response → Response
    get_vcs_metadata r d w =
        let hash = to_lower (trim_space (query_value (codes "payload_hash") r)) in
        if not has_meta
        then write_json 200 (render_all []) w
        else if same hash []
        then error (codes "payload_hash is required") 400 w
        else if not (valid_hash hash)
        then error (codes "invalid payload_hash") 400 w
        else elim (query_vcs_by_payload_hash hash d) [
          | none ↦ error failure 500 w
          | some records ↦ write_json 200 (render_all records) w
        ]

    -- metadataV2
    unfoldable pub metadata_v2 : Request → ℕ → Bytes → Db → Response → Db × Response
    unfolding post_vcs_metadata get_vcs_metadata
    metadata_v2 r now remote_ip d w =
        let not_allowed : Db × Response = (d, error (codes "method not allowed") 405 w) in
        elim r.method [
          | get ↦ (d, get_vcs_metadata r d w)
          | post ↦ post_vcs_metadata r now remote_ip d w
          | head ↦ not_allowed
          | patch ↦ not_allowed
          | delete ↦ not_allowed
          | options ↦ not_allowed
          | other_method ↦ not_allowed
        ]
