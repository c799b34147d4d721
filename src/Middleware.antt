-- ===== src/Middleware.antt =====
-- What stands around the router, HTTPHandler of internal/httpapi/error_recorder.go: requestSources of
-- source.go, AccessLog of handler.go, httpMeter of http_meter.go and errorRecorder of error_recorder.go,
-- for a handler that NewV2 has built. The router is known by the calls that it makes on its response
-- writer. The recording of one request is one step; Meter/Reached has the interleavings.
pub mod Observed
use vaps.Base.{
  ℕ, Bool, true, false, ◌&&◌, ◌||◌, not, Option, none, some, List, [], leb, if◌then◌else◌,
}
use vaps.Text.{Bytes, same, codes, trim_space, trim_prefix, has_prefix, to_lower}
use vaps.Int64.{ℤ, pos, lt_ℤ}
use vaps.Bucket.{Bucket}
use vaps.Http.{Response, empty_response}
use vaps.Requests.{Request, bearer_token}
use vaps.Meter.{Meter, Sample, begin, finish}
use vaps.Reqlog
use vaps.Reqlog.{add_record}
use vaps.Sources
use vaps.Sources.{Token, trim_bracket, lookup_by_hash, observe}
use vaps.Recorders.{
  Call, serve, response_writer, Counting, Errors, new_counting, new_errors, counting_writer,
  errors_writer,
}

-- requestSource
pub record Source : Type 0 where
  pub token_hash : Bytes
  pub client_id : Bytes

-- What the request says of its sender.
pub record Peer : Type 0 where
  pub remote_addr : Bytes
  pub user_agent : Bytes
  pub method_name : Bytes

-- A line of the access log: what it says of the response.
pub record AccessLine : Type 0 where
  pub status : ℕ
  pub bytes : ℤ
  pub level : Bytes

-- isMonitoredErrorPath
unfoldable pub is_monitored_error_path : Bytes → Bool
unfolding has_prefix
is_monitored_error_path path =
    let path = trim_space path in
    same path (codes "/health")
    || has_prefix path (codes "/dashboard")
    || has_prefix path (codes "/v2/")

-- isDashboardErrorPath
unfoldable pub is_dashboard_error_path : Bytes → Bool
unfolding has_prefix
is_dashboard_error_path path = has_prefix (trim_space path) (codes "/dashboard")

-- accessLogLevel
unfoldable pub access_log_level : ℕ → Bytes
access_log_level status =
    if leb 500 status
    then codes "error"
    else if leb 400 status
    then codes "warning"
    else codes "verbose"

-- The part of AccessLog behind the handler; none: no line is written.
unfoldable pub access_line : {W : Type 0} → Counting W → Option AccessLine
unfolding access_log_level
access_line w =
    let level = access_log_level w.status in
    if same level (codes "verbose")
    then none
    else some (record { status = w.status; bytes = w.bytes; level = level })

-- The sample that httpMeter takes.
unfoldable pub sample_of : {W : Type 0} → Request → ℤ → Counting W → Sample
sample_of r duration w = record {
  status = pos w.status;
  duration = duration;
  bytes_in = if lt_ℤ (pos 0) r.content_length then r.content_length else pos 0;
  bytes_out = w.bytes;
}

-- The state that the recording changes.
pub record Server (Db : Type 0) : Type 0 where
  pub meter : Meter
  pub reqlog : Reqlog.Store
  pub auth : Sources.Store Db

-- `is_loopback` is net.ParseIP with IsLoopback, `split_host_port` the host of net.SplitHostPort.
module _ (is_loopback : Bytes → Bool) (split_host_port : Bytes → Option Bytes) where
  -- NormalizeClientIP
  unfoldable pub normalize_ip : Bytes → Bytes
  unfolding trim_bracket
  normalize_ip ip =
      let plain = trim_bracket (trim_prefix (trim_space ip) (codes "[")) in
      let lower = to_lower plain in
      if same plain []
      then []
      else if is_loopback plain
      then codes "localhost"
      else if same lower (codes "localhost")
          || same lower (codes "::1")
          || same lower (codes "127.0.0.1")
      then codes "localhost"
      else plain

  -- clientIP
  unfoldable pub client_ip : Peer → Bytes
  unfolding normalize_ip
  client_ip p = elim (split_host_port p.remote_addr) [
    | none ↦ normalize_ip p.remote_addr
    | some host ↦ normalize_ip host
  ]

  -- recordRequestError
  unfoldable pub record_request_error :
      ℕ → Request → Peer → Source → ℕ → Bytes → Reqlog.Store → Reqlog.Store
  unfolding add_record client_ip
  record_request_error now r p source status message = add_record now (record {
    id = 0;
    at = some now;
    method = p.method_name;
    path = r.path;
    status = pos status;
    message = trim_space message;
    remote_ip = client_ip p;
    user_agent = p.user_agent;
    token_hash = source.token_hash;
    client_id = source.client_id;
  })

  -- The part of errorRecorder behind the handler.
  unfoldable pub record_error :
      {W : Type 0} → ℕ → Request → Peer → Source → Errors W → Reqlog.Store → Reqlog.Store
  record_error now r p source w log =
      let recorded = record_request_error now r p source w.status w.body log in
      if leb 400 w.status && is_monitored_error_path r.path then recorded else log

  module _ (b : Bucket Token) (hash_token : Bytes → Bytes) (zero_time : ℤ) (has_auth : Bool) where
    open b use {Db}

    abbrev client_of : Sources.Result Token → Bytes
    client_of (Sources.err e) = []
    client_of (Sources.ok t) = t.client_id

    -- requestSources
    unfoldable pub request_source :
        ℕ → Request → Peer → Sources.Store Db → Sources.Store Db × Source
    request_source now r p s =
        let token = bearer_token r in
        let hash = hash_token token in
        let (seen, observed) =
          observe b hash_token zero_time (pos now) hash (client_ip p) p.user_agent s in
        let looked_up = lookup_by_hash b hash_token zero_time hash s in
        if same token []
        then (s, record { token_hash = []; client_id = [] })
        else if not has_auth
        then (s, record { token_hash = hash; client_id = [] })
        else if is_dashboard_error_path r.path
        then (s, record { token_hash = hash; client_id = client_of looked_up })
        else (seen, record { token_hash = hash; client_id = client_of observed })

    -- HTTPHandler, for a router that makes the calls `cs`.
    unfoldable pub http_handler :
        ℕ → ℤ → Request → Peer → List Call → Server Db → Server Db × Response × Option AccessLine
    http_handler now duration r p cs s =
        let (auth, source) = request_source now r p s.auth in
        let plain =
          serve (errors_writer (counting_writer response_writer)) cs
            (new_errors (new_counting empty_response)) in
        let metered =
          serve (errors_writer (counting_writer (counting_writer response_writer))) cs
            (new_errors (new_counting (new_counting empty_response))) in
        if is_dashboard_error_path r.path
        then (
          record s { auth = auth; reqlog = record_error now r p source plain s.reqlog },
          plain.inner.inner,
          access_line plain.inner,
        )
        else (
          record {
            auth = auth;
            reqlog = record_error now r p source metered s.reqlog;
            meter = finish now (sample_of r duration metered.inner) (begin s.meter);
          },
          metered.inner.inner.inner,
          access_line metered.inner.inner,
        )
