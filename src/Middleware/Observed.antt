-- ===== src/Middleware/Observed.antt =====
-- What HTTPHandler answers and records, told from the response alone.
use vaps.Base.{
  ℕ, ◌<◌, ◌^◌, ◌≡◌, refl, ap, Bool, true, ◌&&◌, Option, none, some, List, length, leb,
  if◌then◌else◌, arith, Bool-cases, inl, inr,
}
use vaps.Text.{Bytes, same, codes}
use vaps.Int64.{ℤ, pos, lt_ℤ}
use vaps.Bucket.{Bucket}
use vaps.Http.{Response, empty_response}
use vaps.Requests.{Request}
use vaps.Meter.{Sample, begin, finish}
use vaps.Reqlog
use vaps.Sources.{Token}
use vaps.Recorders.{Call, serve, response_writer, Counting, Errors}
use vaps.Recorders.Faithful.{or_ok}
use vaps.Recorders.Counted.{Counted}
use vaps.Recorders.Noted.{Noted}
use vaps.Recorders.Transparent.{Same, serve-stack-Noted, serve-plain-Noted}
use vaps.Middleware.{
  Source, Peer, AccessLine, Server, is_monitored_error_path, is_dashboard_error_path,
  access_log_level, access_line, sample_of, record_request_error, record_error, request_source,
  http_handler,
}

-- The line that the access log has of a response.
abbrev pub line_of : Response → Option AccessLine
line_of x =
    let n = or_ok x.status in
    if leb 400 n
    then some (record {
      status = n;
      bytes = pos (length x.body);
      level = if leb 500 n then codes "error" else codes "warning";
    })
    else none

-- The sample that the meter takes of a response.
abbrev pub metered_of : Request → ℤ → Response → Sample
metered_of r duration x = record {
  status = pos (or_ok x.status);
  duration = duration;
  bytes_in = if lt_ℤ (pos 0) r.content_length then r.content_length else pos 0;
  bytes_out = pos (length x.body);
}

access_line-Counted :
    {W : Type 0} (R : W → Response → Type 0) (c : Counting W) (x : Response)
    → length x.body < 2 ^ 63
    → Counted R c x
    → access_line c ≡ line_of x
unfolding access_line access_log_level same
access_line-Counted R c x h k = ground (arith, k.bytes_recorded h, k.status_recorded)

sample_of-Counted :
    {W : Type 0} (R : W → Response → Type 0) (r : Request) (d : ℤ) (c : Counting W) (x : Response)
    → length x.body < 2 ^ 63
    → Counted R c x
    → sample_of r d c ≡ metered_of r d x
unfolding sample_of
sample_of-Counted R r d c x h k = rw (k.bytes_recorded h, k.status_recorded) refl

error_body :
    {W : Type 0} (R : W → Response → Type 0) (e : Errors W) (x : Response)
    → Noted R e x
    → leb 400 (or_ok x.status) ≡ true
    → e.body ≡ x.body
error_body R e x k h = ground (arith, k.body_recorded)

module _ (is_loopback : Bytes → Bool) (split_host_port : Bytes → Option Bytes) where
  abbrev pub logged : ℕ → Request → Peer → Source → Response → Reqlog.Store → Reqlog.Store
  logged now r p source x log =
      let n = or_ok x.status in
      if leb 400 n && is_monitored_error_path r.path
      then record_request_error is_loopback split_host_port now r p source n x.body log
      else log

  record_error-Noted :
      {W : Type 0} (R : W → Response → Type 0) (now : ℕ) (r : Request) (p : Peer) (source : Source)
      (e : Errors W) (x : Response) (log : Reqlog.Store)
      → Noted R e x
      → record_error is_loopback split_host_port now r p source e log ≡ logged now r p source x log
  unfolding record_error
  record_error-Noted R now r p source e x log k = elim (Bool-cases (leb 400 (or_ok x.status))) [
    | inl h ↦ rw (k.status_recorded, error_body R e x k h) refl
    | inr h ↦ rw (k.status_recorded, h) refl
  ]

  module _ (b : Bucket Token) (hash_token : Bytes → Bytes) (zero_time : ℤ) (has_auth : Bool) where
    open b use {Db}

    -- The recording `o` of a request that was answered with `x`.
    pub record Observed (now : ℕ) (duration : ℤ) (r : Request) (p : Peer) (s : Server Db)
        (x : Response) (o : Server Db × Response × Option AccessLine) : Type 0 where
      pub response : o.1 ≡ x
      pub line : o.2 ≡ line_of x
      pub sources :
          o.0.auth
          ≡ (request_source is_loopback split_host_port b hash_token zero_time has_auth now r p
              s.auth).0
      pub error_log :
          o.0.reqlog
          ≡ logged now r p
              (request_source is_loopback split_host_port b hash_token zero_time has_auth now r p
                s.auth).1
              x
              s.reqlog
      pub meter : o.0.meter ≡ (
          if is_dashboard_error_path r.path
          then s.meter
          else finish now (metered_of r duration x) (begin s.meter))

    -- Whatever calls the router makes on its response writer, the recorders around it leave the
    -- response as it is without them; the access log, the error log and the meter record what this
    -- response says: its status (200 without one), the bytes of its body (below 2^63) and, for an
    -- error on a monitored path, its text; the dashboard's requests are not metered.
    pub http_handler-Observed :
        (now : ℕ) (duration : ℤ) (r : Request) (p : Peer) (cs : List Call) (s : Server Db)
        → length (serve response_writer cs empty_response).body < 2 ^ 63
        → Observed now duration r p s (serve response_writer cs empty_response) (
            http_handler is_loopback split_host_port b hash_token zero_time has_auth now duration r
              p cs s)
    unfolding http_handler
    http_handler-Observed now duration r p cs s h =
        let x = serve response_writer cs empty_response in
        let source =
          (request_source is_loopback split_host_port b hash_token zero_time has_auth now r p
            s.auth).1 in
        let once = serve-plain-Noted cs in
        let twice = serve-stack-Noted cs in
        elim (Bool-cases (is_dashboard_error_path r.path)) [
          | inl d ↦ rw d (record {
            response = once.inside.inside;
            line = access_line-Counted Same _ x h once.inside;
            sources = refl;
            error_log = record_error-Noted (Counted Same) now r p source _ x s.reqlog once;
            meter = rw d refl;
          })
          | inr d ↦ rw d (record {
            response = twice.inside.inside.inside;
            line = access_line-Counted Same _ x h twice.inside.inside;
            sources = refl;
            error_log =
                record_error-Noted (Counted (Counted Same)) now r p source _ x s.reqlog twice;
            meter = rw d (
                ap (λ t. finish now t (begin s.meter))
                  (sample_of-Counted (Counted Same) r duration _ x h twice.inside));
          })
        ]
