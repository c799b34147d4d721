-- ===== src/Recorders.antt =====
-- The response writers that stand around a handler: accessLogResponseWriter of
-- internal/httpapi/handler.go, meterResponseWriter of internal/httpapi/http_meter.go and
-- errorRecorderResponseWriter of internal/httpapi/error_recorder.go, each over any other writer. A
-- handler is known here by the calls that it makes, in order; the connection takes every byte.
pub mod Faithful
pub mod Counted
pub mod Noted
pub mod Transparent
use vaps.Base.{ℕ, Bool, true, false, List, [], ◌∷◌, ◌++◌, length, leb, if◌then◌else◌}
use vaps.Text.{Bytes}
use vaps.Int64.{ℤ, pos, add64}
use vaps.Http.{Response, set_header, write_header, write}

-- http.ResponseWriter: a change of Header(), WriteHeader and Write.
pub record Writer (W : Type 0) : Type 0 where
  pub header : Bytes → Bytes → W → W
  pub status : ℕ → W → W
  pub content : Bytes → W → W

pub data Call : Type 0 where
  header : Bytes → Bytes → Call
  status : ℕ → Call
  content : Bytes → Call

unfoldable pub call_on : {W : Type 0} → Writer W → Call → W → W
call_on r (header k v) w = r.header k v w
call_on r (status s) w = r.status s w
call_on r (content b) w = r.content b w

-- A handler that makes these calls.
unfoldable pub serve : {W : Type 0} → Writer W → List Call → W → W
unfolding call_on
serve r [] w = w
serve r (c ∷ cs) w = serve r cs (call_on r c w)

-- The response of net/http itself.
abbrev pub response_writer : Writer Response
response_writer = record { header = set_header; status = write_header; content = write }

-- accessLogResponseWriter, and meterResponseWriter with the same fields and methods.
pub record Counting (W : Type 0) : Type 0 where
  pub inner : W
  pub status : ℕ
  pub bytes : ℤ
  pub wrote_header : Bool

-- errorRecorderResponseWriter
pub record Errors (W : Type 0) : Type 0 where
  pub inner : W
  pub status : ℕ
  pub body : Bytes
  pub wrote_header : Bool

abbrev pub new_counting : {W : Type 0} → W → Counting W
new_counting w = record { inner = w; status = 200; bytes = pos 0; wrote_header = false }

abbrev pub new_errors : {W : Type 0} → W → Errors W
new_errors w = record { inner = w; status = 200; body = []; wrote_header = false }

module _ {W : Type 0} (r : Writer W) where
  -- WriteHeader
  unfoldable pub counting_header : ℕ → Counting W → Counting W
  counting_header s w =
      if w.wrote_header
      then w
      else record w { inner = r.status s w.inner; status = s; wrote_header = true }

  -- Write
  unfoldable pub counting_write : Bytes → Counting W → Counting W
  unfolding counting_header
  counting_write b w =
      let started = if w.wrote_header then w else counting_header 200 w in
      record started {
        inner = r.content b started.inner;
        bytes = add64 started.bytes (pos (length b));
      }

  abbrev pub counting_writer : Writer (Counting W)
  counting_writer = record {
    header = λ k v w. record w { inner = r.header k v w.inner };
    status = counting_header;
    content = counting_write;
  }

  -- WriteHeader
  unfoldable pub errors_header : ℕ → Errors W → Errors W
  errors_header s w =
      if w.wrote_header
      then w
      else record w { inner = r.status s w.inner; status = s; wrote_header = true }

  -- Write
  unfoldable pub errors_write : Bytes → Errors W → Errors W
  unfolding errors_header
  errors_write b w =
      let started = if w.wrote_header then w else errors_header 200 w in
      record started {
        inner = r.content b started.inner;
        body = if leb 400 started.status then started.body ++ b else started.body;
      }

  abbrev pub errors_writer : Writer (Errors W)
  errors_writer = record {
    header = λ k v w. record w { inner = r.header k v w.inner };
    status = errors_header;
    content = errors_write;
  }
