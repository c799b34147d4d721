-- ===== src/Recorders/Transparent.antt =====
-- The three writers over one another, as HTTPHandler of internal/httpapi/error_recorder.go puts them.
use vaps.Base.{◌≡◌, refl, ap, List}
use vaps.Http.{Response, empty_response, set_header, write_header, write}
use vaps.Recorders.{
  Writer, Call, serve, response_writer, Counting, Errors, new_counting, new_errors, counting_writer,
  errors_writer,
}
use vaps.Recorders.Faithful.{Faithful, serve-Faithful}
use vaps.Recorders.Counted.{Counted, counting-Faithful}
use vaps.Recorders.Noted.{Noted, errors-Faithful}

-- AccessLog, httpMeter and errorRecorder around the handler; the last one is the next to it.
abbrev pub stack : Writer (Errors (Counting (Counting Response)))
stack = errors_writer (counting_writer (counting_writer response_writer))

abbrev pub new_stack : Errors (Counting (Counting Response))
new_stack = new_errors (new_counting (new_counting empty_response))

-- The same without httpMeter.
abbrev pub plain : Writer (Errors (Counting Response))
plain = errors_writer (counting_writer response_writer)

abbrev pub new_plain : Errors (Counting Response)
new_plain = new_errors (new_counting empty_response)

abbrev pub Same : Response → Response → Type 0
Same w x = w ≡ x

response-Faithful : Faithful response_writer Same
response-Faithful = record {
  header = λ k v w x h. ap (set_header k v) h;
  status = λ s w x h. ap (write_header s) h;
  content = λ b w x h. ap (write b) h;
}

new_counting-Counted :
    {W : Type 0} (R : W → Response → Type 0) (w : W)
    → R w empty_response
    → Counted R (new_counting w) empty_response
new_counting-Counted R w h = record {
  inside = h;
  status_recorded = refl;
  bytes_recorded = λ l. refl;
  header_seen = refl;
}

new_errors-Noted :
    {W : Type 0} (R : W → Response → Type 0) (w : W)
    → R w empty_response
    → Noted R (new_errors w) empty_response
new_errors-Noted R w h = record {
  inside = h;
  status_recorded = refl;
  body_recorded = refl;
  header_seen = refl;
  no_early_body = λ h. refl;
}

counting_once : Faithful (counting_writer response_writer) (Counted Same)
counting_once = counting-Faithful response_writer Same response-Faithful

-- Whatever a handler does: with httpMeter, and without it.
pub serve-stack-Noted :
    (cs : List Call)
    → Noted
        (Counted (Counted Same))
        (serve stack cs new_stack)
        (serve response_writer cs empty_response)
serve-stack-Noted cs =
    serve-Faithful stack (Noted (Counted (Counted Same)))
      (errors-Faithful (counting_writer (counting_writer response_writer)) (Counted (Counted Same))
        (counting-Faithful (counting_writer response_writer) (Counted Same) counting_once))
      cs new_stack empty_response
      (new_errors-Noted (Counted (Counted Same)) (new_counting (new_counting empty_response)) (
        new_counting-Counted (Counted Same) (new_counting empty_response)
          (new_counting-Counted Same empty_response refl)))

pub serve-plain-Noted :
    (cs : List Call)
    → Noted (Counted Same) (serve plain cs new_plain) (serve response_writer cs empty_response)
serve-plain-Noted cs =
    serve-Faithful plain (Noted (Counted Same))
      (errors-Faithful (counting_writer response_writer) (Counted Same) counting_once) cs new_plain
      empty_response
      (new_errors-Noted (Counted Same) (new_counting empty_response)
        (new_counting-Counted Same empty_response refl))
