-- ===== src/Pull.antt =====
-- internal/httpapi/payload_pull.go: the answer to a pull of a payload that the memory cache has.
pub mod Opening
pub mod Opened
pub mod Pushed
pub mod Ranges
pub mod Handlers
pub mod Answers
use vaps.Base.{ℕ, Option, none, some, List, [], ◌∷◌, ◌++◌, length, if◌then◌else◌}
use vaps.Text.{Bytes, same, codes}
use vaps.Int64.{ℤ, pos, format_int}
use vaps.Http.{Response, set_header, write_header, error}
use vaps.ByteRange.{
  RangeError, unsupported_unit, multipart, invalid, not_satisfiable, parse_single_range_header,
  write_range_response, write_full_payload, ok, err,
}

-- setPayloadHeaders
unfoldable pub set_payload_headers : Bytes → ℤ → Response → Response
unfolding set_header
set_payload_headers hash size w =
    let w1 = set_header (codes "ETag") (codes "\"" ++ hash ++ codes "\"") w in
    let w2 = set_header (codes "Content-Length") (format_int size) w1 in
    set_header (codes "Content-Type") (codes "application/octet-stream") w2

-- err.Error()
abbrev pub range_message : RangeError → Bytes
range_message unsupported_unit = codes "unsupported range unit"
range_message multipart = codes "multipart ranges are not supported"
range_message invalid = codes "invalid range"
range_message not_satisfiable = codes "range not satisfiable"

-- The branches of getPullPayload for a Range header that the parser refuses.
unfoldable pub refuse_range : RangeError → ℤ → Response → Response
unfolding set_header write_header error
refuse_range unsupported_unit size w = error (range_message unsupported_unit) 400 w
refuse_range multipart size w = error (range_message multipart) 400 w
refuse_range invalid size w = error (range_message invalid) 400 w
refuse_range not_satisfiable size w =
    write_header 416 (set_header (codes "Content-Range") (codes "bytes */" ++ format_int size) w)

-- The part of getPullPayload behind setPayloadHeaders, for a payload in memory; none is a panic of
-- the slice.
unfoldable pub answer_cached : Bytes → Bytes → Response → Option Response
answer_cached range_header payload w =
    let size = pos (length payload) in
    if same range_header []
    then some (write_full_payload w payload size)
    else elim (parse_single_range_header range_header size) [
      | err e ↦ some (refuse_range e size w)
      | ok r ↦ write_range_response w payload size r
    ]

-- getPullPayload behind a hit of the memory cache.
unfoldable pub respond_cached : Bytes → Bytes → Bytes → Response → Option Response
respond_cached hash range_header payload w =
    answer_cached range_header payload (set_payload_headers hash (pos (length payload)) w)
