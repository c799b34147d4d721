-- ===== src/ByteRange.antt =====
-- internal/httpapi/range.go: the Range header and the two responses from a payload in memory.
pub mod Bounds
pub mod Slices
pub mod Requests
use vaps.Base.{
  ℕ, suc, ◌-◌, Bool, ◌||◌, not, Option, none, some, List, [], ◌∷◌, ◌++◌, length, take, drop,
  if◌then◌else◌,
}
use vaps.Text.{Bytes, codes, trim_space, has_prefix, trim_prefix, contains, split_once}
use vaps.Int64.{ℤ, pos, negsuc, pos_part, lt_ℤ, le_ℤ, add64, sub64, parse_int, format_int}
use vaps.Http.{Response, set_header, write_header, write}

pub record ByteRange : Type 0 where
  pub start : ℤ
  pub end : ℤ

pub data RangeError : Type 0 where
  unsupported_unit multipart invalid not_satisfiable : RangeError

pub data Parsed : Type 0 where
  ok : ByteRange → Parsed
  err : RangeError → Parsed

abbrev last_byte : ℤ → ℤ
last_byte size = sub64 size (pos 1)

-- `bytes=-n`: the last n bytes
unfoldable pub parse_suffix : Option ℤ → ℤ → Parsed
parse_suffix none size = err invalid
parse_suffix (some suffix) size =
    if le_ℤ suffix (pos 0)
    then err invalid
    else let suffix' = if lt_ℤ size suffix then size else suffix in
      ok (record { start = sub64 size suffix'; end = last_byte size })

-- `bytes=a-`
unfoldable pub parse_open : ℤ → ℤ → Parsed
parse_open start size =
    if le_ℤ size start
    then err not_satisfiable
    else ok (record { start = start; end = last_byte size })

-- `bytes=a-b`
unfoldable pub parse_closed : ℤ → Option ℤ → ℤ → Parsed
parse_closed start none size = err invalid
parse_closed start (some end) size =
    if lt_ℤ end start
    then err invalid
    else if le_ℤ size start
    then err not_satisfiable
    else let end' = if le_ℤ size end then last_byte size else end in
      ok (record { start = start; end = end' })

unfoldable pub parse_from : Option ℤ → Bytes → ℤ → Parsed
unfolding parse_open parse_closed
parse_from none last size = err invalid
parse_from (some start) last size = if lt_ℤ start (pos 0) then err invalid else elim last [
  | [] ↦ parse_open start size
  | c ∷ s ↦ parse_closed start (parse_int (c ∷ s)) size
]

unfoldable pub parse_spec : Bytes × Option Bytes → ℤ → Parsed
unfolding parse_suffix parse_from
parse_spec (first, none) size = err invalid
parse_spec (first, some last) size = elim first [
  | [] ↦ parse_suffix (parse_int last) size
  | c ∷ s ↦ parse_from (parse_int (c ∷ s)) last size
]

-- parseSingleRangeHeader
unfoldable pub parse_single_range_header : Bytes → ℤ → Parsed
unfolding parse_spec
parse_single_range_header header size =
    let value = trim_space header in
    let spec = trim_prefix value (codes "bytes=") in
    if not (has_prefix value (codes "bytes="))
    then err unsupported_unit
    else if contains spec (codes ",")
    then err multipart
    else parse_spec (split_once b'-' spec) size

-- func (r byteRange) length()
unfoldable pub range_length : ByteRange → ℤ
range_length r = add64 (sub64 r.end r.start) (pos 1)

-- s[a:b]; `none` is the run-time panic of indices out of range.
unfoldable pub slice {ℓ} : {A : Type ℓ} → List A → ℤ → ℤ → Option (List A)
slice s a b =
    if lt_ℤ a (pos 0) || lt_ℤ b a || lt_ℤ (pos (length s)) b
    then none
    else some (take (pos_part b - pos_part a) (drop (pos_part a) s))

unfoldable pub content_range : ByteRange → ℤ → Bytes
content_range r size =
    codes "bytes "
    ++ format_int r.start
    ++ codes "-"
    ++ format_int r.end
    ++ codes "/"
    ++ format_int size

-- writeRangeResponse, before the body
unfoldable pub range_head : Response → ℤ → ByteRange → Response
unfolding content_range range_length set_header write_header
range_head w size parsed =
    let w1 = set_header (codes "Accept-Ranges") (codes "bytes") w in
    let w2 = set_header (codes "Content-Range") (content_range parsed size) w1 in
    let w3 = set_header (codes "Content-Length") (format_int (range_length parsed)) w2 in
    write_header 206 w3

-- writeRangeResponse
unfoldable pub write_range_response : Response → Bytes → ℤ → ByteRange → Option Response
unfolding range_head slice write
write_range_response w payload size parsed =
    elim (slice payload parsed.start (add64 parsed.end (pos 1))) [
      | none ↦ none
      | some part ↦ some (write part (range_head w size parsed))
    ]

-- writeFullPayload
unfoldable pub write_full_payload : Response → Bytes → ℤ → Response
unfolding set_header write_header write
write_full_payload w payload size =
    let w1 = set_header (codes "Accept-Ranges") (codes "bytes") w in
    let w2 = set_header (codes "Content-Length") (format_int size) w1 in
    write payload (write_header 200 w2)
