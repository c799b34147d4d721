-- ===== src/ByteRange/Slices.antt =====
-- The bytes that a response to a range request carries.
use vaps.Base.{
  ℕ, suc, ◌-◌, ◌^◌, ◌<◌, ◌≤◌, ◌≡◌, refl, ap, ◌∙◌, ◌+◌, [], none, some, arith, length, take, drop,
  length-take, length-drop,
}
use vaps.Text.{Bytes, codes, same}
use vaps.Int64.{pos, add64, format_int}
use vaps.Int64.Laws.{sub64-pos, add64-pos}
use vaps.Http.{Response, write}
use vaps.Dict.{Dict, lookup}
use vaps.ByteRange.{ByteRange, slice, range_length, write_range_response, content_range, range_head}
use vaps.ByteRange.Bounds.{InBounds}

-- The bytes from position `first` to position `last`, both included.
abbrev pub bytes_between : ℕ → ℕ → Bytes → Bytes
bytes_between first last payload = take (suc last - first) (drop first payload)

-- A response to which only headers were added so far.
abbrev pub fresh : Dict Bytes → Response
fresh hs = record { headers = hs; status = none; body = [] }

slice-pos :
    (payload : Bytes) (a b : ℕ)
    → a ≤ b
    → b ≤ length payload
    → slice payload (pos a) (pos b) ≡ some (take (b - a) (drop a payload))
unfolding slice
slice-pos payload a b h k = ground arith

module _ (payload : Bytes) (r : ByteRange) (fits : length payload < 2 ^ 63)
    (b : InBounds (length payload) r) where
  length-bytes_between : length (bytes_between b.first b.last payload) ≡ suc b.last - b.first
  length-bytes_between =
      length-take (suc b.last - b.first) (drop b.first payload)
        (omega (arith, length-drop b.first payload))

  range_length-InBounds : range_length r ≡ pos (suc b.last - b.first)
  unfolding range_length
  range_length-InBounds =
      rw (b.start, b.end, sub64-pos b.last b.first (omega arith) b.ordered)
        (add64-pos (b.last - b.first) 1 (omega arith) ∙ ap pos (omega arith))

  slice-InBounds :
      slice payload r.start (add64 r.end (pos 1)) ≡ some (bytes_between b.first b.last payload)
  slice-InBounds =
      rw (b.start, b.end, add64-pos b.last 1 (omega arith), add_one)
        (slice-pos payload b.first (suc b.last) (omega arith) (omega arith))
    where
      add_one : b.last + 1 ≡ suc b.last
      add_one = omega arith

  -- For a range inside a payload below 2^63 bytes and a response that has only headers so far, the
  -- response gets status 206, exactly the bytes from the range's first position to its last, their
  -- number as its Content-Length, and its Content-Range; the slice never panics.
  pub write_range_response-serves :
      (hs : Dict Bytes)
      → (w : Response) × (write_range_response (fresh hs) payload (pos (length payload)) r ≡ some w)
        × (w.status ≡ some 206)
        × (w.body ≡ bytes_between b.first b.last payload)
        × (lookup (codes "Content-Length") w.headers ≡ some (format_int (pos (length w.body))))
        × (lookup (codes "Content-Range") w.headers ≡ some (content_range r (pos (length payload))))
  unfolding write_range_response lookup same
  write_range_response-serves hs = (
    write (bytes_between b.first b.last payload) (range_head (fresh hs) (pos (length payload)) r),
    rw (slice-InBounds, write_range_response),
    refl,
    refl,
    rw (range_length-InBounds, length-bytes_between),
    refl,
  )
