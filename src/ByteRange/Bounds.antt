-- ===== src/ByteRange/Bounds.antt =====
-- The bounds of the ranges that the header's parser accepts.
use vaps.Base.{ℕ, ◌-◌, ◌^◌, ◌≤◌, ◌<◌, ◌≡◌, [], ◌∷◌, Option, none, some, arith, leb, if◌then◌else◌}
use vaps.Text.{Bytes, trim_space, trim_prefix, split_once, codes}
use vaps.Int64.{ℤ, pos, negsuc, sub64, parse_int}
use vaps.Int64.Laws.{sub64-pos}
use vaps.ByteRange.{
  ByteRange, ok, parse_suffix, parse_open, parse_closed, parse_from, parse_spec,
  parse_single_range_header,
}

-- A range whose ends are positions of a payload of `size` bytes, in order.
pub record InBounds (size : ℕ) (r : ByteRange) : Type 0 where
  pub first : ℕ
  pub last : ℕ
  pub start : r.start ≡ pos first
  pub end : r.end ≡ pos last
  pub ordered : first ≤ last
  pub inside : last < size

module _ (n : ℕ) (some_bytes : 0 < n) (fits : n < 2 ^ 63) where
  last_byte-pos : sub64 (pos n) (pos 1) ≡ pos (n - 1)
  last_byte-pos = sub64-pos n 1 fits some_bytes

  parse_suffix-InBounds :
      (o : Option ℤ) (r : ByteRange) → parse_suffix o (pos n) ≡ ok r → InBounds n r
  unfolding parse_suffix
  parse_suffix-InBounds none r h = cc
  parse_suffix-InBounds (some (negsuc k)) r h = absurd (ground arith)
  parse_suffix-InBounds (some (pos k)) r h = record {
    first = n - k;
    last = n - 1;
    start = ground (arith, sub64-pos n k, sub64-pos n n);
    end = ground (arith, last_byte-pos);
    ordered = ground arith;
    inside = omega arith;
  }

  parse_open-InBounds : (k : ℕ) (r : ByteRange) → parse_open (pos k) (pos n) ≡ ok r → InBounds n r
  unfolding parse_open
  parse_open-InBounds k r h = record {
    first = k;
    last = n - 1;
    start = ground arith;
    end = ground (arith, last_byte-pos);
    ordered = ground arith;
    inside = omega arith;
  }

  parse_closed-InBounds :
      (k : ℕ) (o : Option ℤ) (r : ByteRange) → parse_closed (pos k) o (pos n) ≡ ok r → InBounds n r
  unfolding parse_closed
  parse_closed-InBounds k none r h = cc
  parse_closed-InBounds k (some (negsuc m)) r h = ground arith
  parse_closed-InBounds k (some (pos m)) r h = record {
    first = k;
    last = if leb n m then n - 1 else m;
    start = ground arith;
    end = ground (arith, last_byte-pos);
    ordered = ground arith;
    inside = ground arith;
  }

  parse_from-InBounds :
      (o : Option ℤ) (last : Bytes) (r : ByteRange)
      → parse_from o last (pos n) ≡ ok r
      → InBounds n r
  unfolding parse_from
  parse_from-InBounds none last r h = cc
  parse_from-InBounds (some (negsuc k)) last r h = absurd (ground arith)
  parse_from-InBounds (some (pos k)) [] r h = parse_open-InBounds k r (ground arith)
  parse_from-InBounds (some (pos k)) (c ∷ s) r h =
      parse_closed-InBounds k (parse_int (c ∷ s)) r (ground arith)

  parse_spec-InBounds :
      (p : Bytes × Option Bytes) (r : ByteRange) → parse_spec p (pos n) ≡ ok r → InBounds n r
  unfolding parse_spec
  parse_spec-InBounds (first, none) r h = cc
  parse_spec-InBounds ([], some last) r h = parse_suffix-InBounds (parse_int last) r h
  parse_spec-InBounds (c ∷ s, some last) r h = parse_from-InBounds (parse_int (c ∷ s)) last r h

  -- A range accepted for a payload of 1 to 2^63 - 1 bytes lies inside it: its first position is
  -- not behind its last, and its last is below the size.
  pub parse_single_range_header-InBounds :
      (header : Bytes) (r : ByteRange)
      → parse_single_range_header header (pos n) ≡ ok r
      → InBounds n r
  unfolding parse_single_range_header
  parse_single_range_header-InBounds header r h =
      parse_spec-InBounds (split_once b'-' (trim_prefix (trim_space header) (codes "bytes="))) r
        (ground arith)
