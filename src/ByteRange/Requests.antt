-- ===== src/ByteRange/Requests.antt =====
-- The requests that clients write, `bytes=a-b` and `bytes=-n`, and what the parser makes of them.
use vaps.Base.{
  ℕ, ◌-◌, ◌^◌, ◌≤◌, ◌<◌, ◌≡◌, refl, ◌∙◌, [], ◌∷◌, ◌++◌, some, arith, ◌==◌, true, false, All,
  All-append,
}
use vaps.Text.{Bytes, is_space, codes, has_prefix-append, trim_prefix-append}
use vaps.Text.Laws.{NoSpace, Without, trim_space-NoSpace, contains-Without, split_once-append}
use vaps.Int64.{ℤ, pos, sub64, parse_int, format_int, is_digit}
use vaps.Int64.Laws.{
  sub64-pos, parse_int-format_int, AllDigits, format_int-AllDigits, format_int-cons,
}
use vaps.ByteRange.{ok, parse_spec, parse_single_range_header}

-- Bytes that stand in a range's text: digits and the minus.
abbrev IsPlain : ℕ → Type 0
IsPlain c = (is_space c ≡ false) × ((c == b',') ≡ false)

IsPlain-digit : (c : ℕ) → is_digit c ≡ true → IsPlain c
unfolding is_space
IsPlain-digit c h = ground arith

digits-IsPlain : (s : Bytes) → AllDigits s → All IsPlain s
digits-IsPlain [] h = tt
digits-IsPlain (c ∷ s) h = (IsPlain-digit c h.0, digits-IsPlain s h.1)

plain_space : (s : Bytes) → All IsPlain s → NoSpace s
plain_space [] h = tt
plain_space (c ∷ s) h = (h.0.0, plain_space s h.1)

plain_comma : (s : Bytes) → All IsPlain s → Without b',' s
plain_comma [] h = tt
plain_comma (c ∷ s) h = (h.0.1, plain_comma s h.1)

digits_minus : (s : Bytes) → AllDigits s → Without b'-' s
digits_minus [] h = tt
digits_minus (c ∷ s) h = (ground arith, digits_minus s h.1)

spec-IsPlain : (a b : Bytes) → AllDigits a → AllDigits b → All IsPlain (a ++ b'-' ∷ b)
unfolding is_space
spec-IsPlain a b ha hb =
    All-append IsPlain a (b'-' ∷ b) (digits-IsPlain a ha) ((refl, refl), digits-IsPlain b hb)

abbrev pub unit_prefix : Bytes
unit_prefix = codes "bytes="

unit_space : (s : Bytes) → NoSpace s → NoSpace (unit_prefix ++ s)
unfolding is_space
unit_space s h = (refl, (refl, (refl, (refl, (refl, (refl, h))))))

-- A header of the form `bytes=a-b` reaches the part that reads the two numbers.
parse-request :
    (a b : Bytes) (size : ℤ)
    → AllDigits a
    → AllDigits b
    → parse_single_range_header (unit_prefix ++ a ++ b'-' ∷ b) size ≡ parse_spec (a, some b) size
unfolding parse_single_range_header
parse-request a b size ha hb =
    rw
      (
        trim_space-NoSpace _ (unit_space _ (plain_space _ (spec-IsPlain a b ha hb))),
        trim_prefix-append unit_prefix (a ++ b'-' ∷ b),
        has_prefix-append unit_prefix (a ++ b'-' ∷ b),
        contains-Without b',' _ (plain_comma _ (spec-IsPlain a b ha hb)),
        split_once-append b'-' a b (digits_minus a ha),
      )
      refl

parse_spec-cons :
    (c d : ℕ) (s t : Bytes) (i j n : ℕ)
    → parse_int (c ∷ s) ≡ some (pos i)
    → parse_int (d ∷ t) ≡ some (pos j)
    → i ≤ j
    → j < n
    → parse_spec (c ∷ s, some (d ∷ t)) (pos n) ≡ ok (record { start = pos i; end = pos j })
unfolding parse_spec
parse_spec-cons c d s t i j n pa pb h k = rw (pa, pb) (ground arith)

parse_spec-numbers :
    (a b : Bytes) (i j n : ℕ)
    → (c : ℕ) × (s : Bytes) × (a ≡ c ∷ s)
    → (d : ℕ) × (t : Bytes) × (b ≡ d ∷ t)
    → parse_int a ≡ some (pos i)
    → parse_int b ≡ some (pos j)
    → i ≤ j
    → j < n
    → parse_spec (a, some b) (pos n) ≡ ok (record { start = pos i; end = pos j })
parse_spec-numbers a b i j n (c, s, ea) (d, t, eb) pa pb h k =
    rw (ea, eb) (parse_spec-cons c d s t i j n (rw ea at pa) (rw eb at pb) h k)

-- A request for the bytes from i to j, as clients write it, is read as that range, for any
-- positions i ≤ j of a payload below 2^63 bytes.
pub parse_single_range_header-closed :
    (i j n : ℕ)
    → i ≤ j
    → j < n
    → n < 2 ^ 63
    → parse_single_range_header
        (unit_prefix ++ format_int (pos i) ++ b'-' ∷ format_int (pos j))
        (pos n)
      ≡ ok (record { start = pos i; end = pos j })
parse_single_range_header-closed i j n h k fits =
    parse-request (format_int (pos i)) (format_int (pos j)) (pos n) (format_int-AllDigits i)
      (format_int-AllDigits j)
    ∙ parse_spec-numbers _ _ i j n (format_int-cons i) (format_int-cons j)
        (parse_int-format_int i (omega arith)) (parse_int-format_int j (omega arith)) h k

-- A request for the last k bytes (k from 1 to 2^63 - 1) is read as the range from max(n - k, 0) to
-- n - 1 of a payload of n bytes; for an empty payload the end is -1.
pub parse_single_range_header-suffix :
    (k n : ℕ)
    → 0 < k
    → k < 2 ^ 63
    → n < 2 ^ 63
    → parse_single_range_header (unit_prefix ++ b'-' ∷ format_int (pos k)) (pos n)
      ≡ ok (record { start = pos (n - k); end = sub64 (pos n) (pos 1) })
unfolding parse_spec
parse_single_range_header-suffix k n h hk hn =
    parse-request [] (format_int (pos k)) (pos n) tt (format_int-AllDigits k)
    ∙ rw (parse_int-format_int k hk) (ground (arith, sub64-pos n k, sub64-pos n n))
