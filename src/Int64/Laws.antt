-- ===== src/Int64/Laws.antt =====
-- Arithmetic on int64 values that stay in range, and the round trip of decimal texts.
use vaps.Base.{
  ℕ, zero, suc, ◌+◌, ◌-◌, ◌*◌, ◌/◌, ◌%◌, ◌^◌, ◌≤◌, ◌<◌, ◌≡◌, refl, [], ◌∷◌, some, All, arith, ltb,
  true, inl, inr, Bool-cases,
}
use vaps.Text.{Bytes}
use vaps.Int64.{
  pos, wrap64, add64, sub64, digits_value, parse_int, format_digits, format_int, is_digit,
}

pub wrap64-pos : (n : ℕ) → n < 2 ^ 63 → wrap64 (pos n) ≡ pos n
unfolding wrap64
wrap64-pos n h = ground arith

pub add64-pos : (m n : ℕ) → m + n < 2 ^ 63 → add64 (pos m) (pos n) ≡ pos (m + n)
unfolding add64
add64-pos m n h = ground arith

pub sub64-pos : (m n : ℕ) → m < 2 ^ 63 → n ≤ m → sub64 (pos m) (pos n) ≡ pos (m - n)
unfolding sub64
sub64-pos m n h k = ground arith

digit_of_mod : (n : ℕ) → is_digit (b'0' + n % 10) ≡ true
digit_of_mod n = ground arith

last_digit : (n : ℕ) → n / 10 * 10 + (b'0' + n % 10 - b'0') ≡ n
last_digit n = omega arith

-- Reading back what `format_digits` writes.
digits_value-format_digits :
    (f n : ℕ) (rest : Bytes) → n < f → digits_value 0 (format_digits f n rest) ≡ digits_value n rest
unfolding digits_value format_digits
digits_value-format_digits zero n rest h = absurd (omega arith)
digits_value-format_digits (suc f) n rest h = elim (Bool-cases (ltb n 10)) [
  | inl small ↦ rw small (ground arith)
  | inr big ↦
      rw
        (
          big,
          digits_value-format_digits f (n / 10) ((b'0' + n % 10) ∷ rest) (ground arith),
          digit_of_mod n,
          last_digit n,
        )
        refl
]

format_digits-head :
    (f n : ℕ) (rest : Bytes)
    → n < f
    → (c : ℕ) × (s : Bytes) × (format_digits f n rest ≡ c ∷ s) × (is_digit c ≡ true)
unfolding format_digits
format_digits-head zero n rest h = absurd (omega arith)
format_digits-head (suc f) n rest h = elim (Bool-cases (ltb n 10)) [
  | inl small ↦ (b'0' + n, rest, rw small refl, ground arith)
  | inr big ↦ rw big (format_digits-head f (n / 10) ((b'0' + n % 10) ∷ rest) (ground arith))
]

parse_int-digit :
    (c : ℕ) (s : Bytes) (n : ℕ)
    → is_digit c ≡ true
    → digits_value 0 (c ∷ s) ≡ some n
    → n < 2 ^ 63
    → parse_int (c ∷ s) ≡ some (pos n)
unfolding parse_int
parse_int-digit c s n d e h = ground arith

parse_int_of_parts :
    (b : Bytes) (n : ℕ)
    → n < 2 ^ 63
    → digits_value 0 b ≡ some n
    → (d : ℕ) × (s : Bytes) × (b ≡ d ∷ s) × (is_digit d ≡ true)
    → parse_int b ≡ some (pos n)
parse_int_of_parts b n h v (d, s, e, is) = rw e (parse_int-digit d s n is (rw e at v) h)

-- What is written in decimal is read back.
pub parse_int-format_int : (n : ℕ) → n < 2 ^ 63 → parse_int (format_int (pos n)) ≡ some (pos n)
unfolding format_int digits_value
parse_int-format_int n h =
    parse_int_of_parts _ n h (digits_value-format_digits (n + 1) n [] (omega arith))
      (format_digits-head (n + 1) n [] (omega arith))

-- Every byte is a decimal digit.
abbrev pub AllDigits : Bytes → Type 0
AllDigits = All (λ c. is_digit c ≡ true)

format_digits-AllDigits :
    (f n : ℕ) (rest : Bytes) → AllDigits rest → AllDigits (format_digits f n rest)
unfolding format_digits
format_digits-AllDigits zero n rest h = h
format_digits-AllDigits (suc f) n rest h = elim (Bool-cases (ltb n 10)) [
  | inl small ↦ rw small (ground arith, h)
  | inr big ↦
      rw big (format_digits-AllDigits f (n / 10) ((b'0' + n % 10) ∷ rest) (digit_of_mod n, h))
]

pub format_int-AllDigits : (n : ℕ) → AllDigits (format_int (pos n))
unfolding format_int
format_int-AllDigits n = format_digits-AllDigits (n + 1) n [] tt

pub format_int-cons : (n : ℕ) → (c : ℕ) × (s : Bytes) × (format_int (pos n) ≡ c ∷ s)
unfolding format_int
format_int-cons n = let (c, s, e, _) = format_digits-head (n + 1) n [] (omega arith) in (c, s, e)
