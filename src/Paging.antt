-- ===== src/Paging.antt =====
-- Pages of a list: what internal/reqlog, internal/logreader and internal/metadata cut from their
-- results.
use vaps.Base.{
  ℕ, zero, suc, ◌+◌, ◌-◌, ◌≤◌, ◌<◌, ◌≡◌, refl, ap, sym, ◌*◌, ◌∙◌, take-append-drop, List, [], ◌∷◌,
  ◌++◌, length, take, drop, ltb, if◌then◌else◌, arith, length-drop, Bool-cases, inl, inr,
}
use vaps.Int64.{ℤ, pos, negsuc, pos_part, ◌≤ℤ◌, ◌<ℤ◌, le_ℤ, lt_ℤ}

-- A page of `l` entries behind the first `o` is what a request for `limit` and `offset` asks for: 100
-- entries by default, at most 500, and from the start by default.
pub record Asked (limit offset : ℤ) (l o : ℕ) : Type 0 where
  pub default : limit ≤ℤ pos 0 → l ≡ 100
  pub wanted : pos 1 ≤ℤ limit → limit ≤ℤ pos 500 → pos l ≡ limit
  pub capped : pos 500 <ℤ limit → l ≡ 500
  pub from_start : offset <ℤ pos 0 → o ≡ 0
  pub behind : pos 0 ≤ℤ offset → pos o ≡ offset

pos-pos_part : (n : ℤ) → pos 0 ≤ℤ n → pos (pos_part n) ≡ n
pos-pos_part (pos n) h = refl
pos-pos_part (negsuc n) h = absurd (ground arith)

abbrev asked_limit : ℤ → ℕ
asked_limit limit =
    let positive = if le_ℤ limit (pos 0) then 100 else pos_part limit in
    if ltb 500 positive then 500 else positive

asked_limit-kept :
    (limit : ℤ) → pos 1 ≤ℤ limit → limit ≤ℤ pos 500 → asked_limit limit ≡ pos_part limit
asked_limit-kept (pos n) h k = ground arith
asked_limit-kept (negsuc n) h k = absurd (ground arith)

asked_limit-capped : (limit : ℤ) → pos 500 <ℤ limit → asked_limit limit ≡ 500
asked_limit-capped (pos n) h = ground arith
asked_limit-capped (negsuc n) h = absurd (ground arith)

pub asked :
    (limit offset : ℤ)
    → Asked limit offset (asked_limit limit) (if lt_ℤ offset (pos 0) then 0 else pos_part offset)
asked limit offset = record {
  default = λ h. ground arith;
  wanted = λ h k. ap pos (asked_limit-kept limit h k) ∙ pos-pos_part limit (omega (arith, h));
  capped = λ h. asked_limit-capped limit h;
  from_start = λ h. ground arith;
  behind = λ h.
      ap pos {x = if lt_ℤ offset (pos 0) then 0 else pos_part offset} (ground arith)
      ∙ pos-pos_part offset h;
}

module _ {ℓ} {A : Type ℓ} where
  -- xs[start:end] for 0 ≤ start ≤ end ≤ len(xs)
  abbrev pub sub_list : ℕ → ℕ → List A → List A
  sub_list start end xs = take (end - start) (drop start xs)

  -- The page of `limit` entries behind the first `offset`.
  abbrev pub page_of : ℕ → ℕ → List A → List A
  page_of limit offset xs = take limit (drop offset xs)

  pub drop_all : (n : ℕ) (xs : List A) → length xs ≤ n → drop n xs ≡ []
  drop_all zero [] h = refl
  drop_all zero (x ∷ xs) h = absurd (omega arith)
  drop_all (suc n) [] h = refl
  drop_all (suc n) (x ∷ xs) h = drop_all n xs (omega arith)

  pub take_all : (n : ℕ) (xs : List A) → length xs ≤ n → take n xs ≡ xs
  take_all zero [] h = refl
  take_all zero (x ∷ xs) h = absurd (omega arith)
  take_all (suc n) [] h = refl
  take_all (suc n) (x ∷ xs) h = ap (◌∷◌ x) (take_all n xs (omega arith))

  pub take-nil : (n : ℕ) → take {A = A} n [] ≡ []
  take-nil zero = refl
  take-nil (suc n) = refl

  -- Cutting at the smaller of offset + limit and the length is taking `limit` entries.
  pub sub_list-page :
      (limit offset : ℕ) (xs : List A)
      → offset < length xs
      → sub_list offset (if ltb (length xs) (offset + limit) then length xs else offset + limit) xs
        ≡ page_of limit offset xs
  sub_list-page limit offset xs h = elim (Bool-cases (ltb (length xs) (offset + limit))) [
    | inl over ↦ rw over (
        take_all (length xs - offset) (drop offset xs) (omega (arith, length-drop offset xs))
        ∙ sym (take_all limit (drop offset xs) (ground (arith, length-drop offset xs))))
    | inr fits ↦ rw fits (ap (λ n. take n (drop offset xs)) (omega arith))
  ]

  pub drop-drop : (m n : ℕ) (xs : List A) → drop m (drop n xs) ≡ drop (n + m) xs
  drop-drop m zero xs = ap (λ k. drop k xs) (omega arith)
  drop-drop zero (suc n) [] = drop_zero _
    where
      drop_zero : (k : ℕ) → [] ≡ drop {A = A} k []
      drop_zero zero = refl
      drop_zero (suc k) = refl
  drop-drop (suc m) (suc n) [] = sym (drop_all (suc n + suc m) [] (omega arith))
  drop-drop m (suc n) (x ∷ xs) =
      drop-drop m n xs ∙ ap (λ k. drop k (x ∷ xs)) {x = suc (n + m)} (omega arith)

  pub drop-append_left :
      (n : ℕ) (xs ys : List A) → n ≤ length xs → drop n (xs ++ ys) ≡ drop n xs ++ ys
  drop-append_left zero xs ys h = refl
  drop-append_left (suc n) [] ys h = absurd (omega arith)
  drop-append_left (suc n) (x ∷ xs) ys h = drop-append_left n xs ys (omega arith)

  -- The pages one behind the other, from an offset on.
  unfoldable pub walk : ℕ → ℕ → ℕ → List A → List A
  walk zero limit offset xs = []
  walk (suc n) limit offset xs = page_of limit offset xs ++ walk n limit (offset + limit) xs

  -- Enough pages give the rest of the list, each entry once and in order.
  pub walk-drop :
      (n limit offset : ℕ) (xs : List A)
      → length xs ≤ offset + n * limit
      → walk n limit offset xs ≡ drop offset xs
  unfolding walk
  walk-drop zero limit offset xs h = sym (drop_all offset xs (omega arith))
  walk-drop (suc n) limit offset xs h =
      rw (walk-drop n limit (offset + limit) xs (omega arith), ← drop-drop limit offset xs)
        (take-append-drop limit (drop offset xs))
