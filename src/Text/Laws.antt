-- ===== src/Text/Laws.antt =====
-- Texts that the operations of `strings` leave as they are, or take apart where they were joined.
use vaps.Base.{
  ℕ, ◌≡◌, refl, ap, false, [], ◌∷◌, ◌++◌, some, All, arith, length, length-append, ◌==◌,
}
use vaps.Text.{Bytes, is_space, trim_left, trim_right, trim_space, contains, split_once}

-- No byte of the text is a space.
abbrev pub NoSpace : Bytes → Type 0
NoSpace = All (λ c. is_space c ≡ false)

-- No byte of the text is `c`.
abbrev pub Without : ℕ → Bytes → Type 0
Without c = All (λ d. (d == c) ≡ false)

trim_right-NoSpace : (s : Bytes) → NoSpace s → trim_right s ≡ s
unfolding trim_right
trim_right-NoSpace [] h = refl
trim_right-NoSpace (c ∷ []) h = rw (h.0)
trim_right-NoSpace (c ∷ d ∷ s) h = rw (trim_right-NoSpace (d ∷ s) h.1)

trim_left-NoSpace : (s : Bytes) → NoSpace s → trim_left s ≡ s
unfolding trim_left
trim_left-NoSpace [] h = refl
trim_left-NoSpace (c ∷ s) h = rw (h.0)

pub trim_space-NoSpace : (s : Bytes) → NoSpace s → trim_space s ≡ s
unfolding trim_space
trim_space-NoSpace s h = rw (trim_right-NoSpace s h) (trim_left-NoSpace s h)

pub contains-Without : (c : ℕ) (s : Bytes) → Without c s → contains s (c ∷ []) ≡ false
unfolding contains
contains-Without c [] h = refl
contains-Without c (d ∷ s) h = rw (h.0, contains-Without c s h.1)

pub split_once-append :
    (sep : ℕ) (a b : Bytes) → Without sep a → split_once sep (a ++ sep ∷ b) ≡ (a, some b)
unfolding split_once
split_once-append sep [] b h = ground arith
split_once-append sep (c ∷ a) b h = rw (split_once-append sep a b h.1, h.0)

append_cancel_left : (p a b : Bytes) → p ++ a ≡ p ++ b → a ≡ b
append_cancel_left [] a b h = h
append_cancel_left (c ∷ p) a b h = append_cancel_left p a b (cons_tail h)
  where
    cons_tail : c ∷ (p ++ a) ≡ c ∷ (p ++ b) → p ++ a ≡ p ++ b
    cons_tail e = cc

pub append_cancel_right : (a b s : Bytes) → a ++ s ≡ b ++ s → a ≡ b
append_cancel_right [] [] s h = refl
append_cancel_right [] (c ∷ b) s h = absurd (omega (arith, ap length h, length-append b s))
append_cancel_right (c ∷ a) [] s h = absurd (omega (arith, ap length h, length-append a s))
append_cancel_right (c ∷ a) (d ∷ b) s h = cons_eq (append_cancel_right a b s (cc))
  where
    cons_eq : a ≡ b → c ∷ a ≡ d ∷ b
    cons_eq e = cc

pub append_cancel_middle : (p a b s : Bytes) → p ++ a ++ s ≡ p ++ b ++ s → a ≡ b
append_cancel_middle p a b s h =
    append_cancel_left p a b (append_cancel_right (p ++ a) (p ++ b) s h)
