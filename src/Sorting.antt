-- ===== src/Sorting.antt =====
-- sort.SliceStable of the Go library, for a strict order.
use vaps.Base.{◌≡◌, Bool, true, false, List, [], ◌∷◌, arith, if◌then◌else◌, Bool-cases, inl, inr}
use mathlib.Core.List.{Perm}
use mathlib.Core.List.Perm

unfoldable pub insert_sorted {ℓ} : {A : Type ℓ} → (A → A → Bool) → A → List A → List A
insert_sorted less x [] = x ∷ []
insert_sorted less x (y ∷ ys) =
    let rest = insert_sorted less x ys in if less y x then y ∷ rest else x ∷ y ∷ ys

-- sort.SliceStable
unfoldable pub sort_stable {ℓ} : {A : Type ℓ} → (A → A → Bool) → List A → List A
unfolding insert_sorted
sort_stable less [] = []
sort_stable less (x ∷ xs) = insert_sorted less x (sort_stable less xs)

-- No entry is before its predecessor.
abbrev pub Ordered {ℓ} : {A : Type ℓ} → (A → A → Bool) → List A → Type 0
Ordered less [] = Unit {0}
Ordered less (x ∷ []) = Unit {0}
Ordered less (x ∷ y ∷ l) = (less y x ≡ false) × Ordered less (y ∷ l)

-- Each entry stands in the relation to the next one.
abbrev pub Chain {ℓ} : {A : Type ℓ} → (A → A → Type 0) → List A → Type 0
Chain R [] = Unit {0}
Chain R (x ∷ []) = Unit {0}
Chain R (x ∷ y ∷ l) = R x y × Chain R (y ∷ l)

pub Ordered-Chain {ℓ} :
    {A : Type ℓ} (less : A → A → Bool) (R : A → A → Type 0)
    → ((a b : A) → less b a ≡ false → R a b)
    → (l : List A) → Ordered less l
    → Chain R l
Ordered-Chain less R f [] o = tt
Ordered-Chain less R f (x ∷ []) o = tt
Ordered-Chain less R f (x ∷ y ∷ l) o = (f x y o.0, Ordered-Chain less R f (y ∷ l) o.1)

module _ {ℓ} {A : Type ℓ} (less : A → A → Bool)
    (asym : (a b : A) → less a b ≡ true → less b a ≡ false) where
  insert_sorted-Ordered :
      (x : A) (l : List A) → Ordered less l → Ordered less (insert_sorted less x l)
  unfolding insert_sorted
  insert_sorted-Ordered x [] o = tt
  insert_sorted-Ordered x (y ∷ []) o = ground (arith, asym y x)
  insert_sorted-Ordered x (y ∷ z ∷ l) o =
      ground (arith, asym y x, insert_sorted-Ordered x (z ∷ l) o.1)

  pub sort_stable-Ordered : (l : List A) → Ordered less (sort_stable less l)
  unfolding sort_stable
  sort_stable-Ordered [] = tt
  sort_stable-Ordered (x ∷ l) = insert_sorted-Ordered x (sort_stable less l) (sort_stable-Ordered l)

module _ {ℓ} {A : Type ℓ} (less : A → A → Bool) where
  insert_sorted-perm : (x : A) (l : List A) → Perm (insert_sorted less x l) (x ∷ l)
  unfolding insert_sorted
  insert_sorted-perm x [] = Perm.refl (x ∷ [])
  insert_sorted-perm x (y ∷ l) = elim (Bool-cases (less y x)) [
    | inl e ↦ rw e (Perm.trans (Perm.cons y (insert_sorted-perm x l)) (Perm.swap x y l))
    | inr e ↦ rw e (Perm.refl (x ∷ y ∷ l))
  ]

  pub sort_stable-perm : (l : List A) → Perm (sort_stable less l) l
  unfolding sort_stable
  sort_stable-perm [] = Perm.refl []
  sort_stable-perm (x ∷ l) =
      Perm.trans (insert_sorted-perm x (sort_stable less l)) (Perm.cons x (sort_stable-perm l))
