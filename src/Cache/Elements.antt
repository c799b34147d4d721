-- ===== src/Cache/Elements.antt =====
-- Lists of elements with distinct keys and pointers, and the map beside them.
use vaps.Base.{
  ℕ, suc, ◌+◌, ◌<◌, ◌≡◌, refl, ap, subst, true, false, inl, inr, Option, none, some, List, [], ◌∷◌,
  ◌==◌, length, All, arith, if◌then◌else◌, Bool-cases,
}
use vaps.Text.{Bytes, same, same→eq, same_refl}
use vaps.Cache.{Element, lookup, delete, find_element, unlink, back}

-- The element with a key.
unfoldable pub find_key : Bytes → List Element → Option Element
find_key k [] = none
find_key k (e ∷ l) = if same e.key k then some e else find_key k l

abbrev pub pointer : Option Element → Option ℕ
pointer none = none
pointer (some e) = some e.id

abbrev pub total : List Element → ℕ
total [] = 0
total (e ∷ l) = length e.value + total l

abbrev pub Apart : Element → Element → Type 0
Apart e x = (same e.key x.key ≡ false) × ((e.id == x.id) ≡ false)

-- No two elements share a key or a pointer.
abbrev pub Distinct : List Element → Type 0
Distinct [] = Unit {0}
Distinct (e ∷ l) = All (Apart e) l × Distinct l

-- All pointers are below `n`.
abbrev pub Below : ℕ → List Element → Type 0
Below n = All (λ e. e.id < n)

-- No two pairs of the map share a key.
abbrev pub Unique : List (Bytes × ℕ) → Type 0
Unique [] = Unit {0}
Unique ((k, p) ∷ m) = All (λ q. same q.0 k ≡ false) m × Unique m

pub lookup-delete :
    (k j : Bytes) (m : List (Bytes × ℕ))
    → lookup k (delete j m) ≡ (if same j k then none else lookup k m)
unfolding lookup delete
lookup-delete k j [] = ground arith
lookup-delete k j ((i, p) ∷ m) =
    ground
      (arith, lookup-delete k j m, same→eq i j, same→eq i k, same→eq j k, same_refl k, same_refl j)

All-delete :
    (P : Bytes × ℕ → Type 0) (k : Bytes) (m : List (Bytes × ℕ)) → All P m → All P (delete k m)
unfolding delete
All-delete P k [] h = tt
All-delete P k ((i, p) ∷ m) h = elim (Bool-cases (same i k)) [
  | inl e ↦ rw e (All-delete P k m h.1)
  | inr e ↦ rw e (h.0, All-delete P k m h.1)
]

pub delete-Unique : (k : Bytes) (m : List (Bytes × ℕ)) → Unique m → Unique (delete k m)
unfolding delete
delete-Unique k [] h = tt
delete-Unique k ((i, p) ∷ m) h = elim (Bool-cases (same i k)) [
  | inl e ↦ rw e (delete-Unique k m h.1)
  | inr e ↦ rw e (All-delete (λ q. same q.0 i ≡ false) k m h.0, delete-Unique k m h.1)
]

pub delete-absent :
    (k : Bytes) (m : List (Bytes × ℕ)) → All (λ q. same q.0 k ≡ false) m → delete k m ≡ m
unfolding delete
delete-absent k [] h = refl
delete-absent k ((i, p) ∷ m) h = rw (h.0, delete-absent k m h.1)

absent_of_lookup :
    (k : Bytes) (m : List (Bytes × ℕ)) → lookup k m ≡ none → All (λ q. same q.0 k ≡ false) m
unfolding lookup
absent_of_lookup k [] h = tt
absent_of_lookup k ((i, p) ∷ m) h = ground (arith, absent_of_lookup k m)

pub delete-lookup-none : (k : Bytes) (m : List (Bytes × ℕ)) → lookup k m ≡ none → delete k m ≡ m
delete-lookup-none k m h = delete-absent k m (absent_of_lookup k m h)

pub absent-delete : (k : Bytes) (m : List (Bytes × ℕ)) → All (λ q. same q.0 k ≡ false) (delete k m)
unfolding delete
absent-delete k [] = tt
absent-delete k ((i, p) ∷ m) = elim (Bool-cases (same i k)) [
  | inl e ↦ rw e (absent-delete k m)
  | inr e ↦ rw e (e, absent-delete k m)
]

pub length-delete :
    (k : Bytes) (p : ℕ) (m : List (Bytes × ℕ))
    → Unique m
    → lookup k m ≡ some p
    → suc (length (delete k m)) ≡ length m
unfolding lookup delete
length-delete k p [] u h = absurd (ground arith)
length-delete k p ((i, q) ∷ m) u h = elim (Bool-cases (same i k)) [
  | inl e ↦
      rw (same→eq i k e, same_refl k)
        (ap suc (ap length (delete-absent k m (rw (same→eq i k e) at u.0))))
  | inr e ↦ rw e (ap suc (length-delete k p m u.1 (ground arith)))
]

pub All-unlink : (P : Element → Type 0) (p : ℕ) (l : List Element) → All P l → All P (unlink p l)
unfolding unlink
All-unlink P p [] h = tt
All-unlink P p (x ∷ l) h = elim (Bool-cases (x.id == p)) [
  | inl e ↦ rw e (h.1)
  | inr e ↦ rw e (h.0, All-unlink P p l h.1)
]

pub unlink-Distinct : (p : ℕ) (l : List Element) → Distinct l → Distinct (unlink p l)
unfolding unlink
unlink-Distinct p [] d = tt
unlink-Distinct p (x ∷ l) d = elim (Bool-cases (x.id == p)) [
  | inl e ↦ rw e (d.1)
  | inr e ↦ rw e (All-unlink (Apart x) p l d.0, unlink-Distinct p l d.1)
]

-- `e` is the element that the pointer `p` leads to.
abbrev pub Linked : ℕ → List Element → Element → Type 0
Linked p l e = find_element p l ≡ some e

pub All-Linked :
    (P : Element → Type 0) (p : ℕ) (l : List Element) (e : Element) → All P l → Linked p l e → P e
unfolding find_element
All-Linked P p [] e h k = absurd (ground arith)
All-Linked P p (x ∷ l) e h k = elim (Bool-cases (x.id == p)) [
  | inl here ↦ subst P (x_is_e here) h.0
  | inr there ↦ All-Linked P p l e h.1 (ground arith)
]
  where
    x_is_e : (x.id == p) ≡ true → x ≡ e
    x_is_e here = ground arith

module _ (p : ℕ) (e : Element) where
  pub total-unlink :
      (l : List Element) → Linked p l e → total (unlink p l) + length e.value ≡ total l
  unfolding find_element unlink
  total-unlink [] k = absurd (ground arith)
  total-unlink (x ∷ l) k = ground (arith, total-unlink l)

  pub length-unlink : (l : List Element) → Linked p l e → suc (length (unlink p l)) ≡ length l
  unfolding find_element unlink
  length-unlink [] k = absurd (ground arith)
  length-unlink (x ∷ l) k = ground (arith, length-unlink l)

  pub id-Linked : (l : List Element) → Linked p l e → e.id ≡ p
  unfolding find_element
  id-Linked [] k = absurd (ground arith)
  id-Linked (x ∷ l) k = ground (arith, id-Linked l)

find_key-Apart :
    (k : Bytes) (x : Element) (l : List Element)
    → All (Apart x) l
    → same x.key k ≡ true
    → find_key k l ≡ none
unfolding find_key
find_key-Apart k x [] a h = refl
find_key-Apart k x (y ∷ l) a h =
    ground (arith, a.0.0, find_key-Apart k x l a.1 h, same→eq x.key k, same→eq y.key k, same_refl k)

pub find_key-Linked :
    (p : ℕ) (e : Element) (l : List Element) → Distinct l → Linked p l e → find_key e.key l ≡ some e
unfolding find_key find_element
find_key-Linked p e [] d h = absurd (ground arith)
find_key-Linked p e (x ∷ l) d h =
    ground (arith, find_key-Linked p e l d.1, All-Linked (Apart x) p l e d.0, same_refl e.key)

pub find_key-unlink :
    (p : ℕ) (e : Element) (k : Bytes) (l : List Element)
    → Distinct l
    → Linked p l e
    → find_key k (unlink p l) ≡ (if same e.key k then none else find_key k l)
unfolding find_key find_element unlink
find_key-unlink p e k [] d h = absurd (ground arith)
find_key-unlink p e k (x ∷ l) d h = ground (
  arith,
  find_key-unlink p e k l d.1,
  All-Linked (Apart x) p l e d.0,
  find_key-Apart k x l d.0,
  same→eq x.key k,
  same→eq e.key k,
  same_refl k,
)

-- The pointer of the element with a key leads back to it.
pub Linked-find_key :
    (k : Bytes) (e : Element) (l : List Element)
    → Distinct l
    → find_key k l ≡ some e
    → Linked e.id l e
unfolding find_key find_element
Linked-find_key k e [] d h = absurd (ground arith)
Linked-find_key k e (x ∷ l) d h =
    ground (arith, Linked-find_key k e l d.1, All-Linked (Apart x) e.id l e d.0)

pub key-find_key : (k : Bytes) (e : Element) (l : List Element) → find_key k l ≡ some e → e.key ≡ k
unfolding find_key
key-find_key k e [] h = absurd (ground arith)
key-find_key k e (x ∷ l) h = ground (arith, key-find_key k e l, same→eq x.key k)

pub Linked-back : (e : Element) (l : List Element) → Distinct l → back l ≡ some e → Linked e.id l e
unfolding back find_element
Linked-back e [] d h = absurd (ground arith)
Linked-back e (x ∷ []) d h = ground arith
Linked-back e (x ∷ y ∷ l) d h =
    ground (arith, Linked-back e (y ∷ l) d.1 h, All-Linked (Apart x) e.id (y ∷ l) e d.0)

Apart-sym : (x y : Element) → Apart x y → Apart y x
Apart-sym x y h = (ground (arith, h.0, same→eq y.key x.key, same_refl x.key), ground (arith, h.1))

-- The other elements differ from a linked one.
pub Apart-unlink :
    (e : Element) (l : List Element) → Distinct l → Linked e.id l e → All (Apart e) (unlink e.id l)
unfolding find_element unlink
Apart-unlink e [] d h = absurd (ground arith)
Apart-unlink e (x ∷ l) d h = elim (Bool-cases (x.id == e.id)) [
  | inl here ↦ rw here (subst (λ y. All (Apart y) l) (x_is_e here) d.0)
  | inr there ↦ rw there (
    Apart-sym x e (All-Linked (Apart x) e.id l e d.0 (ground arith)),
    Apart-unlink e l d.1 (ground arith),
  )
]
  where
    x_is_e : (x.id == e.id) ≡ true → x ≡ e
    x_is_e here = ground arith
