-- ===== src/Cache/Lru.antt =====
-- What the cache promises, on a plain list of keys and values with the most recently used first.
use vaps.Base.{
  ℕ, suc, ◌+◌, ◌-◌, ◌≤◌, ◌<◌, ◌≡◌, refl, ap, Option, none, some, List, [], ◌∷◌, leb, length, All,
  arith, if◌then◌else◌,
}
use vaps.Text.{Bytes, same, same→eq, same_refl}
use vaps.Cache.{Cache, Element, find_element, unlink, back}
use vaps.Cache.Elements.{find_key, total, Apart, Distinct, Linked, All-Linked, Linked-back}

abbrev pub Entries : Type 0
Entries = List (Bytes × Bytes)

abbrev pub entries_of : List Element → Entries
entries_of [] = []
entries_of (e ∷ l) = (e.key, e.value) ∷ entries_of l

abbrev pub view : Cache → Entries
view c = entries_of c.lru

abbrev pub size : Entries → ℕ
size [] = 0
size ((k, v) ∷ r) = length v + size r

unfoldable pub find_value : Bytes → Entries → Option Bytes
find_value k [] = none
find_value k ((j, v) ∷ r) = if same j k then some v else find_value k r

unfoldable pub without : Bytes → Entries → Entries
without k [] = []
without k ((j, v) ∷ r) = let rest = without k r in if same j k then rest else (j, v) ∷ rest

-- The longest part from the front whose values fit into `m` bytes.
unfoldable pub keep_recent : ℕ → Entries → Entries
keep_recent m [] = []
keep_recent m ((k, v) ∷ r) =
    let rest = keep_recent (m - length v) r in if leb (length v) m then (k, v) ∷ rest else []

-- A key that was looked up moves to the front.
unfoldable pub promote : Bytes → Entries → Entries
unfolding find_value without
promote k r = elim (find_value k r) [ none ↦ r | some v ↦ (k, v) ∷ without k r ]

pub size-keep_recent : (m : ℕ) (r : Entries) → size (keep_recent m r) ≤ m
unfolding keep_recent
size-keep_recent m [] = omega arith
size-keep_recent m ((k, v) ∷ r) = ground (arith, size-keep_recent (m - length v) r)

pub size-entries_of : (l : List Element) → size (entries_of l) ≡ total l
size-entries_of [] = refl
size-entries_of (e ∷ l) = ap (◌+◌ (length e.value)) (size-entries_of l)

pub find_value-entries_of :
    (k : Bytes) (l : List Element)
    → find_value k (entries_of l) ≡ (elim (find_key k l) [ none ↦ none | some e ↦ some e.value ])
unfolding find_value find_key
find_value-entries_of k [] = refl
find_value-entries_of k (e ∷ l) = ground (arith, find_value-entries_of k l)

pub without-absent :
    (k : Bytes) (l : List Element) → find_key k l ≡ none → without k (entries_of l) ≡ entries_of l
unfolding without find_key
without-absent k [] h = refl
without-absent k (e ∷ l) h = ground (arith, without-absent k l)

without-Apart :
    (e : Element) (l : List Element) → All (Apart e) l → without e.key (entries_of l) ≡ entries_of l
unfolding without
without-Apart e [] h = refl
without-Apart e (x ∷ l) h =
    ground (arith, h.0.0, without-Apart e l h.1, same→eq x.key e.key, same_refl e.key)

pub without-unlink :
    (p : ℕ) (e : Element) (l : List Element)
    → Distinct l
    → Linked p l e
    → without e.key (entries_of l) ≡ entries_of (unlink p l)
unfolding without find_element unlink
without-unlink p e [] d h = absurd (ground arith)
without-unlink p e (x ∷ l) d h = ground (
  arith,
  without-unlink p e l d.1,
  without-Apart x l d.0,
  All-Linked (Apart x) p l e d.0,
  same→eq x.key e.key,
  same_refl e.key,
)

pub keep_recent_all :
    (m : ℕ) (l : List Element) → total l ≤ m → keep_recent m (entries_of l) ≡ entries_of l
unfolding keep_recent
keep_recent_all m [] h = refl
keep_recent_all m (e ∷ l) h = ground (arith, keep_recent_all (m - length e.value) l)

-- While the list does not fit, its last element is not among those kept.
pub keep_recent-back :
    (e : Element) (m : ℕ) (l : List Element)
    → Distinct l
    → back l ≡ some e
    → m < total l
    → keep_recent m (entries_of (unlink e.id l)) ≡ keep_recent m (entries_of l)
unfolding keep_recent unlink back
keep_recent-back e m [] d b h = refl
keep_recent-back e m (x ∷ []) d b h = ground arith
keep_recent-back e m (x ∷ y ∷ l) d b h = ground (
  arith,
  keep_recent-back e (m - length x.value) (y ∷ l) d.1 b,
  All-Linked (Apart x) e.id (y ∷ l) e d.0,
  Linked-back e (y ∷ l) d.1 b,
)

pub length-entries_of : (l : List Element) → length (entries_of l) ≡ length l
length-entries_of [] = refl
length-entries_of (e ∷ l) = ap suc (length-entries_of l)
