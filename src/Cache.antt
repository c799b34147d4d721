-- ===== src/Cache.antt =====
-- internal/cache/cache.go: the memory cache of payloads. `items` maps a key to a pointer to a list
-- element; the elements stand in `lru`, the most recently used first. A pointer is the number that
-- the element got when it was pushed. The mutex makes each method one step.
pub mod Elements
pub mod Invariant
pub mod Lru
pub mod Refine
pub mod Runs
use vaps.Base.{
  ℕ, zero, suc, ◌+◌, ◌%◌, ◌^◌, Bool, true, false, ◌||◌, not, Option, none, some, List, [], ◌∷◌,
  ◌==◌, length, if◌then◌else◌,
}
use vaps.Text.{Bytes, same}
use vaps.Int64.{ℤ, pos, lt_ℤ, le_ℤ, add64, sub64}

-- An element of the list, with its entry.
pub record Element : Type 0 where
  pub id : ℕ
  pub key : Bytes
  pub value : Bytes

-- `hits` and `misses` are the 64 bits of the counters; `next_id` numbers the elements.
pub record Cache : Type 0 where
  pub max_bytes : ℤ
  pub max_object_bytes : ℤ
  pub used_bytes : ℤ
  pub hits : ℕ
  pub misses : ℕ
  pub items : List (Bytes × ℕ)
  pub lru : List Element
  pub next_id : ℕ

pub record Stats : Type 0 where
  pub entries : ℕ
  pub used_bytes : ℤ
  pub max_bytes : ℤ
  pub max_object_bytes : ℤ
  pub hits : ℕ
  pub misses : ℕ

abbrev pub inc64 : ℕ → ℕ
inc64 n = (n + 1) % 2 ^ 64

-- New
abbrev pub new : ℤ → ℤ → Cache
new max_bytes max_object_bytes = record {
  max_bytes = max_bytes;
  max_object_bytes = max_object_bytes;
  used_bytes = pos 0;
  hits = 0;
  misses = 0;
  items = [];
  lru = [];
  next_id = 0;
}

-- c.items[k]
unfoldable pub lookup : Bytes → List (Bytes × ℕ) → Option ℕ
lookup k [] = none
lookup k ((j, p) ∷ m) = if same j k then some p else lookup k m

-- delete(c.items, k)
unfoldable pub delete : Bytes → List (Bytes × ℕ) → List (Bytes × ℕ)
delete k [] = []
delete k ((j, p) ∷ m) = let rest = delete k m in if same j k then rest else (j, p) ∷ rest

-- The element that a pointer leads to.
unfoldable pub find_element : ℕ → List Element → Option Element
find_element p [] = none
find_element p (e ∷ l) = if e.id == p then some e else find_element p l

-- c.lru.Remove(element)
unfoldable pub unlink : ℕ → List Element → List Element
unlink p [] = []
unlink p (e ∷ l) = if e.id == p then l else e ∷ unlink p l

-- c.lru.Back()
unfoldable pub back : List Element → Option Element
back [] = none
back (e ∷ []) = some e
back (e ∷ f ∷ l) = back (f ∷ l)

-- c.lru.MoveToFront(element)
unfoldable pub move_to_front : Element → List Element → List Element
unfolding unlink
move_to_front e l = e ∷ unlink e.id l

unfoldable pub enabled : Cache → Bool
enabled c = lt_ℤ (pos 0) c.max_bytes

unfoldable pub can_store : Cache → ℤ → Bool
unfolding enabled
can_store c size =
    if not (enabled c) || lt_ℤ size (pos 0) || lt_ℤ c.max_bytes size
    then false
    else le_ℤ c.max_object_bytes (pos 0) || le_ℤ size c.max_object_bytes

unfoldable pub remove_element : Element → Cache → Cache
unfolding delete unlink
remove_element e c = record c {
  items = delete e.key c.items;
  used_bytes = sub64 c.used_bytes (pos (length e.value));
  lru = unlink e.id c.lru;
}

unfoldable pub remove_oldest : Cache → Cache
unfolding remove_element back
remove_oldest c = elim (back c.lru) [ none ↦ c | some e ↦ remove_element e c ]

-- `for c.usedBytes > c.maxBytes { c.removeOldest() }` with fuel; `none`: the fuel ran out.
unfoldable pub shrink : ℕ → Cache → Option Cache
unfolding remove_oldest
shrink zero c = none
shrink (suc f) c =
    let rest = shrink f (remove_oldest c) in if lt_ℤ c.max_bytes c.used_bytes then rest else some c

-- The entry that Add replaces is removed first.
unfoldable pub drop_existing : Bytes → Cache → Cache
unfolding lookup find_element remove_element
drop_existing key c = elim (lookup key c.items) [
  | none ↦ c
  | some p ↦ elim (find_element p c.lru) [ none ↦ c | some e ↦ remove_element e c ]
]

unfoldable pub push_front : Bytes → Bytes → Cache → Cache
unfolding delete
push_front key copied c = record c {
  lru = record { id = c.next_id; key = key; value = copied } ∷ c.lru;
  items = (key, c.next_id) ∷ delete key c.items;
  used_bytes = add64 c.used_bytes (pos (length copied));
  next_id = suc c.next_id;
}

-- Add; the fuel is one round for each element and one more.
unfoldable pub add : Bytes → Bytes → Cache → Option (Cache × Bool)
unfolding can_store drop_existing push_front shrink
add key value c =
    let pushed = push_front key value (drop_existing key c) in
    if not (can_store c (pos (length value)))
    then some (c, false)
    else elim (shrink (suc (length pushed.lru)) pushed) [ none ↦ none | some d ↦ some (d, true) ]

-- Get
unfoldable pub get : Bytes → Cache → Cache × Option Bytes
unfolding enabled lookup find_element move_to_front
get key c = if not (enabled c) then (c, none) else elim (lookup key c.items) [
  | none ↦ (record c { misses = inc64 c.misses }, none)
  | some p ↦ elim (find_element p c.lru) [
    | none ↦ (record c { hits = inc64 c.hits }, none)
    | some e ↦ (record c { hits = inc64 c.hits; lru = move_to_front e c.lru }, some e.value)
  ]
]

-- Has
unfoldable pub has : Bytes → Cache → Bool
unfolding enabled lookup
has key c =
    if not (enabled c) then false else elim (lookup key c.items) [ none ↦ false | some p ↦ true ]

-- Stats
unfoldable pub stats : Cache → Stats
stats c = record {
  entries = length c.items;
  used_bytes = c.used_bytes;
  max_bytes = c.max_bytes;
  max_object_bytes = c.max_object_bytes;
  hits = c.hits;
  misses = c.misses;
}
