-- ===== src/Cache/Runs.antt =====
-- Any sequence of calls on a new cache.
use vaps.Base.{
  ℕ, zero, suc, ◌^◌, ◌≤◌, ◌<◌, ◌≡◌, refl, sym, ap, ◌∙◌, false, inl, inr, Option, none, some, List,
  [], ◌∷◌, length, arith, Bool-cases,
}
use vaps.Text.{Bytes}
use vaps.Int64.{ℤ, pos}
use vaps.Cache.{Cache, new, add, get, can_store, stats, enabled, lookup}
use vaps.Cache.Elements.{find_key, total}
use vaps.Cache.Lru.{view, size, size-entries_of, length-entries_of}
use vaps.Cache.Invariant.{Inv}
use vaps.Cache.Refine.{add-Added, get-Got}

pub data Call : Type 0 where
  adds : Bytes → Bytes → Call
  gets : Bytes → Call

unfoldable pub step : Call → Cache → Option Cache
step (adds key value) c = elim (add key value c) [ none ↦ none | some (d, stored) ↦ some d ]
step (gets key) c = some (get key c).0

unfoldable pub run : List Call → Cache → Option Cache
unfolding step
run [] c = some c
run (o ∷ os) c = elim (step o c) [ none ↦ none | some d ↦ run os d ]

pub new-Inv : (m : ℕ) (o : ℤ) → Inv m (new (pos m) o)
unfolding lookup find_key
new-Inv m o = record {
  budget = refl;
  used = refl;
  fresh = tt;
  distinct = tt;
  sync = λ k. refl;
  unique = tt;
  count = refl;
}

-- A cache that keeps its invariant and its limit.
pub record Sound (m : ℕ) (c : Cache) : Type 0 where
  pub inv : Inv m c
  pub bounded : total c.lru ≤ m

-- The state that a call or a sequence of calls leads to.
pub record Reaches (m : ℕ) (o : Option Cache) : Type 0 where
  pub result : Cache
  pub returns : o ≡ some result
  pub sound : Sound m result

add_refused :
    (key value : Bytes) (c : Cache)
    → can_store c (pos (length value)) ≡ false
    → add key value c ≡ some (c, false)
unfolding add
add_refused key value c h = rw h refl

get_off : (key : Bytes) (c : Cache) → enabled c ≡ false → (get key c).0 ≡ c
unfolding get
get_off key c h = rw h refl

step-Reaches : (m : ℕ) → m < 2 ^ 62 → (o : Call) (c : Cache) → Sound m c → Reaches m (step o c)
unfolding step
step-Reaches m small (adds key value) c s = elim (Bool-cases (can_store c (pos (length value)))) [
  | inl fits ↦
      let a = add-Added m small key value c s.inv s.bounded fits in
      rw (a.runs, step)
        (record {
          result = a.result;
          returns = refl;
          sound = record { inv = a.inv; bounded = a.bounded };
        })
  | inr refused ↦
      rw (add_refused key value c refused, step) (record { result = c; returns = refl; sound = s })
]
step-Reaches zero small (gets key) c s = record {
  result = (get key c).0;
  returns = refl;
  sound = rw (get_off key c (unfold enabled in rw (s.inv.budget) refl)) s;
}
step-Reaches (suc m) small (gets key) c s =
    let g = get-Got (suc m) key c (omega arith) s.inv in
    record {
      result = (get key c).0;
      returns = refl;
      sound = record { inv = g.inv; bounded = omega (arith, g.same_size, s.bounded) };
    }

run-Reaches : (m : ℕ) → m < 2 ^ 62 → (os : List Call) (c : Cache) → Sound m c → Reaches m (run os c)
unfolding run
run-Reaches m small [] c s = record { result = c; returns = refl; sound = s }
run-Reaches m small (o ∷ os) c s =
    let r = step-Reaches m small o c s in
    rw (r.returns, run) (run-Reaches m small os r.result r.sound)

-- From a new cache with a limit below 2^62 bytes every sequence of Add and Get calls comes to an
-- end; the reported bytes are then the sum of the sizes of the cached values and within the limit,
-- and the reported entries are as many as are cached.
pub run-stats :
    (m : ℕ) (o : ℤ) (os : List Call)
    → m < 2 ^ 62
    → (c : Cache) × (run os (new (pos m) o) ≡ some c)
      × ((stats c).used_bytes ≡ pos (size (view c)))
      × (size (view c) ≤ m)
      × ((stats c).entries ≡ length (view c))
unfolding stats
run-stats m o os small =
    let r =
      run-Reaches m small os (new (pos m) o)
        (record { inv = new-Inv m o; bounded = omega arith }) in
    (
      r.result,
      r.returns,
      r.sound.inv.used ∙ ap pos (sym (size-entries_of r.result.lru)),
      omega (arith, size-entries_of r.result.lru, r.sound.bounded),
      r.sound.inv.count ∙ sym (length-entries_of r.result.lru),
    )
