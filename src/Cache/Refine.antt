-- ===== src/Cache/Refine.antt =====
-- Add and Get implement the list of `Lru`, and keep the invariant and the byte limit.
use vaps.Base.{
  ℕ, zero, suc, ◌+◌, ◌%◌, ◌^◌, ◌≤◌, ◌<◌, ◌≡◌, refl, sym, ap, subst, ◌∙◌, true, inl, inr, Option,
  none, some, List, [], ◌∷◌, length, arith, Bool-cases, Option-cases, ltb,
}
use vaps.Text.{Bytes, same→eq}
use vaps.Int64.{pos, lt_ℤ}
use vaps.Cache.{
  Cache, Element, lookup, unlink, back, remove_element, drop_existing, push_front, remove_oldest,
  shrink, can_store, enabled, add, get, move_to_front, inc64,
}
use vaps.Cache.Elements.{
  find_key, pointer, total, Linked, length-unlink, total-unlink, Linked-find_key, Linked-back,
  key-find_key, All-Linked, find_key-Linked, All-unlink, unlink-Distinct, find_key-unlink,
  Apart-unlink,
}
use vaps.Cache.Lru.{
  entries_of, view, find_value, without, keep_recent, promote, find_value-entries_of,
  without-absent, without-unlink, keep_recent_all, keep_recent-back,
}
use vaps.Cache.Invariant.{Inv, remove_element-Inv, push_front-Inv, Dropped, drop_existing-Dropped}

-- The loop of Add came to its end, and kept what fits.
pub record Shrunk (m f : ℕ) (c : Cache) : Type 0 where
  pub result : Cache
  pub runs : shrink f c ≡ some result
  pub inv : Inv m result
  pub bounded : total result.lru ≤ m
  pub kept : view result ≡ keep_recent m (view c)

back-none : (l : List Element) → back l ≡ none → l ≡ []
unfolding back
back-none [] h = refl
back-none (x ∷ []) h = absurd (ground arith)
back-none (x ∷ y ∷ l) h = absurd (ground (arith, back-none (y ∷ l) h))

remove_oldest-back :
    (c : Cache) (e : Element) → back c.lru ≡ some e → remove_oldest c ≡ remove_element e c
unfolding remove_oldest
remove_oldest-back c e b = ground arith

shrink_step :
    (f : ℕ) (c : Cache) (e : Element)
    → lt_ℤ c.max_bytes c.used_bytes ≡ true
    → back c.lru ≡ some e
    → shrink (suc f) c ≡ shrink f (remove_element e c)
shrink_step f c e h b = unfold shrink in rw (h) (ap (shrink f) (remove_oldest-back c e b))

over_budget : (m : ℕ) (c : Cache) → Inv m c → m < total c.lru → lt_ℤ c.max_bytes c.used_bytes ≡ true
over_budget m c v h = rw (v.budget, v.used) (ground arith)

shrink_evicts :
    (m f : ℕ) (c : Cache) (e : Element)
    → (v : Inv m c) → m < total c.lru
    → back c.lru ≡ some e
    → Shrunk m f (remove_element e c)
    → Shrunk m (suc f) c
shrink_evicts m f c e v h b s = record {
  result = s.result;
  runs = shrink_step f c e (over_budget m c v h) b ∙ s.runs;
  inv = s.inv;
  bounded = s.bounded;
  kept = s.kept ∙ (unfold remove_element in keep_recent-back e m c.lru v.distinct b h);
}

pub shrink-Shrunk :
    (m f : ℕ) (c : Cache) → Inv m c → total c.lru < 2 ^ 63 → length c.lru < f → Shrunk m f c
shrink-Shrunk m zero c v fits h = absurd (omega arith)
shrink-Shrunk m (suc f) c v fits h = elim (Bool-cases (ltb m (total c.lru))) [
  | inl over ↦ elim (Option-cases (back c.lru)) [
    | inl e ↦ absurd (ground (arith, back-none c.lru e))
    | inr (e, b) ↦
        let linked = Linked-back e c.lru v.distinct b in
        shrink_evicts m f c e v (ground arith) b (
          shrink-Shrunk m f (remove_element e c) (remove_element-Inv m c v fits e linked)
            (unfold remove_element in omega (arith, total-unlink e.id e c.lru linked))
            (unfold remove_element in omega (arith, length-unlink e.id e c.lru linked)))
  ]
  | inr fine ↦ record {
    result = c;
    runs = unfold shrink in rw (v.budget, v.used) (ground arith);
    inv = v;
    bounded = ground arith;
    kept = sym (keep_recent_all m c.lru (ground arith));
  }
]

can_store-le : (m n : ℕ) (c : Cache) → c.max_bytes ≡ pos m → can_store c (pos n) ≡ true → n ≤ m
unfolding can_store
can_store-le m n c b h = ground arith

view-Dropped :
    (m : ℕ) (key : Bytes) (c d : Cache)
    → Inv m c
    → Dropped m key c d
    → view d ≡ without key (view c)
view-Dropped m key c d v r = elim r.lru [
  | inl (absent, same_lru) ↦ ap entries_of same_lru ∙ sym (without-absent key c.lru absent)
  | inr (e, found, gone) ↦
      ap entries_of gone
      ∙ sym (
          subst (λ k. without k (view c) ≡ entries_of (unlink e.id c.lru))
            (key-find_key key e c.lru found)
            (without-unlink e.id e c.lru v.distinct (Linked-find_key key e c.lru v.distinct found)))
]

-- What a successful Add leaves: the new entry in front of the others, without an older entry of its
-- key, and of that list the longest part that fits.
pub record Added (m : ℕ) (key value : Bytes) (c : Cache) : Type 0 where
  pub result : Cache
  pub runs : add key value c ≡ some (result, true)
  pub inv : Inv m result
  pub bounded : total result.lru ≤ m
  pub entries : view result ≡ keep_recent m ((key, value) ∷ without key (view c))

module _ (m : ℕ) (small : m < 2 ^ 62) (key value : Bytes) (c : Cache) (v : Inv m c) where
  Added-of_parts :
      (d : Cache)
      → Dropped m key c d
      → can_store c (pos (length value)) ≡ true
      → d ≡ drop_existing key c
      → Shrunk m (suc (length (push_front key value d).lru)) (push_front key value d)
      → Added m key value c
  Added-of_parts d r h e s = record {
    result = s.result;
    runs = unfold add in rw (h, ← e, s.runs) refl;
    inv = s.inv;
    bounded = s.bounded;
    entries =
        s.kept
        ∙ (unfold push_front in
            ap (λ r. keep_recent m ((key, value) ∷ r)) (view-Dropped m key c d v r));
  }

  -- For a limit below 2^62, Add of a value that the limits admit, on a cache that keeps its
  -- invariant and its limit, comes to an end and succeeds, keeps both, and leaves as entries the
  -- new one in front of the others without an older one of its key, cut behind the longest part
  -- that fits.
  pub add-Added : total c.lru ≤ m → can_store c (pos (length value)) ≡ true → Added m key value c
  add-Added fits h = Added-of_parts (drop_existing key c) r h refl (
      shrink-Shrunk m _ (push_front key value (drop_existing key c))
        (push_front-Inv m (drop_existing key c) key value r.inv r.absent
          (omega (arith, r.smaller, value_le)))
        (unfold push_front in omega (arith, r.smaller, value_le)) (omega arith))
    where
      value_le : length value ≤ m
      value_le = can_store-le m (length value) c v.budget h

      r : Dropped m key c (drop_existing key c)
      r = drop_existing-Dropped m key c v (omega arith)

move_to_front-Inv :
    (m : ℕ) (c : Cache) (e : Element) (h : ℕ)
    → Inv m c
    → Linked e.id c.lru e
    → Inv m (record c { hits = h; lru = move_to_front e c.lru })
unfolding move_to_front find_key
move_to_front-Inv m c e h v l = record {
  budget = v.budget;
  used = rw v.used (ap pos (omega (arith, total-unlink e.id e c.lru l)));
  fresh = (
    All-Linked (λ x. x.id < c.next_id) e.id c.lru e v.fresh l,
    All-unlink (λ x. x.id < c.next_id) e.id c.lru v.fresh,
  );
  distinct = (Apart-unlink e c.lru v.distinct l, unlink-Distinct e.id c.lru v.distinct);
  sync = λ k.
      rw (v.sync k, find_key-unlink e.id e k c.lru v.distinct l)
        (ground (arith, find_key-Linked e.id e c.lru v.distinct l, same→eq e.key k));
  unique = v.unique;
  count = omega (arith, v.count, length-unlink e.id e c.lru l);
}

-- What Get gives and leaves.
pub record Got (m : ℕ) (key : Bytes) (c d : Cache) (found : Option Bytes) : Type 0 where
  pub answer : found ≡ find_value key (view c)
  pub entries : view d ≡ promote key (view c)
  pub inv : Inv m d
  pub same_size : total d.lru ≡ total c.lru
  pub counted : (d.hits + d.misses) % 2 ^ 64 ≡ (c.hits + c.misses + 1) % 2 ^ 64

get-miss :
    (key : Bytes) (c : Cache)
    → enabled c ≡ true
    → lookup key c.items ≡ none
    → get key c ≡ (record c { misses = inc64 c.misses }, none)
unfolding get
get-miss key c on h = rw (on, h) refl

get-hit :
    (key : Bytes) (c : Cache) (e : Element)
    → enabled c ≡ true
    → lookup key c.items ≡ some e.id
    → Linked e.id c.lru e
    → get key c ≡ (record c { hits = inc64 c.hits; lru = move_to_front e c.lru }, some e.value)
get-hit key c e on h l = unfold get in rw (on, h, l) refl

enabled_of_budget : (m : ℕ) (c : Cache) → 0 < m → c.max_bytes ≡ pos m → enabled c ≡ true
unfolding enabled
enabled_of_budget m c h b = rw b (ground arith)

get-absent :
    (m : ℕ) (key : Bytes) (c : Cache)
    → Inv m c
    → find_key key c.lru ≡ none
    → Got m key c (record c { misses = inc64 c.misses }) none
unfolding promote
get-absent m key c v e = record {
  answer = rw (find_value-entries_of key c.lru, e) refl;
  entries = rw (promote, find_value-entries_of key c.lru, e) refl;
  inv = record {
    budget = v.budget;
    used = v.used;
    fresh = v.fresh;
    distinct = v.distinct;
    sync = v.sync;
    unique = v.unique;
    count = v.count;
  };
  same_size = refl;
  counted = omega arith;
}

get-present :
    (m : ℕ) (key : Bytes) (c : Cache) (e : Element)
    → Inv m c
    → find_key key c.lru ≡ some e
    → Got m key c (record c { hits = inc64 c.hits; lru = move_to_front e c.lru }) (some e.value)
unfolding promote
get-present m key c e v f = record {
  answer = rw (find_value-entries_of key c.lru, f) refl;
  entries =
      rw (promote, find_value-entries_of key c.lru, f)
        (unfold move_to_front in
          ap (◌∷◌ (e.key, e.value)) (sym (without-unlink e.id e c.lru v.distinct l))
          ∙ ap (λ k. (k, e.value) ∷ without k (view c)) (key-find_key key e c.lru f));
  inv = move_to_front-Inv m c e (inc64 c.hits) v l;
  same_size = unfold move_to_front in omega (arith, total-unlink e.id e c.lru l);
  counted = omega arith;
}
  where
    l : Linked e.id c.lru e
    l = Linked-find_key key e c.lru v.distinct f

-- Get of an enabled cache that keeps its invariant answers with the value stored for the key, if
-- there is one, moves that entry to the front and changes no other, keeps the invariant, and
-- counts one hit or one miss.
pub get-Got :
    (m : ℕ) (key : Bytes) (c : Cache) → 0 < m → Inv m c → Got m key c (get key c).0 (get key c).1
get-Got m key c positive v = elim (Option-cases (find_key key c.lru)) [
  | inl e ↦ rw (get-miss key c on (v.sync key ∙ ap pointer e)) (get-absent m key c v e)
  | inr (x, e) ↦
      rw (get-hit key c x on (v.sync key ∙ ap pointer e) (Linked-find_key key x c.lru v.distinct e))
        (get-present m key c x v e)
]
  where
    on : enabled c ≡ true
    on = enabled_of_budget m c positive v.budget
