-- ===== src/Cache/Invariant.antt =====
-- The invariant of the cache: the map and the list agree, and `used_bytes` is the sum of the sizes.
use vaps.Base.{
  ℕ, suc, ◌+◌, ◌^◌, ◌≤◌, ◌<◌, ◌≡◌, refl, sym, ap, ◌∙◌, ◌⊎◌, inl, inr, Option, none, some, List, [],
  ◌∷◌, length, All, arith, Option-cases,
}
use vaps.Text.{Bytes, same→eq, same_refl}
use vaps.Int64.{pos}
use vaps.Int64.Laws.{add64-pos, sub64-pos}
use vaps.Cache.{Cache, Element, lookup, unlink, remove_element, drop_existing, push_front}
use vaps.Cache.Elements.{
  find_key, pointer, total, Apart, Distinct, Below, Unique, Linked, lookup-delete, delete-Unique,
  delete-lookup-none, absent-delete, length-delete, All-unlink, unlink-Distinct, total-unlink,
  length-unlink, find_key-Linked, find_key-unlink, Linked-find_key, key-find_key,
}

pub record Inv (m : ℕ) (c : Cache) : Type 0 where
  pub budget : c.max_bytes ≡ pos m
  pub used : c.used_bytes ≡ pos (total c.lru)
  pub fresh : Below c.next_id c.lru
  pub distinct : Distinct c.lru
  pub sync : (k : Bytes) → lookup k c.items ≡ pointer (find_key k c.lru)
  pub unique : Unique c.items
  pub count : length c.items ≡ length c.lru

module _ (m : ℕ) (c : Cache) (v : Inv m c) (fits : total c.lru < 2 ^ 63) where
  pub remove_element-Inv : (e : Element) → Linked e.id c.lru e → Inv m (remove_element e c)
  unfolding remove_element
  remove_element-Inv e h = record {
    budget = v.budget;
    used = rw v.used (
        sub64-pos (total c.lru) (length e.value) fits (omega (arith, total-unlink e.id e c.lru h))
        ∙ ap pos (omega (arith, total-unlink e.id e c.lru h)));
    fresh = All-unlink (λ x. x.id < c.next_id) e.id c.lru v.fresh;
    distinct = unlink-Distinct e.id c.lru v.distinct;
    sync = λ k.
        rw (lookup-delete k e.key c.items, find_key-unlink e.id e k c.lru v.distinct h, v.sync k)
          (ground arith);
    unique = delete-Unique e.key c.items v.unique;
    count = omega (
      arith,
      length-delete e.key e.id c.items v.unique
          (v.sync e.key ∙ ap pointer (find_key-Linked e.id e c.lru v.distinct h)),
      length-unlink e.id e c.lru h,
      v.count,
    );
  }

absent-Apart :
    (e : Element) (l : List Element) → find_key e.key l ≡ none → Below e.id l → All (Apart e) l
unfolding find_key
absent-Apart e [] h b = tt
absent-Apart e (x ∷ l) h b = (
  (ground (arith, same→eq e.key x.key, same_refl e.key), ground (arith, b.0)),
  absent-Apart e l (ground arith) b.1,
)

Below-suc : (n : ℕ) (l : List Element) → Below n l → Below (suc n) l
Below-suc n [] b = tt
Below-suc n (x ∷ l) b = (omega (arith, b.0), Below-suc n l b.1)

pointer-none : (o : Option Element) → pointer o ≡ none → o ≡ none
pointer-none none h = refl
pointer-none (some e) h = absurd (ground arith)

pub push_front-Inv :
    (m : ℕ) (c : Cache) (key value : Bytes)
    → Inv m c
    → lookup key c.items ≡ none
    → total c.lru + length value < 2 ^ 63
    → Inv m (push_front key value c)
unfolding push_front find_key lookup
push_front-Inv m c key value v absent fits = record {
  budget = v.budget;
  used = rw v.used (add64-pos (total c.lru) (length value) fits ∙ ap pos (omega arith));
  fresh = (omega arith, Below-suc c.next_id c.lru v.fresh);
  distinct = (
    absent-Apart (record { id = c.next_id; key = key; value = value }) c.lru
        (pointer-none _ (sym (v.sync key) ∙ absent)) v.fresh,
    v.distinct,
  );
  sync = λ k. rw (delete-lookup-none key c.items absent, v.sync k) (ground arith);
  unique = (absent-delete key c.items, delete-Unique key c.items v.unique);
  count = rw (delete-lookup-none key c.items absent) (ap suc v.count);
}

-- After Add removed the old entry, no entry has the key, and no bytes were added.
pub record Dropped (m : ℕ) (key : Bytes) (c d : Cache) : Type 0 where
  pub inv : Inv m d
  pub absent : lookup key d.items ≡ none
  pub smaller : total d.lru ≤ total c.lru
  pub lru :
      (find_key key c.lru ≡ none) × (d.lru ≡ c.lru)
      ⊎ ((e : Element) × (find_key key c.lru ≡ some e) × (d.lru ≡ unlink e.id c.lru))

pub drop_existing-Dropped :
    (m : ℕ) (key : Bytes) (c : Cache)
    → Inv m c
    → total c.lru < 2 ^ 63
    → Dropped m key c (drop_existing key c)
unfolding drop_existing
drop_existing-Dropped m key c v fits = elim (Option-cases (find_key key c.lru)) [
  | inl e ↦
      rw (v.sync key, e, drop_existing)
        (record {
          inv = v;
          absent = v.sync key ∙ ap pointer e;
          smaller = omega arith;
          lru = inl (e, refl);
        })
  | inr (x, e) ↦
      rw (v.sync key, e, drop_existing, Linked-find_key key x c.lru v.distinct e)
        (record {
          inv = remove_element-Inv m c v fits x (Linked-find_key key x c.lru v.distinct e);
          absent =
              rw (lookup-delete key x.key c.items, key-find_key key x c.lru e, same_refl key) refl;
          smaller =
              omega (arith, total-unlink x.id x c.lru (Linked-find_key key x c.lru v.distinct e));
          lru = inr (x, e, refl);
        })
]
