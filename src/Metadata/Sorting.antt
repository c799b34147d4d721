-- ===== src/Metadata/Sorting.antt =====
-- The order of query results.
use vaps.Base.{
  ℕ, ◌≤◌, none, some, Option-cases, ◌≡◌, refl, Bool, true, false, not, List, [], ◌∷◌, arith,
}
use mathlib.Core.List.{Perm}
use vaps.Text.{Bytes, same, codes}
use vaps.Int64.{◌≤ℤ◌, eq_ℤ}
use vaps.Sorting.{Ordered, Chain, Ordered-Chain, sort_stable-Ordered, sort_stable-perm}
use vaps.Metadata.{Payload, payload_less, lt_bytes, sort_payloads, by_size, by_created, by_hash}

lt_bytes_asym : (s t : Bytes) → lt_bytes s t ≡ true → lt_bytes t s ≡ false
unfolding lt_bytes
lt_bytes_asym s [] h = absurd (ground arith)
lt_bytes_asym [] (d ∷ t) h = refl
lt_bytes_asym (c ∷ s) (d ∷ t) h = ground (arith, lt_bytes_asym s t)

by_hash_asym : (desc : Bool) (a b : Payload) → by_hash desc a b ≡ true → by_hash desc b a ≡ false
by_hash_asym true a b h = lt_bytes_asym b.hash a.hash h
by_hash_asym false a b h = lt_bytes_asym a.hash b.hash h

by_size_asym : (desc : Bool) (a b : Payload) → by_size desc a b ≡ true → by_size desc b a ≡ false
by_size_asym desc a b h = ground (arith, by_hash_asym desc a b)

by_created_asym :
    (desc : Bool) (a b : Payload) → by_created desc a b ≡ true → by_created desc b a ≡ false
by_created_asym desc a b h = ground (arith, by_hash_asym desc a b)

pub payload_less_asym :
    (sort_by sort_order : Bytes) (a b : Payload)
    → payload_less sort_by sort_order a b ≡ true
    → payload_less sort_by sort_order b a ≡ false
unfolding payload_less
payload_less_asym sort_by sort_order a b h = ground (
  arith,
  by_size_asym (not (same sort_order (codes "asc"))) a b,
  by_created_asym (not (same sort_order (codes "asc"))) a b,
)

-- `a` may stand before `b` in the order of the sizes, equal ones in the order of the hashes.
pub record BySize (desc : Bool) (a b : Payload) : Type 0 where
  pub ascending : desc ≡ false → a.size ≤ℤ b.size
  pub descending : desc ≡ true → b.size ≤ℤ a.size
  pub hashes_up : desc ≡ false → eq_ℤ a.size b.size ≡ true → lt_bytes b.hash a.hash ≡ false
  pub hashes_down : desc ≡ true → eq_ℤ a.size b.size ≡ true → lt_bytes a.hash b.hash ≡ false

-- `a` may stand before `b` in the order of the times of creation, with those without one at the end.
pub record ByCreated (desc : Bool) (a b : Payload) : Type 0 where
  pub missing_last : a.created_at ≡ none → b.created_at ≡ none
  pub ascending : desc ≡ false → (s t : ℕ) → a.created_at ≡ some s → b.created_at ≡ some t → s ≤ t
  pub descending : desc ≡ true → (s t : ℕ) → a.created_at ≡ some s → b.created_at ≡ some t → t ≤ s

by_size-BySize : (desc : Bool) (a b : Payload) → by_size desc b a ≡ false → BySize desc a b
by_size-BySize desc a b h = record {
  ascending = λ e. ground arith;
  descending = λ e. ground arith;
  hashes_up = λ e k. ground arith;
  hashes_down = λ e k. ground arith;
}

by_created-ByCreated :
    (desc : Bool) (a b : Payload) → by_created desc b a ≡ false → ByCreated desc a b
by_created-ByCreated desc a b h = record {
  missing_last = λ e. ground (arith, Option-cases b.created_at);
  ascending = λ e s t k l. ground arith;
  descending = λ e s t k l. ground arith;
}

sorted :
    (sort_by sort_order : Bytes) (l : List Payload)
    → Ordered (payload_less sort_by sort_order) (sort_payloads sort_by sort_order l)
unfolding sort_payloads
sorted sort_by sort_order l =
    sort_stable-Ordered (payload_less sort_by sort_order) (payload_less_asym sort_by sort_order) l

size_asc :
    (a b : Payload) → payload_less (codes "size") (codes "asc") b a ≡ false → BySize false a b
unfolding payload_less same
size_asc a b h = by_size-BySize false a b h

size_desc :
    (a b : Payload) → payload_less (codes "size") (codes "desc") b a ≡ false → BySize true a b
unfolding payload_less same
size_desc a b h = by_size-BySize true a b h

created_asc :
    (a b : Payload) → payload_less (codes "created") (codes "asc") b a ≡ false → ByCreated false a b
unfolding payload_less same
created_asc a b h = by_created-ByCreated false a b h

created_desc :
    (a b : Payload) → payload_less (codes "created") (codes "desc") b a ≡ false → ByCreated true a b
unfolding payload_less same
created_desc a b h = by_created-ByCreated true a b h

-- sortPayloads, for each field and direction that normalizePayloadSort gives, puts the payloads in
-- the order of the sizes, up or down and with equal ones in the order of the hashes, or of the
-- times of creation, up or down and with those without one at the end; the entries are those
-- given, each as often.
pub sort_payloads-Ordered :
    (l : List Payload)
    → Chain (BySize false) (sort_payloads (codes "size") (codes "asc") l)
      × Chain (BySize true) (sort_payloads (codes "size") (codes "desc") l)
      × Chain (ByCreated false) (sort_payloads (codes "created") (codes "asc") l)
      × Chain (ByCreated true) (sort_payloads (codes "created") (codes "desc") l)
      × ((sort_by sort_order : Bytes) → Perm (sort_payloads sort_by sort_order l) l)
sort_payloads-Ordered l = (
  Ordered-Chain _ (BySize false) size_asc _ (sorted (codes "size") (codes "asc") l),
  Ordered-Chain _ (BySize true) size_desc _ (sorted (codes "size") (codes "desc") l),
  Ordered-Chain _ (ByCreated false) created_asc _ (sorted (codes "created") (codes "asc") l),
  Ordered-Chain _ (ByCreated true) created_desc _ (sorted (codes "created") (codes "desc") l),
  λ sort_by sort_order.
      unfold sort_payloads in sort_stable-perm (payload_less sort_by sort_order) l,
)
