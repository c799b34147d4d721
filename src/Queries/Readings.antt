-- ===== src/Queries/Readings.antt =====
-- What the parts of parseMetadataQuery read.
use vaps.Base.{
  ◌≡◌, ◌⊎◌, inl, inr, refl, ◌∙◌, ◌||◌, if◌then◌else◌, true, false, Option, none, some, List, [],
  ◌∷◌, arith, Bool-cases, Option-cases,
}
use vaps.Text.{Bytes, same, same→eq, codes, trim_space, to_lower}
use vaps.Int64.{ℤ, pos, lt_ℤ, le_ℤ, parse_int}
use vaps.Metadata.{PayloadQuery}
use vaps.Queries.{
  Result, ok, err, Values, value_of, or_default, reversed, parse_non_negative, optional_number,
  apply_status, apply_statuses, apply_backup, parse_backup_filter, choose, read_page, read_sizes,
}

pub query-cases : {A : Type 0} (r : Result A) → ((e : Bytes) × (r ≡ err e)) ⊎ ((a : A) × (r ≡ ok a))
query-cases (err e) = inl (e, refl)
query-cases (ok a) = inr (a, refl)

-- A number that was read is not negative.
parse_non_negative-low :
    (value name : Bytes) (n : ℤ) → parse_non_negative value name ≡ ok n → le_ℤ (pos 0) n ≡ true
unfolding parse_non_negative
parse_non_negative-low value name n h = elim (Option-cases (parse_int (trim_space value))) [
  | inl e ↦ absurd (ground arith)
  | inr (m, e) ↦ elim (Bool-cases (lt_ℤ m (pos 0))) [
    | inl k ↦ absurd (ground arith)
    | inr k ↦ ground arith
  ]
]

optional_number-low :
    (name : Bytes) (values : Values) (n : ℤ)
    → optional_number name values ≡ ok (some n)
    → le_ℤ (pos 0) n ≡ true
unfolding optional_number
optional_number-low name values n h =
    elim (query-cases (parse_non_negative (value_of name values) name)) [
      | inl (e, q) ↦ absurd (ground arith)
      | inr (m, q) ↦ parse_non_negative-low (value_of name values) name n (ground arith)
    ]

clamped :
    (n : ℤ) → le_ℤ (pos 0) n ≡ true → le_ℤ (pos 0) (if lt_ℤ (pos 500) n then pos 500 else n) ≡ true
clamped n h = elim (Bool-cases (lt_ℤ (pos 500) n)) [ inl k ↦ rw k refl | inr k ↦ rw k h ]

clamped_high : (n : ℤ) → le_ℤ (if lt_ℤ (pos 500) n then pos 500 else n) (pos 500) ≡ true
clamped_high n = elim (Bool-cases (lt_ℤ (pos 500) n)) [
  | inl k ↦ rw k refl
  | inr k ↦ rw k (ground arith)
]

default-low :
    (name : Bytes) (values : Values) (d : ℤ) (o : Option ℤ)
    → le_ℤ (pos 0) d ≡ true
    → optional_number name values ≡ ok o
    → le_ℤ (pos 0) (or_default d o) ≡ true
default-low name values d none h k = h
default-low name values d (some n) h k = optional_number-low name values n k

pub read_page-bounds :
    (values : Values) (limit offset : ℤ)
    → read_page values ≡ ok (limit, offset)
    → (le_ℤ (pos 0) limit ≡ true) × (le_ℤ limit (pos 500) ≡ true) × (le_ℤ (pos 0) offset ≡ true)
unfolding read_page
read_page-bounds values limit offset h =
    elim (query-cases (optional_number (codes "limit") values)) [
      | inl (e, q) ↦ absurd (ground arith)
      | inr (given, q) ↦ elim (query-cases (optional_number (codes "offset") values)) [
        | inl (e, k) ↦ absurd (ground arith)
        | inr (o, k) ↦
            let l = or_default (pos 100) given in
            let low = default-low (codes "limit") values (pos 100) given refl q in
            ground (
              arith,
              clamped l low,
              clamped_high l,
              default-low (codes "offset") values (pos 0) o refl k,
            )
      ]
    ]

pub read_sizes-in_order :
    (values : Values) (low high : Option ℤ)
    → read_sizes values ≡ ok (low, high)
    → reversed low high ≡ false
unfolding read_sizes
read_sizes-in_order values low high h =
    elim (query-cases (optional_number (codes "min_size") values)) [
      | inl (e, q) ↦ absurd (ground arith)
      | inr (l, q) ↦ elim (query-cases (optional_number (codes "max_size") values)) [
        | inl (e, k) ↦ absurd (ground arith)
        | inr (g, k) ↦ elim (Bool-cases (reversed l g)) [
          | inl c ↦ absurd (ground arith)
          | inr c ↦ ground arith
        ]
      ]
    ]

pub sizes_in_order :
    (l g : Option ℤ) (low high : ℤ)
    → reversed l g ≡ false
    → l ≡ some low
    → g ≡ some high
    → le_ℤ low high ≡ true
sizes_in_order l g low high h i j = ground arith

-- The filters change none of the fields of the page.
pub record SamePage (p q : PayloadQuery) : Type 0 where
  pub same_limit : q.limit ≡ p.limit
  pub same_offset : q.offset ≡ p.offset
  pub same_low : q.min_size ≡ p.min_size
  pub same_high : q.max_size ≡ p.max_size

SamePage-refl : (p : PayloadQuery) → SamePage p p
SamePage-refl p = record {
  same_limit = refl;
  same_offset = refl;
  same_low = refl;
  same_high = refl;
}

pub SamePage-trans : (p q r : PayloadQuery) → SamePage p q → SamePage q r → SamePage p r
SamePage-trans p q r s t = record {
  same_limit = t.same_limit ∙ s.same_limit;
  same_offset = t.same_offset ∙ s.same_offset;
  same_low = t.same_low ∙ s.same_low;
  same_high = t.same_high ∙ s.same_high;
}

pub SamePage-intro :
    (p q : PayloadQuery)
    → (q.limit ≡ p.limit)
      × (q.offset ≡ p.offset)
      × (q.min_size ≡ p.min_size)
      × (q.max_size ≡ p.max_size)
    → SamePage p q
SamePage-intro p q (a, b, c, d) = record {
  same_limit = a;
  same_offset = b;
  same_low = c;
  same_high = d;
}

apply_status-SamePage : (v : Bytes) (p q : PayloadQuery) → apply_status v p ≡ ok q → SamePage p q
unfolding apply_status
apply_status-SamePage v p q h = elim (Bool-cases (same v [] || same v (codes "all"))) [
  | inl i ↦ SamePage-intro p q (ground arith)
  | inr i ↦ elim (Bool-cases (same v (codes "local"))) [
    | inl j ↦ SamePage-intro p q (ground arith)
    | inr j ↦ elim (Bool-cases (same v (codes "cache"))) [
      | inl k ↦ SamePage-intro p q (ground arith)
      | inr k ↦ elim (Bool-cases (same v (codes "backup"))) [
        | inl l ↦ SamePage-intro p q (ground arith)
        | inr l ↦ absurd (ground arith)
      ]
    ]
  ]
]

pub apply_statuses-SamePage :
    (vs : List Bytes) (p q : PayloadQuery) → apply_statuses vs p ≡ ok q → SamePage p q
unfolding apply_statuses
apply_statuses-SamePage [] p q h = record {
  same_limit = ground arith;
  same_offset = ground arith;
  same_low = ground arith;
  same_high = ground arith;
}
apply_statuses-SamePage (v ∷ vs) p q h = elim (query-cases (apply_status v p)) [
  | inl (e, i) ↦ absurd (ground arith)
  | inr (r, i) ↦
      SamePage-trans p r q (apply_status-SamePage v p r i)
        (apply_statuses-SamePage vs r q (ground arith))
]

pub apply_backup-SamePage :
    (values : Values) (p q : PayloadQuery) → apply_backup values p ≡ ok q → SamePage p q
unfolding apply_backup
apply_backup-SamePage values p q h =
    elim (query-cases (parse_backup_filter (value_of (codes "backup") values))) [
      | inl (e, i) ↦ SamePage-intro p q (ground arith)
      | inr (wanted, i) ↦ SamePage-intro p q (ground arith)
    ]

pub choose-either :
    (name default other message : Bytes) (values : Values) (word : Bytes)
    → choose name default other message values ≡ ok word
    → (word ≡ default) ⊎ (word ≡ other)
unfolding choose
choose-either name default other message values word h =
    let v = trim_space (to_lower (value_of name values)) in
    let chosen = if same v [] then default else v in
    elim (Bool-cases (same chosen default)) [
      | inl i ↦ inl (ground (arith, same→eq chosen default))
      | inr i ↦ elim (Bool-cases (same chosen other)) [
        | inl j ↦ inr (ground (arith, same→eq chosen other))
        | inr j ↦ absurd (ground arith)
      ]
    ]
