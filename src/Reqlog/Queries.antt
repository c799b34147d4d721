-- ===== src/Reqlog/Queries.antt =====
-- What a query of the log answers, and how long the stored messages are.
use vaps.Base.{
  ℕ, suc, ◌+◌, ◌%◌, ◌^◌, ◌≤◌, ◌≡◌, ◌↔◌, refl, sym, ◌∙◌, true, false, List, [], ◌∷◌, length, take,
  select, length-append, length-take-le, leb, arith, if◌then◌else◌, Bool-cases, inl, inr,
}
use mathlib.Core.List.{reverse}
use vaps.Text.{Bytes, codes, trim_space, same, same→eq, same_refl, contains, to_lower}
use vaps.Int64.{pos, ◌≤ℤ◌}
use vaps.Paging.{page_of, sub_list-page, drop_all, take-nil, Asked, asked}
use vaps.Reqlog.{
  Record, Query, Store, query, query_matches, is_dashboard_path, clamp_limit, truncate_message,
  stored_record, cut_page, bump, count_hashes, count_by_token_hash,
}

-- The records that a query asks for, the newest first.
abbrev pub matching : Query → Store → List Record
matching q s = select (query_matches q) (reverse s.records)

cut_page-page :
    (limit offset : ℕ) (xs : List Record) → cut_page limit offset xs ≡ page_of limit offset xs
unfolding cut_page
cut_page-page limit offset xs = elim (Bool-cases (leb (length xs) offset)) [
  | inl past ↦ rw (past, drop_all offset xs (ground arith)) (sym (take-nil limit))
  | inr inside ↦ rw inside (sub_list-page limit offset xs (ground arith))
]

items-page :
    (q : Query) (s : Store)
    → (query q s).items ≡ page_of (query q s).limit (query q s).offset (matching q s)
unfolding query
items-page q s = cut_page-page (query q s).limit (query q s).offset (matching q s)

-- The record `r` is one that the query `q` asks for; an empty text and a status of 0 ask for nothing.
pub record Wanted (q : Query) (r : Record) : Type 0 where
  pub outside : q.exclude_dashboard ≡ true → is_dashboard_path r.path ≡ false
  pub token : same q.token_hash [] ≡ false → r.token_hash ≡ q.token_hash
  pub path : same q.path [] ≡ false → contains (to_lower r.path) (to_lower q.path) ≡ true
  pub at_least : pos 1 ≤ℤ q.min_status → q.min_status ≤ℤ r.status
  pub at_most : pos 1 ≤ℤ q.max_status → r.status ≤ℤ q.max_status

query_matches-Wanted : (q : Query) (r : Record) → (query_matches q r ≡ true) ↔ Wanted q r
unfolding query_matches
query_matches-Wanted q r = (
  λ h. record {
    outside = λ e. ground arith;
    token = λ e. same→eq r.token_hash q.token_hash (ground arith);
    path = λ e. ground arith;
    at_least = λ e. ground arith;
    at_most = λ e. ground arith;
  },
  λ w. elim (Bool-cases (same q.token_hash [])) [
    | inl e ↦ ground (arith, w.outside, w.path, w.at_least, w.at_most)
    | inr e ↦
        ground (arith, w.outside, w.path, w.at_least, w.at_most, same_refl q.token_hash, w.token e)
  ],
)

-- A query of the log answers with one page of the matching records, the newest first: of as many
-- entries as the query asks for, at most 500 and 100 by default, behind as many as it asks for; a
-- record matches exactly if it has the query's token hash, its path has the query's one in it, its
-- status is in the query's bounds and it is not the dashboard's if these are excluded; the total
-- counts all matches.
pub query-page :
    (q : Query) (s : Store)
    → let a = query q s in
      (a.items ≡ page_of a.limit a.offset (matching q s))
      × Asked q.limit q.offset a.limit a.offset
      × (a.total ≡ length (matching q s))
      × ((r : Record) → (query_matches q r ≡ true) ↔ Wanted q r)
query-page q s = (
  items-page q s,
  unfold query in unfold clamp_limit in asked q.limit q.offset,
  unfold query in refl,
  query_matches-Wanted q,
)

-- The message of a stored record has at most 515 bytes: 512 and three dots.
stored_record-message : (id now : ℕ) (r : Record) → length (stored_record id now r).message ≤ 515
unfolding stored_record truncate_message
stored_record-message id now r = elim (Bool-cases (leb (length (trim_space r.message)) 512)) [
  | inl short ↦ rw short (ground arith)
  | inr long ↦
      rw (long, length-append (take 512 (trim_space r.message)) (codes "..."))
        (omega (arith, length-take-le 512 (trim_space r.message)))
]

-- counts[k] of an association list; 0 where the key is missing
abbrev count_of : Bytes → List (Bytes × ℕ) → ℕ
count_of k [] = 0
count_of k ((j, n) ∷ m) = if same j k then n else count_of k m

abbrev hash_records : Bytes → List Record → ℕ
hash_records k [] = 0
hash_records k (r ∷ rs) = if same r.token_hash k then suc (hash_records k rs) else hash_records k rs

count_of-bump :
    (k j : Bytes) (m : List (Bytes × ℕ))
    → count_of k (bump j m) ≡ (if same j k then (count_of k m + 1) % 2 ^ 64 else count_of k m)
unfolding bump
count_of-bump k j [] = ground arith
count_of-bump k j ((i, n) ∷ m) =
    ground
      (arith, count_of-bump k j m, same→eq i j, same→eq i k, same→eq j k, same_refl k, same_refl j)

count_hashes-count :
    (k : Bytes) (rs : List Record) (m : List (Bytes × ℕ)) (a : ℕ)
    → same [] k ≡ false
    → count_of k m ≡ a % 2 ^ 64
    → count_of k (count_hashes rs m) ≡ (a + hash_records k rs) % 2 ^ 64
unfolding count_hashes
count_hashes-count k [] m a h e = omega (arith, e)
count_hashes-count k (r ∷ rs) m a h e = elim (Bool-cases (same r.token_hash [])) [
  | inl empty ↦ rw (empty, same→eq r.token_hash [] empty, h) (count_hashes-count k rs m a h e)
  | inr named ↦ elim (Bool-cases (same r.token_hash k)) [
    | inl hit ↦
        rw (named, hit)
          (count_hashes-count k rs (bump r.token_hash m) (a + 1) h
              (count_of-bump k r.token_hash m ∙ rw hit (omega (arith, e)))
            ∙ omega arith)
    | inr miss ↦
        rw (named, miss)
          (count_hashes-count k rs (bump r.token_hash m) a h
            (count_of-bump k r.token_hash m ∙ rw miss e))
  ]
]

-- CountByTokenHash gives for each token hash that is not empty the number of records of the log
-- that carry it, modulo 2^64.
count_by_token_hash-count :
    (k : Bytes) (s : Store)
    → same [] k ≡ false
    → count_of k (count_by_token_hash s) ≡ hash_records k s.records % 2 ^ 64
unfolding count_by_token_hash
count_by_token_hash-count k s h = count_hashes-count k s.records [] 0 h (omega arith) ∙ omega arith
