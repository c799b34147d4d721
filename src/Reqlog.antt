-- ===== src/Reqlog.antt =====
-- internal/reqlog/store.go: the log of failed requests in memory. The mutex makes each method one
-- step; the time of a call is its argument.
pub mod History
pub mod Queries
use vaps.Base.{
  ℕ, zero, suc, ◌+◌, ◌-◌, ◌%◌, ◌^◌, Bool, true, false, ◌&&◌, ◌||◌, not, Option, none, some, List,
  [], ◌∷◌, ◌++◌, length, take, drop, ltb, leb, if◌then◌else◌, select,
}
use mathlib.Core.List.{reverse}
use vaps.Text.{Bytes, same, trim_space, to_lower, has_prefix, contains, codes}
use vaps.Int64.{ℤ, pos, pos_part, lt_ℤ, le_ℤ}
use vaps.Paging.{sub_list}

-- `at` is none for the zero time.
pub record Record : Type 0 where
  pub id : ℕ
  pub at : Option ℕ
  pub method : Bytes
  pub path : Bytes
  pub status : ℤ
  pub message : Bytes
  pub remote_ip : Bytes
  pub user_agent : Bytes
  pub token_hash : Bytes
  pub client_id : Bytes

pub record Query : Type 0 where
  pub token_hash : Bytes
  pub path : Bytes
  pub min_status : ℤ
  pub max_status : ℤ
  pub limit : ℤ
  pub offset : ℤ
  pub exclude_dashboard : Bool

pub record QueryResult : Type 0 where
  pub items : List Record
  pub total : ℕ
  pub limit : ℕ
  pub offset : ℕ

pub record Stats : Type 0 where
  pub total_count : ℕ
  pub client_errors : ℕ
  pub server_errors : ℕ

-- The counters are the 64 bits of an int64; `records` has the oldest first.
pub record Store : Type 0 where
  pub records : List Record
  pub max : ℕ
  pub next_id : ℕ
  pub total : ℕ
  pub client : ℕ
  pub server : ℕ
  pub panel_total : ℕ
  pub panel_client : ℕ
  pub panel_server : ℕ

abbrev inc64 : ℕ → ℕ
inc64 n = (n + 1) % 2 ^ 64

abbrev inc_if : Bool → ℕ → ℕ
inc_if b n = if b then inc64 n else n

-- New; 10000 is defaultMaxRecords.
unfoldable pub new : ℤ → Store
new max_records = record {
  records = [];
  max = if le_ℤ max_records (pos 0) then 10000 else pos_part max_records;
  next_id = 0;
  total = 0;
  client = 0;
  server = 0;
  panel_total = 0;
  panel_client = 0;
  panel_server = 0;
}

unfoldable pub is_dashboard_path : Bytes → Bool
is_dashboard_path path = has_prefix (trim_space path) (codes "/dashboard")

abbrev pub is_server_error : ℤ → Bool
is_server_error status = le_ℤ (pos 500) status

abbrev pub is_client_error : ℤ → Bool
is_client_error status = not (is_server_error status) && le_ℤ (pos 400) status

unfoldable pub truncate_message : Bytes → ℕ → Bytes
truncate_message message max_len =
    let trimmed = trim_space message in
    if leb max_len 0 || leb (length trimmed) max_len
    then trimmed
    else take max_len trimmed ++ codes "..."

-- The counters that Record adds to.
unfoldable pub count_record : Record → Store → Store
unfolding is_dashboard_path
count_record r s =
    let dashboard = is_dashboard_path r.path in
    record s {
      next_id = inc64 s.next_id;
      total = inc64 s.total;
      server = inc_if (is_server_error r.status) s.server;
      panel_server = inc_if (is_server_error r.status && not dashboard) s.panel_server;
      client = inc_if (is_client_error r.status) s.client;
      panel_client = inc_if (is_client_error r.status && not dashboard) s.panel_client;
      panel_total = inc_if (not dashboard) s.panel_total;
    }

-- The record as it is kept.
unfoldable pub stored_record : ℕ → ℕ → Record → Record
unfolding truncate_message
stored_record id now r = record r {
  id = id;
  at = elim r.at [ none ↦ some now | some t ↦ some t ];
  message = truncate_message r.message 512;
}

-- `if len(s.records) > s.max { s.records = s.records[len(s.records)-s.max:] }`
unfoldable pub trim_records : ℕ → List Record → List Record
trim_records max rs = if ltb max (length rs) then drop (length rs - max) rs else rs

-- func (s *Store) Record
unfoldable pub add_record : ℕ → Record → Store → Store
unfolding count_record stored_record trim_records
add_record now r s =
    let counted = count_record r s in
    record counted {
      records = trim_records s.max (s.records ++ stored_record counted.next_id now r ∷ []);
    }

-- StatsFiltered
unfoldable pub stats_filtered : Bool → Store → Stats
stats_filtered exclude_dashboard s =
    if exclude_dashboard
    then record {
      total_count = s.panel_total;
      client_errors = s.panel_client;
      server_errors = s.panel_server;
    }
    else record { total_count = s.total; client_errors = s.client; server_errors = s.server }

-- counts[k]++
unfoldable pub bump : Bytes → List (Bytes × ℕ) → List (Bytes × ℕ)
bump k [] = (k, 1) ∷ []
bump k ((j, n) ∷ m) = if same j k then (j, inc64 n) ∷ m else (j, n) ∷ bump k m

unfoldable pub count_hashes : List Record → List (Bytes × ℕ) → List (Bytes × ℕ)
unfolding bump
count_hashes [] counts = counts
count_hashes (r ∷ rs) counts =
    count_hashes rs (if same r.token_hash [] then counts else bump r.token_hash counts)

-- CountByTokenHash
unfoldable pub count_by_token_hash : Store → List (Bytes × ℕ)
unfolding count_hashes
count_by_token_hash s = count_hashes s.records []

unfoldable pub query_matches : Query → Record → Bool
unfolding is_dashboard_path
query_matches q r =
    if q.exclude_dashboard && is_dashboard_path r.path
    then false
    else if not (same q.token_hash []) && not (same r.token_hash q.token_hash)
    then false
    else if not (same q.path []) && not (contains (to_lower r.path) (to_lower q.path))
    then false
    else if lt_ℤ (pos 0) q.min_status && lt_ℤ r.status q.min_status
    then false
    else if lt_ℤ (pos 0) q.max_status && lt_ℤ q.max_status r.status
    then false
    else true

-- 100 if it is not positive, and at most 500
unfoldable pub clamp_limit : ℤ → ℕ
clamp_limit limit =
    let positive = if le_ℤ limit (pos 0) then 100 else pos_part limit in
    if ltb 500 positive then 500 else positive

-- `matched[offset:end]`, or nothing where the offset is behind the end
unfoldable pub cut_page : ℕ → ℕ → List Record → List Record
cut_page limit offset matched =
    let total = length matched in
    let end = if ltb total (offset + limit) then total else offset + limit in
    if leb total offset then [] else sub_list offset end matched

-- Query; the loop over the records runs from the newest to the oldest.
unfoldable pub query : Query → Store → QueryResult
unfolding query_matches clamp_limit cut_page
query q s =
    let limit = clamp_limit q.limit in
    let offset = if lt_ℤ q.offset (pos 0) then 0 else pos_part q.offset in
    let matched = select (query_matches q) (reverse s.records) in
    record {
      items = cut_page limit offset matched;
      total = length matched;
      limit = limit;
      offset = offset;
    }
