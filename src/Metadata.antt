-- ===== src/Metadata.antt =====
-- internal/metadata/store.go: payload records in a bucket of the database, and the index in memory
-- that the dashboard reads. Times are nanoseconds; none is nil.
pub mod Index
pub mod Sorting
use vaps.Base.{
  ℕ, ◌+◌, ◌-◌, Bool, true, false, ◌&&◌, not, Option, none, some, List, [], ◌∷◌, length, take, drop,
  ltb, leb, ◌==◌, if◌then◌else◌, select, map,
}
use vaps.Text.{Bytes, same, to_lower, trim_space, contains, codes}
use vaps.Int64.{ℤ, pos, pos_part, lt_ℤ, le_ℤ, eq_ℤ, add64}
use vaps.Sorting.{sort_stable}
use vaps.Dict.{Dict, insert}
use vaps.Bucket.{Bucket}
use vaps.ByteRange.{slice}

pub data PayloadStatus : Type 0 where
  stored cached : PayloadStatus

abbrev pub is_cached : PayloadStatus → Bool
is_cached stored = false
is_cached cached = true

pub record Payload : Type 0 where
  pub hash : Bytes
  pub etag : Bytes
  pub checksum : Bytes
  pub legacy_checksum : Bytes
  pub size : ℤ
  pub status : PayloadStatus
  pub created_at : Option ℕ
  pub last_accessed_at : Option ℕ

-- What UnmarshalJSON reads from what json.Marshal writes for a payload: LegacyChecksum is not written.
unfoldable pub reread : Payload → Payload
reread p = record p { legacy_checksum = [] }

-- The counts are at most the number of records in memory.
pub record Stats : Type 0 where
  pub payload_count : ℕ
  pub total_bytes : ℤ
  pub cached_count : ℕ

pub record PayloadQuery : Type 0 where
  pub hash_contains : Bytes
  pub require_local : Bool
  pub require_cache : Bool
  pub backup : Option Bool
  pub min_size : Option ℤ
  pub max_size : Option ℤ
  pub sort_by : Bytes
  pub sort_order : Bytes
  pub limit : ℤ
  pub offset : ℤ

pub record PayloadQueryResult : Type 0 where
  pub items : List Payload
  pub total : ℕ
  pub limit : ℤ
  pub offset : ℤ

pub data Error : Type 0 where
  not_found dashboard_busy database : Error

pub data Result {ℓ} (A : Type ℓ) : Type ℓ where
  ok : A → Result A
  err : Error → Result A

-- The database, the dashboard's index, and whether a dashboard query runs.
pub record Store (Db : Type 0) : Type 0 where
  pub db : Db
  pub dashboard_payloads : Dict Payload
  pub dashboard_querying : Bool

-- a < b on strings
unfoldable pub lt_bytes : Bytes → Bytes → Bool
lt_bytes s [] = false
lt_bytes [] (d ∷ t) = true
lt_bytes (c ∷ s) (d ∷ t) =
    let rest = lt_bytes s t in if ltb c d then true else if ltb d c then false else rest

-- normalizePayloadSort
unfoldable pub normalize_payload_sort : Bytes → Bytes → Bytes × Bytes
normalize_payload_sort sort_by sort_order = (
  if same (to_lower (trim_space sort_by)) (codes "size") then codes "size" else codes "created",
  if same (to_lower (trim_space sort_order)) (codes "asc") then codes "asc" else codes "desc",
)

abbrev by_hash : Bool → Payload → Payload → Bool
by_hash desc a b = if desc then lt_bytes b.hash a.hash else lt_bytes a.hash b.hash

abbrev by_size : Bool → Payload → Payload → Bool
by_size desc a b =
    if eq_ℤ a.size b.size
    then by_hash desc a b
    else if desc
    then lt_ℤ b.size a.size
    else lt_ℤ a.size b.size

abbrev by_created : Bool → Payload → Payload → Bool
by_created desc a b = elim a.created_at [
  | none ↦ elim b.created_at [ none ↦ by_hash desc a b | some t ↦ false ]
  | some s ↦ elim b.created_at [
    | none ↦ true
    | some t ↦ if s == t then by_hash desc a b else if desc then ltb t s else ltb s t
  ]
]

-- The comparison of sortPayloads.
unfoldable pub payload_less : Bytes → Bytes → Payload → Payload → Bool
unfolding lt_bytes
payload_less sort_by sort_order a b =
    let desc = not (same sort_order (codes "asc")) in
    if same sort_by (codes "size") then by_size desc a b else by_created desc a b

-- sortPayloads
unfoldable pub sort_payloads : Bytes → Bytes → List Payload → List Payload
unfolding payload_less sort_stable
sort_payloads sort_by sort_order = sort_stable (payload_less sort_by sort_order)

-- func (q PayloadQuery) matches
unfoldable pub payload_matches : PayloadQuery → Payload → Bool
payload_matches q p =
    if not (same q.hash_contains []) && not (contains p.hash q.hash_contains)
    then false
    else if q.require_local && not (is_cached p.status)
    then false
    else if q.require_cache && not (is_cached p.status)
    then false
    else if (elim q.backup [ none ↦ false | some wanted ↦ not wanted ])
    then false
    else if (elim q.min_size [ none ↦ false | some low ↦ lt_ℤ p.size low ])
    then false
    else if (elim q.max_size [ none ↦ false | some high ↦ lt_ℤ high p.size ])
    then false
    else true

abbrev pub payloads_of : Dict Payload → List Payload
payloads_of = map (λ e. e.1)

-- The counts of Stats over the index.
unfoldable pub add_stats : Payload → Stats → Stats
add_stats p st = record {
  payload_count = st.payload_count + 1;
  total_bytes = add64 st.total_bytes p.size;
  cached_count = if is_cached p.status then st.cached_count + 1 else st.cached_count;
}

unfoldable pub stats_from : Stats → List Payload → Stats
unfolding add_stats
stats_from st [] = st
stats_from st (p ∷ ps) = stats_from (add_stats p st) ps

-- The part of QueryPayloads that takes the flag; none is ErrDashboardBusy.
unfoldable pub begin_query : {Db : Type 0} → Store Db → Option (Store Db)
begin_query s = if s.dashboard_querying then none else some (record s { dashboard_querying = true })

-- The deferred release of the flag.
unfoldable pub end_query : {Db : Type 0} → Store Db → Store Db
end_query s = record s { dashboard_querying = false }

-- The page of QueryPayloads, of the matches in order; `none` is a panic of the slice.
unfoldable pub query_page : PayloadQuery → List Payload → Option (List Payload)
unfolding slice
query_page q matched =
    let offset = if lt_ℤ q.offset (pos 0) then pos 0 else q.offset in
    let total = pos (length matched) in
    let cut = add64 offset q.limit in
    let end = if lt_ℤ (pos 0) q.limit && lt_ℤ cut total then cut else total in
    if le_ℤ total offset then some [] else slice matched offset end

-- The result of QueryPayloads between taking and releasing the flag.
unfoldable pub run_query : {Db : Type 0} → PayloadQuery → Store Db → Option PayloadQueryResult
unfolding normalize_payload_sort sort_payloads payload_matches query_page
run_query q s =
    let (sort_by, sort_order) = normalize_payload_sort q.sort_by q.sort_order in
    let found = select (payload_matches q) (payloads_of s.dashboard_payloads) in
    let matched = sort_payloads sort_by sort_order found in
    elim (query_page q matched) [
      | none ↦ none
      | some items ↦ some (record {
        items = items;
        total = length matched;
        limit = q.limit;
        offset = if lt_ℤ q.offset (pos 0) then pos 0 else q.offset;
      })
    ]

-- QueryPayloads, without another query in between; the flag is released also by a panic.
unfoldable pub query_payloads :
    {Db : Type 0} → PayloadQuery → Store Db → Store Db × Option (Result PayloadQueryResult)
unfolding begin_query run_query end_query
query_payloads q s = elim (begin_query s) [
  | none ↦ (s, some (err dashboard_busy))
  | some t ↦ (end_query t, elim (run_query q t) [ none ↦ none | some answer ↦ some (ok answer) ])
]

module _ (b : Bucket Payload) where
  open b use {Db, get, put}

  -- PutPayload; none is nil.
  unfoldable pub put_payload : Payload → Store Db → Store Db × Option Error
  unfolding insert reread
  put_payload p s = elim (put p.hash (reread p) s.db) [
    | none ↦ (s, some database)
    | some d ↦
        (record s { db = d; dashboard_payloads = insert p.hash p s.dashboard_payloads }, none)
  ]

  -- GetPayload; the bucket has what UnmarshalJSON reads, with the legacy checksum of a record that is
  -- stored under content_hash.
  unfoldable pub get_payload : Bytes → Store Db → Result Payload
  get_payload hash s = elim (get hash s.db) [ none ↦ err not_found | some p ↦ ok p ]

  -- Stats
  unfoldable stats : Store Db → Stats
  unfolding stats_from
  stats s =
      stats_from (record { payload_count = 0; total_bytes = pos 0; cached_count = 0 })
        (payloads_of s.dashboard_payloads)
