-- ===== src/Queries.antt =====
-- internal/httpapi/handler.go: how the dashboard's query of payloads is read from the query string
-- (parseMetadataQuery and its helpers), and the hashes of a batch of existence checks.
pub mod Readings
pub mod Accepted
use vaps.Base.{
  ℕ, Bool, true, false, ◌&&◌, ◌||◌, not, Option, none, some, is_some, List, [], ◌∷◌, ◌++◌, ◌==◌,
  if◌then◌else◌, map,
}
use vaps.Text.{Bytes, same, codes, trim_space, to_lower}
use vaps.Int64.{ℤ, pos, lt_ℤ, parse_int}
use vaps.Dict.{Dict, lookup}
use vaps.Metadata.{PayloadQuery}

-- An error is its text.
pub data Result {ℓ} (A : Type ℓ) : Type ℓ where
  ok : A → Result A
  err : Bytes → Result A

-- r.URL.Query()
abbrev pub Values : Type 0
Values = Dict (List Bytes)

abbrev first : Option (List Bytes) → Bytes
first none = []
first (some []) = []
first (some (v ∷ vs)) = v

abbrev all : Option (List Bytes) → List Bytes
all none = []
all (some vs) = vs

-- values.Get(k)
unfoldable pub value_of : Bytes → Values → Bytes
unfolding lookup
value_of k values = first (lookup k values)

-- values[k]
unfoldable pub values_of : Bytes → Values → List Bytes
unfolding lookup
values_of k values = all (lookup k values)

-- values.Has(k)
unfoldable pub has_value : Bytes → Values → Bool
unfolding lookup
has_value k values = is_some (lookup k values)

-- parseNonNegativeInt and parseNonNegativeInt64
unfoldable pub parse_non_negative : Bytes → Bytes → Result ℤ
unfolding parse_int
parse_non_negative value name = elim (parse_int (trim_space value)) [
  | none ↦ err (name ++ codes " must be a non-negative integer")
  | some n ↦ if lt_ℤ n (pos 0) then err (name ++ codes " must be a non-negative integer") else ok n
]

-- A number that the query string may have.
unfoldable pub optional_number : Bytes → Values → Result (Option ℤ)
unfolding has_value value_of parse_non_negative
optional_number name values =
    let parsed = parse_non_negative (value_of name values) name in
    if has_value name values then (elim parsed [ err e ↦ err e | ok n ↦ ok (some n) ]) else ok none

-- strings.SplitSeq(value, ","), with the part read so far
unfoldable pub split_commas : Bytes → Bytes → List Bytes
split_commas part [] = part ∷ []
split_commas part (c ∷ s) =
    let next = split_commas [] s in
    let longer = split_commas (part ++ (c ∷ [])) s in if c == b',' then part ∷ next else longer

-- splitQueryValues
unfoldable pub split_query_values : List Bytes → List Bytes
unfolding split_commas
split_query_values [] = []
split_query_values (v ∷ vs) =
    map (λ p. trim_space (to_lower p)) (split_commas [] v) ++ split_query_values vs

-- One part of a status.
unfoldable pub apply_status : Bytes → PayloadQuery → Result PayloadQuery
apply_status v q =
    if same v [] || same v (codes "all")
    then ok q
    else if same v (codes "local")
    then ok (record q { require_local = true })
    else if same v (codes "cache")
    then ok (record q { require_cache = true })
    else if same v (codes "backup")
    then ok (record q { backup = some true })
    else err (codes "status must be one of local, cache, backup")

-- The loop of applyStatusFilters.
unfoldable pub apply_statuses : List Bytes → PayloadQuery → Result PayloadQuery
unfolding apply_status
apply_statuses [] q = ok q
apply_statuses (v ∷ vs) q = elim (apply_status v q) [ err e ↦ err e | ok r ↦ apply_statuses vs r ]

-- applyStatusFilters
unfoldable pub apply_status_filters : List Bytes → PayloadQuery → Result PayloadQuery
unfolding split_query_values apply_statuses
apply_status_filters values q = apply_statuses (split_query_values values) q

-- parseBackupFilter
unfoldable pub parse_backup_filter : Bytes → Result Bool
parse_backup_filter value =
    let v = trim_space (to_lower value) in
    if same v (codes "backuped") || same v (codes "backed") || same v (codes "backed_up")
    then ok true
    else if same v (codes "none")
    then ok false
    else err (codes "backup must be one of none, backuped")

-- The backup filter of parseMetadataQuery.
unfoldable pub apply_backup : Values → PayloadQuery → Result PayloadQuery
unfolding value_of
apply_backup values q =
    let value = value_of (codes "backup") values in
    let v = trim_space (to_lower value) in
    if same v [] || same v (codes "all") then ok q else elim (parse_backup_filter value) [
      | err e ↦ err e
      | ok wanted ↦ ok (record q { backup = some wanted })
    ]

-- The word that parseMetadataQuery reads for the sort or the order.
unfoldable pub choose : Bytes → Bytes → Bytes → Bytes → Values → Result Bytes
unfolding value_of
choose name default other message values =
    let v = trim_space (to_lower (value_of name values)) in
    let word = if same v [] then default else v in
    if same word default || same word other then ok word else err message

unfoldable pub sort_choice : Values → Result Bytes
unfolding choose
sort_choice =
    choose (codes "sort") (codes "created") (codes "size")
      (codes "sort must be one of created, size")

unfoldable pub order_choice : Values → Result Bytes
unfolding choose
order_choice =
    choose (codes "order") (codes "desc") (codes "asc") (codes "order must be one of asc, desc")

-- The end of parseMetadataQuery: sort and order.
unfoldable pub apply_order : Values → PayloadQuery → Result PayloadQuery
unfolding sort_choice order_choice
apply_order values q = elim (sort_choice values) [
  | err e ↦ err e
  | ok by ↦ elim (order_choice values) [
    | err e ↦ err e
    | ok direction ↦ ok (record q { sort_by = by; sort_order = direction })
  ]
]

abbrev pub or_default : ℤ → Option ℤ → ℤ
or_default d none = d
or_default d (some n) = n

-- The page of parseMetadataQuery: 100 matches, at most 500.
unfoldable pub read_page : Values → Result (ℤ × ℤ)
unfolding optional_number
read_page values = elim (optional_number (codes "limit") values) [
  | err e ↦ err e
  | ok given ↦
      let limit = or_default (pos 100) given in
      elim (optional_number (codes "offset") values) [
        | err e ↦ err e
        | ok offset ↦
            ok (if lt_ℤ (pos 500) limit then pos 500 else limit, or_default (pos 0) offset)
      ]
]

-- Both sizes are given, and the largest is below the smallest.
abbrev pub reversed : Option ℤ → Option ℤ → Bool
reversed none high = false
reversed (some low) none = false
reversed (some low) (some high) = lt_ℤ high low

-- The sizes of parseMetadataQuery.
unfoldable pub read_sizes : Values → Result (Option ℤ × Option ℤ)
unfolding optional_number
read_sizes values = elim (optional_number (codes "min_size") values) [
  | err e ↦ err e
  | ok low ↦ elim (optional_number (codes "max_size") values) [
    | err e ↦ err e
    | ok high ↦
        if reversed low high
        then err (codes "max_size must be greater than or equal to min_size")
        else ok (low, high)
  ]
]

-- The query before its filters.
unfoldable pub base_query : Values → ℤ × ℤ → Option ℤ × Option ℤ → PayloadQuery
unfolding value_of
base_query values (limit, offset) (low, high) = record {
  hash_contains = to_lower (trim_space (value_of (codes "q") values));
  require_local = false;
  require_cache = false;
  backup = none;
  min_size = low;
  max_size = high;
  sort_by = [];
  sort_order = [];
  limit = limit;
  offset = offset;
}

-- parseMetadataQuery
unfoldable pub parse_metadata_query : Values → Result PayloadQuery
unfolding read_page read_sizes base_query apply_status_filters apply_backup apply_order
parse_metadata_query values = elim (read_page values) [
  | err e ↦ err e
  | ok page ↦ elim (read_sizes values) [
    | err e ↦ err e
    | ok sizes ↦
        elim (apply_status_filters (values_of (codes "status") values)
          (base_query values page sizes)) [
            | err e ↦ err e
            | ok q ↦ elim (apply_backup values q) [ err e ↦ err e | ok r ↦ apply_order values r ]
          ]
  ]
]

-- _, ok := seen[h]
unfoldable pub is_member : Bytes → List Bytes → Bool
is_member h [] = false
is_member h (k ∷ ks) = let rest = is_member h ks in if same k h then true else rest

-- The loop of uniqueHashes, with the hashes seen so far.
unfoldable pub unique_from : List Bytes → List Bytes → List Bytes
unfolding is_member
unique_from seen [] = []
unique_from seen (h ∷ hs) =
    let skipped = unique_from seen hs in
    let kept = unique_from (h ∷ seen) hs in if is_member h seen then skipped else h ∷ kept

-- uniqueHashes
unfoldable pub unique_hashes : List Bytes → List Bytes
unfolding unique_from
unique_hashes = unique_from []
