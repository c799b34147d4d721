-- ===== src/Queries/Accepted.antt =====
-- The queries that parseMetadataQuery accepts.
use vaps.Base.{◌≡◌, ◌⊎◌, inl, inr, sym, ◌∙◌, true, Option, some, arith}
use vaps.Text.{Bytes, codes}
use vaps.Int64.{ℤ, pos, le_ℤ}
use vaps.Metadata.{PayloadQuery}
use vaps.Queries.{
  ok, Values, apply_statuses, apply_status_filters, apply_backup, split_query_values, values_of,
  apply_order, read_page, read_sizes, base_query, parse_metadata_query,
}
use vaps.Queries.{sort_choice, order_choice}
use vaps.Queries.Readings.{
  query-cases, read_page-bounds, read_sizes-in_order, sizes_in_order, SamePage, SamePage-intro,
  SamePage-trans, apply_statuses-SamePage, apply_backup-SamePage, choose-either,
}

-- What is fixed of a query before its filters and its order are read.
pub record Page (q : PayloadQuery) : Type 0 where
  pub limit_low : le_ℤ (pos 0) q.limit ≡ true
  pub limit_high : le_ℤ q.limit (pos 500) ≡ true
  pub offset_low : le_ℤ (pos 0) q.offset ≡ true
  pub sizes : (low high : ℤ) → q.min_size ≡ some low → q.max_size ≡ some high → le_ℤ low high ≡ true

pub record Accepted (q : PayloadQuery) : Type 0 where
  pub numbers : Page q
  pub sorted : (q.sort_by ≡ codes "created") ⊎ (q.sort_by ≡ codes "size")
  pub ordered : (q.sort_order ≡ codes "desc") ⊎ (q.sort_order ≡ codes "asc")

sort_choice-either :
    (values : Values) (word : Bytes)
    → sort_choice values ≡ ok word
    → (word ≡ codes "created") ⊎ (word ≡ codes "size")
unfolding sort_choice
sort_choice-either values word h =
    choose-either (codes "sort") (codes "created") (codes "size")
      (codes "sort must be one of created, size") values word h

order_choice-either :
    (values : Values) (word : Bytes)
    → order_choice values ≡ ok word
    → (word ≡ codes "desc") ⊎ (word ≡ codes "asc")
unfolding order_choice
order_choice-either values word h =
    choose-either (codes "order") (codes "desc") (codes "asc")
      (codes "order must be one of asc, desc") values word h

apply_order-inv :
    (values : Values) (p q : PayloadQuery)
    → apply_order values p ≡ ok q
    → SamePage p q × (sort_choice values ≡ ok q.sort_by) × (order_choice values ≡ ok q.sort_order)
unfolding apply_order
apply_order-inv values p q h = elim (query-cases (sort_choice values)) [
  | inl (e, i) ↦ absurd (ground arith)
  | inr (by, i) ↦ elim (query-cases (order_choice values)) [
    | inl (e, j) ↦ absurd (ground arith)
    | inr (direction, j) ↦ (SamePage-intro p q (ground arith), ground arith, ground arith)
  ]
]

base_query-Page :
    (values : Values) (page : ℤ × ℤ) (sizes : Option ℤ × Option ℤ) (q : PayloadQuery)
    → read_page values ≡ ok page
    → read_sizes values ≡ ok sizes
    → SamePage (base_query values page sizes) q
    → Page q
unfolding base_query
base_query-Page values (limit, offset) (low, high) q h k s =
    let (a, b, c) = read_page-bounds values limit offset h in
    record {
      limit_low = rw (s.same_limit) a;
      limit_high = rw (s.same_limit) b;
      offset_low = rw (s.same_offset) c;
      sizes = λ l g i j.
          sizes_in_order low high l g (read_sizes-in_order values low high k) (sym s.same_low ∙ i)
            (sym s.same_high ∙ j);
    }

-- A query string that parseMetadataQuery accepts gives a query with a limit from 0 to 500, an
-- offset that is not negative, a smallest size that is not above the largest where both are given,
-- and a known sort and order.
pub parse_metadata_query-Accepted :
    (values : Values) (q : PayloadQuery) → parse_metadata_query values ≡ ok q → Accepted q
unfolding parse_metadata_query apply_status_filters
parse_metadata_query-Accepted values q h = elim (query-cases (read_page values)) [
  | inl (e, i) ↦ absurd (ground arith)
  | inr (page, i) ↦ elim (query-cases (read_sizes values)) [
    | inl (e, j) ↦ absurd (ground arith)
    | inr (sizes, j) ↦
        let base = base_query values page sizes in
        let statuses = split_query_values (values_of (codes "status") values) in
        elim (query-cases (apply_statuses statuses base)) [
          | inl (e, k) ↦ absurd (ground arith)
          | inr (r, k) ↦ elim (query-cases (apply_backup values r)) [
            | inl (e, l) ↦ absurd (ground arith)
            | inr (t, l) ↦
                let (s, by, direction) = apply_order-inv values t q (ground arith) in
                record {
                  numbers = base_query-Page values page sizes q i j (
                      SamePage-trans base r q (apply_statuses-SamePage statuses base r k)
                        (SamePage-trans r t q (apply_backup-SamePage values r t l) s));
                  sorted = sort_choice-either values q.sort_by by;
                  ordered = order_choice-either values q.sort_order direction;
                }
          ]
        ]
  ]
]
