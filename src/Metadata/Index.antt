-- ===== src/Metadata/Index.antt =====
-- The dashboard's index agrees with the database.
use vaps.Base.{
  ◌+◌, ◌≡◌, refl, none, some, List, [], ◌∷◌, length, select, ◌⊎◌, arith, if◌then◌else◌, Option,
  Option-cases, Bool, true, false, inl, inr,
}
use mathlib.Core.Option
use vaps.Text.{Bytes, same}
use vaps.Int64.{ℤ, pos, add64}
use vaps.Dict
use vaps.Dict.{Dict, lookup-insert}
use vaps.Bucket.{Bucket}
use vaps.Metadata.{
  Payload, Store, Stats, database, ok, put_payload, get_payload, stats, stats_from, add_stats,
  payloads_of, is_cached, reread,
}

module _ (b : Bucket Payload) where
  open b use {Db, get, put, get-put}

  -- Every record of the database stands in the index under its key, and nothing else does, but for
  -- legacy checksums.
  pub record InSync (s : Store Db) : Type 0 where
    pub at :
        (h : Bytes)
        → Option.map reread (Dict.lookup h s.dashboard_payloads) ≡ Option.map reread (get h s.db)

  reread-choice :
      (c : Bool) (p : Payload) (x y : Option Payload)
      → Option.map reread x ≡ Option.map reread y
      → Option.map reread (if c then some p else x)
        ≡ Option.map reread (if c then some (reread p) else y)
  unfolding reread
  reread-choice true p x y h = refl
  reread-choice false p x y h = h

  put_failed :
      (p : Payload) (s : Store Db)
      → put p.hash (reread p) s.db ≡ none
      → put_payload b p s ≡ (s, some database)
  unfolding put_payload
  put_failed p s e = ground arith

  put_done :
      (p : Payload) (s : Store Db) (d : Db)
      → put p.hash (reread p) s.db ≡ some d
      → put_payload b p s ≡ (
        record s { db = d; dashboard_payloads = Dict.insert p.hash p s.dashboard_payloads },
        none,
      )
  unfolding put_payload
  put_done p s d e = ground arith

  -- If the dashboard's index agrees with the database but for legacy checksums, PutPayload keeps
  -- it so, also where the database refuses the write; without an error GetPayload then gives the
  -- new record, less its legacy checksum, for its hash and the old answers for all others, with an
  -- error the store is as it was.
  pub put_payload-InSync :
      (p : Payload) (s : Store Db)
      → InSync s
      → InSync (put_payload b p s).0
        × (((put_payload b p s).1 ≡ none)
              × ((h : Bytes)
                  → get_payload b h (put_payload b p s).0
                    ≡ (if same p.hash h then ok (reread p) else get_payload b h s))
            ⊎ ((put_payload b p s).1 ≡ some database) × ((put_payload b p s).0 ≡ s))
  put_payload-InSync p s v = elim (Option-cases (put p.hash (reread p) s.db)) [
    | inl e ↦ rw (put_failed p s e) (v, inr (refl, refl))
    | inr (d, e) ↦ rw (put_done p s d e) (
      record {
        at = λ h.
            rw (lookup-insert h p.hash p s.dashboard_payloads, get-put h p.hash (reread p) s.db d e)
              (reread-choice (same p.hash h) p (Dict.lookup h s.dashboard_payloads) (get h s.db)
                (v.at h));
      },
      inl (refl, λ h. unfold get_payload in ground (arith, get-put h p.hash (reread p) s.db d e)),
    )
  ]

abbrev sum_sizes : List Payload → ℤ → ℤ
sum_sizes [] n = n
sum_sizes (p ∷ ps) n = sum_sizes ps (add64 n p.size)

stats_from-sums :
    (ps : List Payload) (st : Stats)
    → ((stats_from st ps).payload_count ≡ st.payload_count + length ps)
      × ((stats_from st ps).total_bytes ≡ sum_sizes ps st.total_bytes)
      × ((stats_from st ps).cached_count
          ≡ st.cached_count + length (select (λ p. is_cached p.status) ps))
unfolding stats_from
stats_from-sums [] st = (omega arith, refl, omega arith)
stats_from-sums (p ∷ ps) st =
    let r = stats_from-sums ps (add_stats p st) in (omega (arith, r.0), r.1, ground (arith, r.2))

-- Stats counts the records of the index, sums their sizes in int64 and counts the cached ones.
stats-sums :
    (b : Bucket Payload) (s : Store b.Db)
    → let ps = payloads_of s.dashboard_payloads in
      ((stats b s).payload_count ≡ length ps)
      × ((stats b s).total_bytes ≡ sum_sizes ps (pos 0))
      × ((stats b s).cached_count ≡ length (select (λ p. is_cached p.status) ps))
unfolding stats
stats-sums b s =
    let r =
      stats_from-sums (payloads_of s.dashboard_payloads)
        (record { payload_count = 0; total_bytes = pos 0; cached_count = 0 }) in
    (omega (arith, r.0), r.1, omega (arith, r.2))
