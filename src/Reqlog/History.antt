-- ===== src/Reqlog/History.antt =====
-- What the log keeps of all requests recorded so far.
use vaps.Base.{
  ℕ, suc, ◌+◌, ◌-◌, ◌%◌, ◌^◌, ◌≡◌, refl, sym, ap, ◌∙◌, Bool, true, false, ◌&&◌, not, List, [], ◌∷◌,
  ◌++◌, length, drop, length-append, length-drop, ltb, arith, if◌then◌else◌, Bool-cases, inl, inr,
  append-nil,
}
use vaps.Int64.{ℤ}
use vaps.Paging.{drop-drop, drop-append_left, drop_all}
use vaps.Reqlog.{
  Record, Store, new, add_record, stored_record, trim_records, stats_filtered, is_dashboard_path,
  is_server_error, is_client_error,
}

-- A request recorded at a time.
abbrev pub Event : Type 0
Event = ℕ × Record

unfoldable pub run : List Event → Store → Store
run [] s = s
run ((now, r) ∷ es) s = run es (add_record now r s)

-- All records as they are stored, with the identifiers that follow `id`.
unfoldable pub stored_all : ℕ → List Event → List Record
stored_all id [] = []
stored_all id ((now, r) ∷ es) =
    let next = (id + 1) % 2 ^ 64 in stored_record next now r ∷ stored_all next es

-- The `m` last entries.
abbrev pub latest {ℓ} : {A : Type ℓ} → ℕ → List A → List A
latest m xs = drop (length xs - m) xs

-- Cutting behind each append is cutting once at the end.
trim_records-latest :
    (m : ℕ) (xs : List Record) (x : Record)
    → trim_records m (latest m xs ++ x ∷ []) ≡ latest m (xs ++ x ∷ [])
unfolding trim_records
trim_records-latest m xs x =
    rw
      (
        ← drop-append_left (length xs - m) xs (x ∷ []) (omega arith),
        length-drop (length xs - m) (xs ++ x ∷ []),
        length-append xs (x ∷ []),
      )
      (elim (Bool-cases (ltb m (length xs + 1 - (length xs - m)))) [
        | inl over ↦
            rw
              (over, drop-drop (length xs + 1 - (length xs - m) - m) (length xs - m) (xs ++ x ∷ []))
              (ap (λ k. drop k (xs ++ x ∷ [])) (ground arith))
        | inr fits ↦ rw fits (ap (λ k. drop k (xs ++ x ∷ [])) (ground arith))
      ])

append_cons :
    (xs : List Record) (y : Record) (ys : List Record) → xs ++ y ∷ ys ≡ (xs ++ y ∷ []) ++ ys
append_cons [] y ys = refl
append_cons (x ∷ xs) y ys = ap (◌∷◌ x) (append_cons xs y ys)

run-latest :
    (es : List Event) (s : Store) (past : List Record)
    → s.records ≡ latest s.max past
    → (run es s).records ≡ latest s.max (past ++ stored_all s.next_id es)
unfolding run stored_all add_record
run-latest [] s past h = rw (append-nil past) h
run-latest ((now, r) ∷ es) s past h =
    let x = stored_record ((s.next_id + 1) % 2 ^ 64) now r in
    rw (append_cons past x (stored_all ((s.next_id + 1) % 2 ^ 64) es)) (
      run-latest es (add_record now r s) (past ++ x ∷ [])
        (ap (λ rs. trim_records s.max (rs ++ x ∷ [])) h ∙ trim_records-latest s.max past x))

-- Of all requests recorded since the start the log holds the latest, as many as its capacity, each
-- stored once, in order, with the identifiers 1, 2, ... (modulo 2^64).
pub run-records :
    (n : ℤ) (es : List Event) → (run es (new n)).records ≡ latest (new n).max (stored_all 0 es)
unfolding new
run-records n es = run-latest es (new n) [] (sym (drop_all _ [] (omega arith)))

abbrev pub count_if : (Event → Bool) → List Event → ℕ
count_if p [] = 0
count_if p (e ∷ es) = if p e then suc (count_if p es) else count_if p es

-- A field that every event for which `p` holds adds one to, and no other event changes.
module _ (f : Store → ℕ) (p : Event → Bool)
    (step : (now : ℕ) (r : Record) (s : Store)
      → f (add_record now r s) ≡ (if p (now, r) then (f s + 1) % 2 ^ 64 else f s)) where
  run-counts :
      (es : List Event) (s : Store) (a : ℕ)
      → f s ≡ a % 2 ^ 64
      → f (run es s) ≡ (a + count_if p es) % 2 ^ 64
  unfolding run
  run-counts [] s a h = omega (arith, h)
  run-counts ((now, r) ∷ es) s a h = elim (Bool-cases (p (now, r))) [
    | inl yes' ↦ rw yes' (
        run-counts es (add_record now r s) (a + 1) (step now r s ∙ rw yes' (omega (arith, h)))
        ∙ omega arith)
    | inr no' ↦ rw no' (run-counts es (add_record now r s) a (step now r s ∙ rw no' h))
  ]

  counts_from_start :
      (n : ℤ) (es : List Event) → f (new n) ≡ 0 → f (run es (new n)) ≡ count_if p es % 2 ^ 64
  counts_from_start n es h = run-counts es (new n) 0 (omega (arith, h)) ∙ omega arith

-- An event that the statistics count, with or without those of the dashboard.
abbrev pub shown : Bool → Event → Bool
shown exclude (now, r) = not (exclude && is_dashboard_path r.path)

abbrev pub shown_client : Bool → Event → Bool
shown_client exclude (now, r) = is_client_error r.status && shown exclude (now, r)

abbrev pub shown_server : Bool → Event → Bool
shown_server exclude (now, r) = is_server_error r.status && shown exclude (now, r)

-- The statistics count all requests ever recorded, also those that the log no longer holds, by
-- total, client errors and server errors, each modulo 2^64, and without those of the dashboard if
-- these are excluded.
pub stats_filtered-counts :
    (exclude : Bool) (n : ℤ) (es : List Event)
    → let st = stats_filtered exclude (run es (new n)) in
      (st.total_count ≡ count_if (shown exclude) es % 2 ^ 64)
      × (st.client_errors ≡ count_if (shown_client exclude) es % 2 ^ 64)
      × (st.server_errors ≡ count_if (shown_server exclude) es % 2 ^ 64)
unfolding stats_filtered
stats_filtered-counts true n es = (
  counts_from_start (λ s. s.panel_total) (shown true) (λ now r s. unfold add_record in ground arith)
      n es (unfold new in refl),
  counts_from_start (λ s. s.panel_client) (shown_client true)
      (λ now r s. unfold add_record in ground arith) n es (unfold new in refl),
  counts_from_start (λ s. s.panel_server) (shown_server true)
      (λ now r s. unfold add_record in ground arith) n es (unfold new in refl),
)
stats_filtered-counts false n es = (
  counts_from_start (λ s. s.total) (shown false) (λ now r s. unfold add_record in ground arith) n es
      (unfold new in refl),
  counts_from_start (λ s. s.client) (shown_client false)
      (λ now r s. unfold add_record in ground arith) n es (unfold new in refl),
  counts_from_start (λ s. s.server) (shown_server false)
      (λ now r s. unfold add_record in ground arith) n es (unfold new in refl),
)
