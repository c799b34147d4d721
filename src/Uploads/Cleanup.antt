-- ===== src/Uploads/Cleanup.antt =====
-- CleanupExpired: which sessions are left.
use vaps.Base.{
  ℕ, ◌≤◌, ◌≡◌, refl, ◌↔◌, ap, sym, ◌∙◌, Bool, true, false, ◌||◌, none, some, List, [], ◌∷◌, All,
  select, if◌then◌else◌, arith, Bool-cases, Option-cases, inl, inr,
}
use mathlib.Core.List.{Memᴰ}
use vaps.Text.{Bytes, same, same→eq, same_refl}
use vaps.Bucket.{Bucket}
use vaps.Uploads.{Session, World, is_stale}
use vaps.Uploads.Store.{terminate, cleanup_expired, terminate_all}
use vaps.Uploads.Lifecycle.{Consistent}
use vaps.Uploads.Removals.{terminate-after, terminate_missing, cleanup_expired-Consistent}

-- A session that is neither terminated nor completed and has not expired.
pub record Live (now : ℕ) (s : Session) : Type 0 where
  pub not_terminated : s.terminated_at ≡ none
  pub not_completed : s.completed_at ≡ none
  pub not_expired : now ≤ s.expires_at

is_stale-Live : (now : ℕ) (s : Session) → (is_stale now s ≡ false) ↔ Live now s
unfolding is_stale
is_stale-Live now s = (
  λ h. record {
    not_terminated = ground (arith, Option-cases s.terminated_at);
    not_completed = ground (arith, Option-cases s.completed_at);
    not_expired = ground arith;
  },
  λ l. ground (arith, l.not_terminated, l.not_completed, l.not_expired),
)

-- Whether a session of the list has the identifier.
abbrev named : Bytes → List (Bytes × Session) → Bool
named id [] = false
named id ((k, s) ∷ l) = same s.id id || named id l

named-stale :
    (now : ℕ) (id : Bytes) (s : Session) (l : List (Bytes × Session))
    → s.id ≡ id
    → is_stale now s ≡ true
    → Memᴰ (id, s) l
    → named id (select (λ e. is_stale now e.1) l) ≡ true
named-stale now id s [] k h m = elim m [ ]
named-stale now id s ((j, t) ∷ l) k h (Memᴰ.head e) =
    let same_session : s ≡ t = ap (λ p. p.1) e in
    ground (arith, ap (is_stale now) same_session, ap (λ r. r.id) same_session, same_refl id)
named-stale now id s ((j, t) ∷ l) k h (Memᴰ.tail m) = ground (arith, named-stale now id s l k h m)

module _ (b : Bucket Session) (temp_dir : Bytes) (expiration : ℕ) where
  open b use {Db, get, put, delete, entries, get-put, get-delete}

  -- The sessions of the list stand in the database under their identifiers.
  abbrev Stored : List (Bytes × Session) → World Db → Type 0
  Stored l w = All (λ e. get e.0 w.db ≡ some e.1) l

  named-live :
      (now : ℕ) (id : Bytes) (s : Session) (l : List (Bytes × Session)) (w : World Db)
      → Consistent b temp_dir expiration w
      → Stored l w
      → get id w.db ≡ some s
      → is_stale now s ≡ false
      → named id (select (λ e. is_stale now e.1) l) ≡ false
  named-live now id s [] w v t g h = refl
  named-live now id s ((k, r) ∷ l) w v t g h =
      let rest = named-live now id s l w v t.1 g h in
      let own = (v.at k r t.0).same_id in
      elim (Bool-cases (is_stale now r)) [
        | inr e ↦ rw (e, select) rest
        | inl e ↦ elim (Bool-cases (same r.id id)) [
          | inr f ↦ rw (e, select, f) rest
          | inl f ↦
              let there : get id w.db ≡ some r =
                ap (λ j. get j w.db) (sym (same→eq r.id id f) ∙ own) ∙ t.0 in
              absurd (ground (arith, there, ap (is_stale now) (some_same s r (sym g ∙ there))))
        ]
      ]
    where
      some_same : (x y : Session) → some x ≡ some y → x ≡ y
      some_same x y h = cc

  module _ (removable : (k : Bytes) (d : Db) → (e : Db) × (delete k d ≡ some e)) where
    get-terminate :
        (j id : Bytes) (w : World Db)
        → get j (terminate b temp_dir expiration id w).0.db
          ≡ (if same id j then none else get j w.db)
    get-terminate j id w = elim (Option-cases (get id w.db)) [
      | inl e ↦ rw (terminate_missing b temp_dir expiration id w e) (elim (Bool-cases (same id j)) [
        | inl f ↦ rw f (ap (λ k. get k w.db) (sym (same→eq id j f)) ∙ e)
        | inr f ↦ rw f refl
      ])
      | inr (s, e) ↦
          let (d, f) = removable id w.db in
          rw (terminate-after b temp_dir expiration id w s d e f) (get-delete j id w.db d f)
    ]

    get-terminate_all :
        (j : Bytes) (l : List (Bytes × Session)) (w : World Db)
        → get j (terminate_all b temp_dir expiration l w).db
          ≡ (if named j l then none else get j w.db)
    unfolding terminate_all
    get-terminate_all j [] w = refl
    get-terminate_all j ((k, s) ∷ l) w =
        get-terminate_all j l (terminate b temp_dir expiration s.id w).0
        ∙ ground (arith, get-terminate j s.id w)

    get-cleanup :
        (now : ℕ) (j : Bytes) (w : World Db)
        → get j (cleanup_expired b temp_dir expiration now w).db
          ≡ (if named j (select (λ e. is_stale now e.1) (entries w.db)) then none else get j w.db)
    unfolding cleanup_expired
    get-cleanup now j w = get-terminate_all j (select (λ e. is_stale now e.1) (entries w.db)) w

    -- CleanupExpired leaves exactly the sessions that are neither terminated nor completed and
    -- have not expired, each as it was, and each offset is still the length of its file, as it was
    -- before; the database visits exactly the sessions that it has and no deletion fails.
    pub cleanup_expired-Live :
        (now : ℕ) (w : World Db)
        → Consistent b temp_dir expiration w
        → Stored (entries w.db) w
        → ((id : Bytes) (s : Session) → get id w.db ≡ some s → Memᴰ (id, s) (entries w.db))
        → let left = cleanup_expired b temp_dir expiration now w in
          Consistent b temp_dir expiration left
          × ((id : Bytes) (s : Session)
              → (get id left.db ≡ some s) ↔ ((get id w.db ≡ some s) × Live now s))
    cleanup_expired-Live now w v stored visited = (
      cleanup_expired-Consistent b temp_dir expiration now w v,
      λ id s. (
        λ h.
            let after = sym (get-cleanup now id w) ∙ h in
            elim (Bool-cases (named id (select (λ e. is_stale now e.1) (entries w.db)))) [
              | inl e ↦ absurd (ground (arith, after))
              | inr e ↦
                  let there : get id w.db ≡ some s = ground (arith, after) in
                  elim (Bool-cases (is_stale now s)) [
                    | inl f ↦ absurd (
                        ground (
                          arith,
                          named-stale now id s (entries w.db) (v.at id s there).same_id f
                              (visited id s there),
                        ))
                    | inr f ↦ (there, (is_stale-Live now s).0 f)
                  ]
            ],
        λ (g, l).
            get-cleanup now id w
            ∙ rw (named-live now id s (entries w.db) w v stored g ((is_stale-Live now s).1 l)) g,
      ),
    )
