-- ===== src/Uploads/Removals.antt =====
-- Terminate and CleanupExpired: sessions and files go together.
use vaps.Base.{ℕ, ◌≡◌, ap, inl, inr, none, some, List, [], ◌∷◌, select, arith, Option-cases}
use vaps.Text.{Bytes}
use vaps.Dict.{remove}
use vaps.Bucket.{Bucket}
use vaps.Uploads.{Session, World, is_stale}
use vaps.Uploads.Store.{terminate, cleanup_expired, terminate_all}
use vaps.Uploads.Lifecycle.{Consistent, Consistent-removal}

module _ (b : Bucket Session) (temp_dir : Bytes) (expiration : ℕ) where
  open b use {Db, get, put, delete, entries, get-put, get-delete}

  pub terminate-after :
      (id : Bytes) (w : World Db) (s : Session) (d : Db)
      → get id w.db ≡ some s
      → delete id w.db ≡ some d
      → (terminate b temp_dir expiration id w).0
        ≡ record { db = d; files = remove s.temp_path w.files }
  unfolding terminate
  terminate-after id w s d e f = ground arith

  pub terminate_missing :
      (id : Bytes) (w : World Db)
      → get id w.db ≡ none
      → (terminate b temp_dir expiration id w).0 ≡ w
  unfolding terminate
  terminate_missing id w e = ground arith

  terminate_failed :
      (id : Bytes) (w : World Db) (s : Session)
      → get id w.db ≡ some s
      → delete id w.db ≡ none
      → (terminate b temp_dir expiration id w).0 ≡ w
  unfolding terminate
  terminate_failed id w s e f = ground arith

  -- If each session's offset is the length of its file, Terminate keeps it so, also where it
  -- fails.
  pub terminate-Consistent :
      (id : Bytes) (w : World Db)
      → Consistent b temp_dir expiration w
      → Consistent b temp_dir expiration (terminate b temp_dir expiration id w).0
  terminate-Consistent id w v = elim (Option-cases (get id w.db)) [
    | inl e ↦ rw (terminate_missing id w e) v
    | inr (s, e) ↦ elim (Option-cases (delete id w.db)) [
      | inl f ↦ rw (terminate_failed id w s e f) v
      | inr (d, f) ↦ rw (terminate-after id w s d e f) (
          Consistent-removal b temp_dir expiration id w _ v (λ j. get-delete j id w.db d f)
            (ap (λ p. remove p w.files) (v.at id s e).path))
    ]
  ]

  terminate_all-Consistent :
      (l : List (Bytes × Session)) (w : World Db)
      → Consistent b temp_dir expiration w
      → Consistent b temp_dir expiration (terminate_all b temp_dir expiration l w)
  unfolding terminate_all
  terminate_all-Consistent [] w v = v
  terminate_all-Consistent ((k, s) ∷ l) w v =
      terminate_all-Consistent l (terminate b temp_dir expiration s.id w).0
        (terminate-Consistent s.id w v)

  -- If each session's offset is the length of its file, the removal of expired sessions keeps it
  -- so.
  pub cleanup_expired-Consistent :
      (now : ℕ) (w : World Db)
      → Consistent b temp_dir expiration w
      → Consistent b temp_dir expiration (cleanup_expired b temp_dir expiration now w)
  unfolding cleanup_expired
  cleanup_expired-Consistent now w v =
      terminate_all-Consistent (select (λ e. is_stale now e.1) (entries w.db)) w v
