-- ===== src/Uploads/Finals.antt =====
-- Final uploads, which put partial ones behind one another.
use vaps.Base.{ℕ, suc, ◌≡◌, false, Option, none, some, List, [], ◌∷◌, ◌++◌, arith}
use vaps.Text.{Bytes}
use vaps.Int64.{pos, eq_ℤ}
use vaps.Bucket.{Bucket}
use vaps.Uploads.{partial, Session, Error, incomplete, err, World, check_partials}
use vaps.Uploads.Store.{build_final}

-- A partial upload whose offset is not its length, and that is not completed, stops the final
-- upload, whatever the other partial uploads are, unless one before it stops it with another error;
-- nothing is created.
check_partials-incomplete :
    (now : ℕ) (hash checksum : Bytes) (before after : List Session) (p : Session)
    → check_partials now hash checksum before ≡ none
    → p.kind ≡ partial
    → p.completed_at ≡ none
    → eq_ℤ p.offset p.length ≡ false
    → check_partials now hash checksum (before ++ p ∷ after) ≡ some incomplete
unfolding check_partials
check_partials-incomplete now hash checksum [] after p ok' k c o = ground arith
check_partials-incomplete now hash checksum (q ∷ before) after p ok' k c o =
    ground (arith, check_partials-incomplete now hash checksum before after p)

module _ (b : Bucket Session) (temp_dir : Bytes) (expiration : ℕ) where
  open b use {Db, get, put, delete, entries, get-put, get-delete}

  build_final_refused :
      (new_id : Option Bytes) (hash checksum : Bytes) (ps : List Session) (now : ℕ) (w : World Db)
      (e : Error)
      → check_partials now hash checksum ps ≡ some e
      → build_final b temp_dir expiration new_id hash checksum ps now w ≡ (w, err e)
  unfolding build_final
  build_final_refused new_id hash checksum ps now w e h = ground arith

  -- A partial upload of length 0 with a larger offset that is not completed, behind partial uploads
  -- that pass the checks, stops the final upload as incomplete, and nothing changes.
  build_final-zero_length :
      (new_id : Option Bytes) (hash checksum : Bytes) (before after : List Session) (p : Session)
      (n now : ℕ)
      → (w : World Db) → check_partials now hash checksum before ≡ none
      → p.kind ≡ partial
      → p.completed_at ≡ none
      → p.length ≡ pos 0
      → p.offset ≡ pos (suc n)
      → build_final b temp_dir expiration new_id hash checksum (before ++ p ∷ after) now w
        ≡ (w, err incomplete)
  build_final-zero_length new_id hash checksum before after p n now w h k c l o =
      build_final_refused new_id hash checksum (before ++ p ∷ after) now w incomplete (
        check_partials-incomplete now hash checksum before after p h k c (rw (l, o) (ground arith)))
