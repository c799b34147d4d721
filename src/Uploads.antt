-- ===== src/Uploads.antt =====
-- internal/uploadsession/store.go: resumable uploads. The sessions stand in a bucket of the database,
-- the bytes received in temporary files. A call happens at one time, `now`. Of the operating
-- system's errors the model has a missing file and a reader that breaks off.
pub mod Store
pub mod Appends
pub mod Lifecycle
pub mod Broken
pub mod Removals
pub mod Cleanup
pub mod Retries
pub mod Finals
use vaps.Base.{
  ℕ, ◌+◌, Bool, true, false, ◌||◌, ◌&&◌, is_some, not, Option, none, some, List, [], ◌∷◌, ◌++◌, ltb,
  if◌then◌else◌,
}
use vaps.Text.{Bytes, same, codes}
use vaps.Int64.{ℤ, pos, add64, eq_ℤ}
use vaps.Dict.{Dict}

pub data Kind : Type 0 where
  regular partial final : Kind

pub record Session : Type 0 where
  pub id : Bytes
  pub expected_hash : Bytes
  pub expected_checksum : Bytes
  pub kind : Kind
  pub length : ℤ
  pub offset : ℤ
  pub temp_path : Bytes
  pub partial_refs : List Bytes
  pub created_at : ℕ
  pub updated_at : ℕ
  pub expires_at : ℕ
  pub completed_at : Option ℕ
  pub terminated_at : Option ℕ

-- `io` is an error of the operating system, the database or the random source.
pub data Error : Type 0 where
  not_found expired terminated offset_mismatch completed invalid_state : Error
  not_partial incomplete identity_mismatch io : Error

pub data Result {ℓ} (A : Type ℓ) : Type ℓ where
  ok : A → Result A
  err : Error → Result A

-- The database and the files by their path.
pub record World (Db : Type 0) : Type 0 where
  pub db : Db
  pub files : Dict Bytes

-- What a reader gives, and whether it then fails instead of ending.
pub record Reader : Type 0 where
  pub content : Bytes
  pub broken : Bool

abbrev pub is_final : Kind → Bool
is_final final = true
is_final _ = false

abbrev pub is_partial : Kind → Bool
is_partial partial = true
is_partial _ = false

-- ensureActiveLocked; none is nil.
unfoldable pub ensure_active : ℕ → Session → Option Error
ensure_active now s = elim s.terminated_at [
  | some t ↦ some terminated
  | none ↦ elim s.completed_at [
    | some t ↦ some completed
    | none ↦ if ltb s.expires_at now then some expired else none
  ]
]

-- filepath.Join(s.tempDir, id+".upload")
abbrev pub temp_path : Bytes → Bytes → Bytes
temp_path temp_dir id = temp_dir ++ codes "/" ++ id ++ codes ".upload"

-- The checks of BuildFinalFromPartials on one partial upload.
unfoldable pub check_partial : ℕ → Bytes → Bytes → Session → Option Error
unfolding ensure_active
check_partial now hash checksum p =
    if not (is_partial p.kind)
    then some not_partial
    else if not (is_some p.completed_at) && not (eq_ℤ p.offset p.length)
    then some incomplete
    else elim (ensure_active now p) [
      | some e ↦ some e
      | none ↦
          if not (same p.expected_hash hash) || not (same p.expected_checksum checksum)
          then some identity_mismatch
          else none
    ]

unfoldable pub check_partials : ℕ → Bytes → Bytes → List Session → Option Error
unfolding check_partial
check_partials now hash checksum [] = none
check_partials now hash checksum (p ∷ ps) =
    let rest = check_partials now hash checksum ps in
    elim (check_partial now hash checksum p) [ some e ↦ some e | none ↦ rest ]

-- `total += partial.Length`
unfoldable pub total_length : ℤ → List Session → ℤ
total_length total [] = total
total_length total (p ∷ ps) = total_length (add64 total p.length) ps

-- Whether CleanupExpired removes the session.
unfoldable pub is_stale : ℕ → Session → Bool
is_stale now s = is_some s.terminated_at || is_some s.completed_at || ltb s.expires_at now
