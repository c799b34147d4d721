-- ===== src/Dict.antt =====
-- Go maps with string keys, files by path, and headers: association lists. No function of the
-- program that is modelled with them depends on the order of the entries.
use vaps.Base.{◌≡◌, Option, none, some, List, [], ◌∷◌, arith, if◌then◌else◌}
use vaps.Text.{Bytes, same, same→eq, same_refl}

abbrev pub Dict {ℓ} : Type ℓ → Type ℓ
Dict V = List (Bytes × V)

module _ {ℓ} {V : Type ℓ} where
  unfoldable pub lookup : Bytes → Dict V → Option V
  lookup k [] = none
  lookup k ((j, v) ∷ m) = if same j k then some v else lookup k m

  unfoldable pub remove : Bytes → Dict V → Dict V
  remove k [] = []
  remove k ((j, v) ∷ m) = let rest = remove k m in if same j k then rest else (j, v) ∷ rest

  unfoldable pub insert : Bytes → V → Dict V → Dict V
  unfolding remove
  insert k v m = (k, v) ∷ remove k m

  pub lookup-remove :
      (j k : Bytes) (m : Dict V) → lookup j (remove k m) ≡ (if same k j then none else lookup j m)
  unfolding lookup remove
  lookup-remove j k [] = ground arith
  lookup-remove j k ((i, v) ∷ m) =
      ground (
        arith,
        lookup-remove j k m,
        same→eq i k,
        same→eq i j,
        same→eq k j,
        same_refl k,
        same_refl j,
      )

  pub lookup-insert :
      (j k : Bytes) (v : V) (m : Dict V)
      → lookup j (insert k v m) ≡ (if same k j then some v else lookup j m)
  unfolding insert lookup
  lookup-insert j k v m = ground (arith, lookup-remove j k m, same→eq k j, same_refl j, same_refl k)

pub ruleset dict_laws = (lookup-remove, lookup-insert)
