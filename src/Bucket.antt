-- ===== src/Bucket.antt =====
-- What the stores rely on in go.etcd.io/bbolt: one bucket of a database, its values decoded. Every
-- write may fail; a transaction that returns an error leaves the bucket as it was.
use vaps.Base.{◌≡◌, Option, none, some, List, if◌then◌else◌}
use vaps.Text.{Bytes, same}
use vaps.Dict
use vaps.Dict.{Dict, lookup-remove, lookup-insert}

pub record Bucket (V : Type 0) : Type 1 where
  pub Db : Type 0
  pub get : Bytes → Db → Option V
  -- `none` is an error of the database.
  pub put : Bytes → V → Db → Option Db
  pub delete : Bytes → Db → Option Db
  -- the values that ForEach visits
  pub entries : Db → List (Bytes × V)
  pub get-put :
      (j k : Bytes) (v : V) (d e : Db)
      → put k v d ≡ some e
      → get j e ≡ (if same k j then some v else get j d)
  pub get-delete :
      (j k : Bytes) (d e : Db)
      → delete k d ≡ some e
      → get j e ≡ (if same k j then none else get j d)

some_inj : {V : Type 0} (a b : V) → some a ≡ some b → a ≡ b
some_inj a b h = cc

pub memory_get-put :
    {V : Type 0} (j k : Bytes) (v : V) (d e : Dict V)
    → some (Dict.insert k v d) ≡ some e
    → Dict.lookup j e ≡ (if same k j then some v else Dict.lookup j d)
memory_get-put j k v d e h = rw (← some_inj _ _ h) (lookup-insert j k v d)

pub memory_get-delete :
    {V : Type 0} (j k : Bytes) (d e : Dict V)
    → some (Dict.remove k d) ≡ some e
    → Dict.lookup j e ≡ (if same k j then none else Dict.lookup j d)
memory_get-delete j k d e h = rw (← some_inj _ _ h) (lookup-remove j k d)

-- A bucket in memory whose writes never fail.
abbrev pub memory_bucket : (V : Type 0) → Bucket V
memory_bucket V = record {
  Db = Dict V;
  get = Dict.lookup;
  put = λ k v d. some (Dict.insert k v d);
  delete = λ k d. some (Dict.remove k d);
  entries = λ d. d;
  get-put = λ j k v d e h. memory_get-put j k v d e h;
  get-delete = λ j k d e h. memory_get-delete j k d e h;
}
