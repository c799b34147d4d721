-- ===== src/Tests/UploadTests.antt =====
-- An upload in memory: it is created, receives bytes, and the same request comes again.
use vaps.Base.{◌≡◌, ◌↔◌, inl, inr, Bool-cases, refl, true, false, some, List, [], ◌∷◌, arith}
use mathlib.Core.List.{Memᴰ}
use vaps.Text.{same→eq, Bytes, same, codes}
use vaps.Int64.{pos, add64}
use vaps.Dict.{lookup, insert, remove}
use vaps.Bucket.{memory_bucket}
use vaps.Uploads.{
  Session, World, Reader, Error, io, offset_mismatch, ok, err, regular, ensure_active,
}
use vaps.Uploads.Store.{create, append, terminate, cleanup_expired, new_session}
use vaps.Uploads.Lifecycle.{Consistent, append-Consistent, create-Consistent}
use vaps.Uploads.Removals.{terminate-Consistent}
use vaps.Uploads.Cleanup.{Live, cleanup_expired-Live}
use vaps.Uploads.Broken.{append-breaks}
use vaps.Uploads.Retries.{append_again}

abbrev dir : Bytes
dir = codes "/tmp"

abbrev empty_world : World (List (Bytes × Session))
empty_world = record { db = []; files = [] }

abbrev first_session : Session
first_session =
    new_session (memory_bucket Session) dir 60 (codes "a") (codes "h") (codes "c") regular (pos 4)
      [] 100

abbrev created_world : World (List (Bytes × Session))
created_world = record {
  db = (codes "a", first_session) ∷ [];
  files = (codes "/tmp/a.upload", []) ∷ [];
}

abbrev two_bytes : Reader
two_bytes = record { content = codes "xy"; broken = false }

abbrev grown_session : Session
grown_session = record first_session { offset = pos 2; updated_at = 101; expires_at = 161 }

abbrev grown_world : World (List (Bytes × Session))
grown_world = record {
  db = (codes "a", grown_session) ∷ [];
  files = (codes "/tmp/a.upload", codes "xy") ∷ [];
}

empty-Consistent : Consistent (memory_bucket Session) dir 60 empty_world
unfolding lookup
empty-Consistent = record { at = λ id s h. absurd (ground arith) }

created :
    create
      (memory_bucket Session)
      dir
      60
      (some (codes "a"))
      (codes "h")
      (codes "c")
      regular
      (pos 4)
      []
      100
      empty_world
    ≡ (created_world, ok first_session)
unfolding create
created = refl

appended :
    append (memory_bucket Session) dir 60 (codes "a") (pos 0) two_bytes 101 created_world
    ≡ (grown_world, ok grown_session)
unfolding append lookup same ensure_active insert remove add64
appended = refl

create-Consistent_example : Consistent (memory_bucket Session) dir 60 created_world
create-Consistent_example =
    create-Consistent (memory_bucket Session) dir 60 (codes "a") (codes "h") (codes "c") regular
      (pos 4) [] 100 empty_world created_world first_session empty-Consistent created

created-Consistent : Consistent (memory_bucket Session) dir 60 created_world
created-Consistent =
    create-Consistent (memory_bucket Session) dir 60 (codes "a") (codes "h") (codes "c") regular
      (pos 4) [] 100 empty_world created_world first_session empty-Consistent created

append-Consistent_example : Consistent (memory_bucket Session) dir 60 grown_world
unfolding lookup same
append-Consistent_example =
    append-Consistent (memory_bucket Session) dir 60 (codes "a") (pos 0) two_bytes 101 created_world
      grown_world grown_session [] created-Consistent appended refl (omega arith)

append_again_example :
    (e : Error) × (append
        (memory_bucket Session)
        dir
        60
        (codes "a")
        (pos 0)
        (record { content = codes "zz"; broken = false })
        102
        grown_world
      ≡ (grown_world, err e))
unfolding lookup same
append_again_example =
    append_again (memory_bucket Session) dir 60 (codes "a") (pos 0) two_bytes 101 created_world
      grown_world grown_session [] created-Consistent appended refl (omega arith) (omega arith)
      (record { content = codes "zz"; broken = false }) 102

terminate-Consistent_example :
    Consistent
      (memory_bucket Session)
      dir
      60
      (terminate (memory_bucket Session) dir 60 (codes "a") created_world).0
terminate-Consistent_example =
    terminate-Consistent (memory_bucket Session) dir 60 (codes "a") created_world created-Consistent

abbrev second_session : Session
second_session =
    new_session (memory_bucket Session) dir 60 (codes "b") (codes "h") (codes "c") regular (pos 4)
      [] 150

abbrev two_world : World (List (Bytes × Session))
two_world = record {
  db = (codes "b", second_session) ∷ (codes "a", first_session) ∷ [];
  files = (codes "/tmp/b.upload", []) ∷ (codes "/tmp/a.upload", []) ∷ [];
}

second_created :
    create
      (memory_bucket Session)
      dir
      60
      (some (codes "b"))
      (codes "h")
      (codes "c")
      regular
      (pos 4)
      []
      150
      created_world
    ≡ (two_world, ok second_session)
unfolding create insert same
second_created = refl

two-Consistent : Consistent (memory_bucket Session) dir 60 two_world
two-Consistent =
    create-Consistent (memory_bucket Session) dir 60 (codes "b") (codes "h") (codes "c") regular
      (pos 4) [] 150 created_world two_world second_session created-Consistent second_created

-- ForEach visits what Get finds.
memory_entries :
    (k : Bytes) (r : Session) (d : List (Bytes × Session)) → lookup k d ≡ some r → Memᴰ (k, r) d
unfolding lookup
memory_entries k r [] h = absurd (ground arith)
memory_entries k r ((j, s) ∷ d) h = elim (Bool-cases (same j k)) [
  | inl e ↦ Memᴰ.head (ground (arith, same→eq j k))
  | inr e ↦ Memᴰ.tail (memory_entries k r d (ground arith))
]

cleanup_expired-Live_example :
    Consistent
      (memory_bucket Session)
      dir
      60
      (cleanup_expired (memory_bucket Session) dir 60 200 two_world)
    × ((id : Bytes) (s : Session)
        → (lookup id (cleanup_expired (memory_bucket Session) dir 60 200 two_world).db ≡ some s)
          ↔ ((lookup id two_world.db ≡ some s) × Live 200 s))
unfolding lookup same
cleanup_expired-Live_example =
    cleanup_expired-Live (memory_bucket Session) dir 60 (λ k d. (remove k d, refl)) 200 two_world
      two-Consistent (refl, (refl, tt)) (λ id s h. memory_entries id s two_world.db h)

abbrev broken_reader : Reader
broken_reader = record { content = codes "xy"; broken = true }

append-breaks_example :
    ((append (memory_bucket Session) dir 60 (codes "a") (pos 0) broken_reader 101 created_world).1
      ≡ err io)
    × ((append
          (memory_bucket Session)
          dir
          60
          (codes "a")
          (pos 0)
          broken_reader
          101
          created_world).0.db
        ≡ created_world.db)
    × ¬ (
        Consistent
          (memory_bucket Session)
          dir
          60
          (append
            (memory_bucket Session)
            dir
            60
            (codes "a")
            (pos 0)
            broken_reader
            101
            created_world).0)
unfolding lookup same ensure_active
append-breaks_example =
    append-breaks (memory_bucket Session) dir 60 (codes "a") (pos 0) broken_reader 101 created_world
      first_session created-Consistent refl refl refl refl refl (omega arith)

-- The same bytes sent again, by evaluation.
again :
    append (memory_bucket Session) dir 60 (codes "a") (pos 0) two_bytes 101 grown_world
    ≡ (grown_world, err offset_mismatch)
unfolding append lookup same ensure_active insert remove add64
again = refl
