-- ===== src/Blobs.antt =====
-- internal/blobstore/store.go with internal/utils/iohash.go: the cache of payload files on disk. A
-- file is known by its path below the root; the private files of `Stage` are values here.
pub mod Eviction
use vaps.Base.{
  ℕ, ◌+◌, ◌-◌, Bool, true, false, ◌&&◌, ◌||◌, not, none, some, [], ◌∷◌, ◌++◌, length, take, drop,
  leb, ◌==◌, if◌then◌else◌,
}
use vaps.Text.{Bytes, same, to_lower, codes}
use vaps.Int64.{ℤ, pos, lt_ℤ, le_ℤ, eq_ℤ, add64, sub64}
use vaps.Dict.{Dict, lookup, insert, remove}
use vaps.Sorting.{sort_stable}
use vaps.Metadata.{lt_bytes}

pub data Error : Type 0 where
  invalid_hash invalid_checksum checksum_mismatch disk_failed : Error

pub data Result {ℓ} (A : Type ℓ) : Type ℓ where
  ok : A → Result A
  err : Error → Result A

pub record Info : Type 0 where
  pub hash : Bytes
  pub etag : Bytes
  pub checksum : Bytes
  pub size : ℤ
  pub created : Bool

pub record BlobFile : Type 0 where
  pub content : Bytes
  pub mod_time : ℤ

pub record Store : Type 0 where
  pub max_cache_bytes : ℤ
  pub files : Dict BlobFile

-- A staged payload with the bytes of its file.
pub record Staged : Type 0 where
  pub info : Info
  pub file : BlobFile

-- Which of the file system's operations succeed.
pub record Disk : Type 0 where
  pub temp : Bool
  pub open_temp : Bool
  pub close_temp : Bool
  pub make_dir : Bool
  pub link : Bool
  pub sync_dir : Bool
  pub remove_temp : Bool
  pub stat : Bool
  pub read : Bool
  pub walk : Bool
  pub remove_cached : Bool

unfoldable pub is_hex : ℕ → Bool
is_hex c = (leb b'0' c && leb c b'9') || (leb b'a' c && leb c b'f') || (leb b'A' c && leb c b'F')

unfoldable pub all_hex : Bytes → Bool
unfolding is_hex
all_hex [] = true
all_hex (c ∷ s) = is_hex c && all_hex s

-- IoHashValid, ValidHash; the length is even, so hex.DecodeString refuses only other digits.
unfoldable pub valid_hash : Bytes → Bool
unfolding all_hex
valid_hash value = length value == 40 && all_hex value

-- ChecksumValid
unfoldable pub checksum_valid : Bytes → Bool
unfolding all_hex
checksum_valid value = length value == 8 && all_hex value && same value (to_lower value)

-- RelativePath
unfoldable pub relative_path : Bytes → Result Bytes
unfolding valid_hash
relative_path hash =
    if valid_hash hash
    then ok (
        codes "blobs/"
        ++ take 2 hash
        ++ codes "/"
        ++ take 2 (drop 2 hash)
        ++ codes "/"
        ++ hash
        ++ codes ".upayload")
    else err invalid_hash

abbrev pub file_size : BlobFile → ℕ
file_size f = length f.content

-- The sum of the walk in `evict`, from the sum so far.
unfoldable pub total_size : ℤ → Dict BlobFile → ℤ
total_size total [] = total
total_size total ((p, f) ∷ m) = total_size (add64 total (pos (file_size f))) m

-- The comparison of `evict`.
unfoldable pub older : Bytes × BlobFile → Bytes × BlobFile → Bool
older (p, f) (q, g) =
    if eq_ℤ f.mod_time g.mod_time then lt_bytes p q else lt_ℤ f.mod_time g.mod_time

-- The loop of `evict` that removes files; false is an error of os.Remove.
unfoldable pub remove_until : ℤ → Bool → ℤ → Dict BlobFile → Dict BlobFile → Dict BlobFile × Bool
unfolding remove
remove_until max removable total [] files = (files, true)
remove_until max removable total ((p, f) ∷ es) files =
    let rest = remove_until max removable (sub64 total (pos (file_size f))) es (remove p files) in
    if le_ℤ total max then (files, true) else if removable then rest else (files, false)

-- evict
unfoldable pub evict : Disk → Store → Store × Bool
unfolding total_size older remove_until
evict disk s =
    if le_ℤ s.max_cache_bytes (pos 0)
    then (s, true)
    else if not disk.walk
    then (s, false)
    else let (files, done) =
        remove_until s.max_cache_bytes disk.remove_cached (total_size (pos 0) s.files)
          (sort_stable older s.files) s.files in
      (record s { files = files }, done)

-- `checksum_of` is CRC-32C in hexadecimal (hash/crc32 and encoding/hex).
module _ (checksum_of : Bytes → Bytes) where
  -- Stage; the reader's bytes, and whether it broke off.
  unfoldable pub stage : Disk → ℤ → Bytes → Bytes → Bytes → Bool → Result Staged
  unfolding relative_path checksum_valid
  stage disk now hash checksum content broken = elim (relative_path hash) [
    | err e ↦ err e
    | ok path ↦
        if not (checksum_valid checksum)
        then err invalid_checksum
        else if not disk.temp || broken
        then err Error.disk_failed
        else if not (same (checksum_of content) checksum)
        then err checksum_mismatch
        else ok (record {
          info = record {
            hash = hash;
            etag = [];
            checksum = checksum;
            size = pos (length content);
            created = false;
          };
          file = record { content = content; mod_time = now };
        })
  ]

  -- The branch of Publish where the file is there already.
  unfoldable pub compare_cached : Disk → Staged → BlobFile → Result Info
  compare_cached disk staged f =
      if not disk.stat
      then err Error.disk_failed
      else if not (eq_ℤ (pos (file_size f)) staged.info.size)
      then err checksum_mismatch
      else if not disk.read
      then err Error.disk_failed
      else if not (same (checksum_of f.content) staged.info.checksum)
      then err checksum_mismatch
      else ok (record {
        hash = staged.info.hash;
        etag = [];
        checksum = staged.info.checksum;
        size = pos (file_size f);
        created = false;
      })

  -- The branch of Publish where it is not.
  unfoldable pub link_staged : Disk → Staged → Bytes → Store → Store × Result Info
  unfolding insert evict
  link_staged disk staged target s =
      let linked = record s { files = insert target staged.file s.files } in
      let (evicted, done) = evict disk linked in
      if not disk.link
      then (s, err Error.disk_failed)
      else if not disk.sync_dir || not disk.remove_temp
      then (linked, err Error.disk_failed)
      else if done
      then (
        evicted,
        ok (record {
          hash = staged.info.hash;
          etag = [];
          checksum = staged.info.checksum;
          size = staged.info.size;
          created = true;
        }),
      )
      else (evicted, err Error.disk_failed)

  -- Publish
  unfoldable pub publish : Disk → Staged → Store → Store × Result Info
  unfolding relative_path lookup compare_cached link_staged
  publish disk staged s = elim (relative_path staged.info.hash) [
    | err e ↦ (s, err e)
    | ok target ↦
        if not disk.make_dir then (s, err Error.disk_failed) else elim (lookup target s.files) [
          | some f ↦ (s, compare_cached disk staged f)
          | none ↦ link_staged disk staged target s
        ]
  ]

-- Exists
unfoldable pub exists : Disk → Bytes → Store → Result Bool
unfolding relative_path lookup
exists disk hash s = elim (relative_path hash) [
  | err e ↦ err e
  | ok path ↦
      if not disk.stat
      then err Error.disk_failed
      else elim (lookup path s.files) [ none ↦ ok false | some f ↦ ok true ]
]
