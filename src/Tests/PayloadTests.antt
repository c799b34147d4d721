-- ===== src/Tests/PayloadTests.antt =====
-- A payload of two bytes that is uploaded, with its metadata record.
use vaps.Base.{◌≡◌, refl, true, false, none, some, List, [], ◌∷◌, ◌⊎◌, if◌then◌else◌}
use vaps.Text.{Bytes, same, codes, to_lower}
use vaps.Int64.{pos}
use vaps.Base.{arith, ◌≤◌}
use vaps.Blobs.{evict}
use vaps.Blobs.Eviction.{bytes_of, evict-bound}
use vaps.Dict
use vaps.Bucket.{memory_bucket}
use vaps.Blobs
use vaps.Blobs.{Disk, stage}
use vaps.Objects
use vaps.Objects.{memory_objects}
use vaps.Metadata
use mathlib.Core.List.{Perm}
use vaps.Sorting.{Chain}
use vaps.Metadata.Sorting.{BySize, ByCreated, sort_payloads-Ordered}
use vaps.Metadata.{Payload, stored, put_payload, get_payload, payload_less, sort_payloads}
use vaps.Metadata.Index.{InSync, put_payload-InSync}
use vaps.Payloads.{World, Result, ok, put_payload_durably, commit_payload_metadata}
use vaps.Payloads.Records.{Recorded, commit_payload_metadata-Recorded}
use vaps.Payloads.{save_record}
use vaps.Payloads.Resolve.{payload_record, payload_record-adopts}
use vaps.Payloads.Durable.{Durable, put_payload_durably-Durable}

abbrev disk : Disk
disk = record {
  temp = true;
  open_temp = true;
  close_temp = true;
  make_dir = true;
  link = true;
  sync_dir = true;
  remove_temp = true;
  stat = true;
  read = true;
  walk = true;
  remove_cached = true;
}

abbrev hash : Bytes
hash = codes "0123456789abcdef0123456789abcdef01234567"

abbrev checksum : Bytes
checksum = codes "0a1b2c3d"

abbrev empty_world : World (List (Bytes × Payload)) (List (Bytes × Objects.Opened))
empty_world = record {
  blobs = record { max_cache_bytes = pos 0; files = [] };
  remote = [];
  meta = record { db = []; dashboard_payloads = []; dashboard_querying = false };
}

abbrev uploaded : World (List (Bytes × Payload)) (List (Bytes × Objects.Opened)) × Result Blobs.Info
uploaded =
    put_payload_durably (memory_bucket Payload) memory_objects true true (λ c. checksum) disk
      (pos 5) hash checksum (codes "xy") false empty_world

abbrev uploaded_info : Blobs.Info
uploaded_info = record {
  hash = hash;
  etag = codes "tag";
  checksum = checksum;
  size = pos 2;
  created = true;
}

uploaded_ok : uploaded ≡ (uploaded.0, ok uploaded_info)
unfolding put_payload_durably same to_lower
uploaded_ok = refl

put_payload_durably-Durable_example :
    (checksum ≡ checksum)
    × Durable
        (memory_bucket Payload)
        memory_objects
        true
        (λ c. checksum)
        hash
        checksum
        (codes "xy")
        true
        uploaded.0.remote
put_payload_durably-Durable_example =
    put_payload_durably-Durable (memory_bucket Payload) memory_objects true (λ c. checksum) disk
      (pos 5) hash checksum (codes "xy") false empty_world uploaded.0 uploaded_info uploaded_ok

abbrev empty_index : Metadata.Store (List (Bytes × Payload))
empty_index = record { db = []; dashboard_payloads = []; dashboard_querying = false }

abbrev two_bytes : Payload
two_bytes = record {
  hash = hash;
  etag = [];
  checksum = checksum;
  legacy_checksum = [];
  size = pos 2;
  status = stored;
  created_at = some 5;
  last_accessed_at = none;
}

empty-InSync : InSync (memory_bucket Payload) empty_index
empty-InSync = record { at = λ h. refl }

put_payload-InSync_example :
    InSync (memory_bucket Payload) (put_payload (memory_bucket Payload) two_bytes empty_index).0
    × (((put_payload (memory_bucket Payload) two_bytes empty_index).1 ≡ none)
          × ((h : Bytes)
              → get_payload
                  (memory_bucket Payload)
                  h
                  (put_payload (memory_bucket Payload) two_bytes empty_index).0
                ≡ (if same hash h
                    then Metadata.ok (Metadata.reread two_bytes)
                    else get_payload (memory_bucket Payload) h empty_index))
        ⊎ ((put_payload (memory_bucket Payload) two_bytes empty_index).1 ≡ some Metadata.database)
          × ((put_payload (memory_bucket Payload) two_bytes empty_index).0 ≡ empty_index))
put_payload-InSync_example =
    put_payload-InSync (memory_bucket Payload) two_bytes empty_index empty-InSync

abbrev two_payloads : List Payload
two_payloads = two_bytes ∷ two_bytes ∷ []

sort_payloads-Ordered_example :
    Chain (BySize false) (sort_payloads (codes "size") (codes "asc") two_payloads)
    × Chain (BySize true) (sort_payloads (codes "size") (codes "desc") two_payloads)
    × Chain (ByCreated false) (sort_payloads (codes "created") (codes "asc") two_payloads)
    × Chain (ByCreated true) (sort_payloads (codes "created") (codes "desc") two_payloads)
    × ((sort_by sort_order : Bytes)
        → Perm (sort_payloads sort_by sort_order two_payloads) two_payloads)
sort_payloads-Ordered_example = sort_payloads-Ordered two_payloads

committed_ok :
    commit_payload_metadata
      (memory_bucket Payload)
      memory_objects
      true
      true
      (λ c. checksum)
      disk
      7
      uploaded_info
      empty_world
    ≡ (
      (commit_payload_metadata
          (memory_bucket Payload)
          memory_objects
          true
          true
          (λ c. checksum)
          disk
          7
          uploaded_info
          empty_world).0,
      none,
    )
unfolding commit_payload_metadata Dict.lookup
committed_ok = refl

commit_payload_metadata-Recorded_example :
    Recorded
      (memory_bucket Payload)
      memory_objects
      true
      (λ c. checksum)
      uploaded_info
      empty_world
      (commit_payload_metadata
        (memory_bucket Payload)
        memory_objects
        true
        true
        (λ c. checksum)
        disk
        7
        uploaded_info
        empty_world).0
commit_payload_metadata-Recorded_example =
    commit_payload_metadata-Recorded (memory_bucket Payload) memory_objects true (λ c. checksum)
      disk 7 uploaded_info empty_world
      (commit_payload_metadata (memory_bucket Payload) memory_objects true true (λ c. checksum) disk
        7 uploaded_info empty_world).0
      no_record committed_ok
  where
    no_record : (p : Payload) → Dict.lookup hash [] ≡ some p → p.hash ≡ hash
    no_record p h = absurd (unfold Dict.lookup in ground arith)

abbrev old_file : Blobs.BlobFile
old_file = record { content = codes "abc"; mod_time = pos 1 }

abbrev new_file : Blobs.BlobFile
new_file = record { content = codes "de"; mod_time = pos 2 }

abbrev two_files : Dict.Dict Blobs.BlobFile
two_files = (codes "p", new_file) ∷ (codes "q", old_file) ∷ []

evict-bound_example :
    ((evict disk (record { max_cache_bytes = pos 4; files = two_files })).1 ≡ true)
    × (bytes_of (evict disk (record { max_cache_bytes = pos 4; files = two_files })).0.files ≤ 4)
evict-bound_example =
    evict-bound 4 disk two_files (omega arith) ((unfold same in refl, tt), (tt, tt)) (omega arith)
      refl refl

abbrev remote_info : Objects.Info
remote_info = record {
  hash = hash;
  etag = codes "tag";
  checksum = checksum;
  legacy_checksum = [];
  size = pos 2;
}

abbrev remote_world : World (List (Bytes × Payload)) (List (Bytes × Objects.Opened))
remote_world = record empty_world {
  remote = (hash, record { content = codes "xy"; broken = false; info = remote_info }) ∷ [];
}

abbrev adopted_record : Payload
adopted_record = record two_bytes { etag = codes "tag"; created_at = some 7 }

adopted_ok :
    payload_record
      (memory_bucket Payload)
      memory_objects
      true
      true
      (λ c. checksum)
      hash
      7
      remote_world
    ≡ (
      (payload_record
          (memory_bucket Payload)
          memory_objects
          true
          true
          (λ c. checksum)
          hash
          7
          remote_world).0,
      ok adopted_record,
    )
unfolding payload_record Dict.lookup same get_payload save_record
adopted_ok = refl

payload_record-adopts_example :
    (adopted_record.hash ≡ hash)
    × (adopted_record.checksum ≡ remote_info.checksum)
    × (adopted_record.size ≡ remote_info.size)
    × (adopted_record.etag ≡ remote_info.etag)
    × (get_payload
          (memory_bucket Payload)
          hash
          (payload_record
            (memory_bucket Payload)
            memory_objects
            true
            true
            (λ c. checksum)
            hash
            7
            remote_world).0.meta
        ≡ Metadata.ok adopted_record)
payload_record-adopts_example =
    payload_record-adopts (memory_bucket Payload) memory_objects (λ c. checksum) hash 7 remote_world
      (payload_record (memory_bucket Payload) memory_objects true true (λ c. checksum) hash 7
        remote_world).0
      remote_info adopted_record (unfold Dict.lookup in unfold same in refl) refl
      (unfold same in refl) (unfold Dict.lookup in refl) adopted_ok
