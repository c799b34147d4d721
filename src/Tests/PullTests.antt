-- ===== src/Tests/PullTests.antt =====
-- A pull of a payload of two bytes that only the durable store has.
use vaps.Base.{arith, Option, none, some, ◌≡◌, refl, true, false, [], ◌∷◌}
use vaps.Text.{Bytes, codes, same, to_lower}
use vaps.Int64.{pos}
use vaps.Dict.{Dict, lookup}
use vaps.Blobs
use vaps.Bucket.{memory_bucket}
use vaps.Blobs.{Disk, relative_path}
use vaps.Objects
use vaps.Objects.{memory_objects}
use vaps.Metadata.{Payload, get_payload}
use vaps.Payloads
use vaps.Payloads.{
  World, put_payload_durably, commit_payload_metadata, validate_remote_payload, save_record,
  record_payload_etag,
}
use vaps.Payloads.Resolve.{payload_record}
use vaps.Pull.Opening.{Result, ok, Opened, exists_info, open_disk_or_remote}
use vaps.Pull.Pushed.{open_disk_or_remote-uploaded}
use vaps.Pull.Opened.{Checked, open_disk_or_remote-Checked}

abbrev disk : Disk
disk = record {
  temp = true;
  open_temp = true;
  close_temp = true;
  make_dir = true;
  link = true;
  sync_dir = true;
  remove_temp = true;
  stat = true;
  read = true;
  walk = true;
  remove_cached = true;
}

abbrev hash : Bytes
hash = codes "0123456789abcdef0123456789abcdef01234567"

abbrev object : Objects.Opened
object = record {
  content = codes "xy";
  broken = false;
  info = record {
    hash = hash;
    etag = codes "tag";
    checksum = codes "0a1b2c3d";
    legacy_checksum = [];
    size = pos 2;
  };
}

abbrev remote_world : World (Dict Payload) (Dict Objects.Opened)
remote_world = record {
  blobs = record { max_cache_bytes = pos 0; files = [] };
  remote = (hash, object) ∷ [];
  meta = record { db = []; dashboard_payloads = []; dashboard_querying = false };
}

abbrev pulled : World (Dict Payload) (Dict Objects.Opened) × Result Opened
pulled =
    open_disk_or_remote (memory_bucket Payload) memory_objects true true (λ c. codes "0a1b2c3d")
      disk hash 7 remote_world

abbrev pulled_payload : Opened
pulled_payload = record {
  content = codes "xy";
  broken = false;
  info = record {
    hash = hash;
    etag = codes "tag";
    checksum = codes "0a1b2c3d";
    size = pos 2;
    created = false;
  };
  from_disk = false;
}

pulled_ok : pulled ≡ (pulled.0, ok pulled_payload)
unfolding open_disk_or_remote same lookup payload_record get_payload save_record exists_info
    relative_path validate_remote_payload record_payload_etag
pulled_ok = refl

open_disk_or_remote-Checked_example :
    (p : Payload) × (x : World (Dict Payload) (Dict Objects.Opened)) × (payload_record
        (memory_bucket Payload)
        memory_objects
        true
        true
        (λ c. codes "0a1b2c3d")
        hash
        7
        remote_world
      ≡ (x, Payloads.ok p))
    × Checked
        (memory_bucket Payload)
        memory_objects
        true
        true
        (λ c. codes "0a1b2c3d")
        hash
        p
        x
        pulled_payload
open_disk_or_remote-Checked_example =
    open_disk_or_remote-Checked (memory_bucket Payload) memory_objects true true
      (λ c. codes "0a1b2c3d") disk hash 7 remote_world pulled.0 pulled_payload pulled_ok

abbrev sum_of : Bytes → Bytes
sum_of content = codes "0a1b2c3d"

abbrev empty_world : World (Dict Payload) (Dict Objects.Opened)
empty_world = record remote_world { remote = [] }

abbrev uploaded : World (Dict Payload) (Dict Objects.Opened) × Payloads.Result Blobs.Info
uploaded =
    put_payload_durably (memory_bucket Payload) memory_objects true true sum_of disk (pos 5) hash
      (codes "0a1b2c3d") (codes "xy") false empty_world

abbrev uploaded_info : Blobs.Info
uploaded_info = record {
  hash = hash;
  etag = codes "tag";
  checksum = codes "0a1b2c3d";
  size = pos 2;
  created = true;
}

uploaded_ok : uploaded ≡ (uploaded.0, Payloads.ok uploaded_info)
unfolding put_payload_durably same to_lower
uploaded_ok = refl

abbrev noted : World (Dict Payload) (Dict Objects.Opened) × Option Payloads.Error
noted =
    commit_payload_metadata (memory_bucket Payload) memory_objects true true sum_of disk 6
      uploaded_info uploaded.0

noted_ok : noted ≡ (noted.0, none)
unfolding commit_payload_metadata put_payload_durably same to_lower
noted_ok = refl

abbrev evicted : World (Dict Payload) (Dict Objects.Opened)
evicted = record noted.0 { blobs = record { max_cache_bytes = pos 0; files = [] } }

abbrev opened : World (Dict Payload) (Dict Objects.Opened) × Result Opened
opened =
    open_disk_or_remote (memory_bucket Payload) memory_objects true true sum_of disk hash 7 evicted

opened_ok : opened ≡ (opened.0, ok pulled_payload)
unfolding commit_payload_metadata put_payload_durably same to_lower open_disk_or_remote lookup
    payload_record get_payload save_record exists_info relative_path validate_remote_payload
    record_payload_etag
opened_ok = refl

no_record : (p : Payload) → lookup hash uploaded.0.meta.db ≡ some p → p.hash ≡ hash
unfolding put_payload_durably same to_lower lookup
no_record p h = absurd (ground arith)

open_disk_or_remote-uploaded_example : codes "xy" ≡ codes "xy"
open_disk_or_remote-uploaded_example =
    open_disk_or_remote-uploaded (memory_bucket Payload) memory_objects sum_of disk disk (pos 5) 6 7
      hash (codes "0a1b2c3d") (codes "xy") empty_world uploaded.0 noted.0 opened.0 uploaded_info
      evicted.blobs pulled_payload uploaded_ok refl no_record noted_ok opened_ok refl
