-- ===== src/PullStats.antt =====
-- internal/httpapi/pull_stats.go: where pulled payloads came from. Each counter is the 64 bits of an
-- int64; an atomic addition is one step. The tracker of a handler built by NewV2 is never nil.
use vaps.Base.{
  ℕ, suc, ◌+◌, ◌%◌, ◌^◌, ◌≡◌, refl, Bool, true, false, List, [], ◌∷◌, arith, if◌then◌else◌, ◌∙◌,
}

pub record HitMiss : Type 0 where
  pub hits : ℕ
  pub misses : ℕ

-- pullTracker; its snapshot has the same counters.
pub record PullTracker : Type 0 where
  pub overall : HitMiss
  pub memory : HitMiss
  pub disk : HitMiss

abbrev inc64 : ℕ → ℕ
inc64 n = (n + 1) % 2 ^ 64

abbrev hit : HitMiss → HitMiss
hit c = record c { hits = inc64 c.hits }

abbrev miss : HitMiss → HitMiss
miss c = record c { misses = inc64 c.misses }

abbrev zero_counters : HitMiss
zero_counters = record { hits = 0; misses = 0 }

-- newPullTracker
abbrev pub new_pull_tracker : PullTracker
new_pull_tracker = record { overall = zero_counters; memory = zero_counters; disk = zero_counters }

unfoldable pub record_memory_hit : PullTracker → PullTracker
record_memory_hit t = record t { memory = hit t.memory; overall = hit t.overall }

unfoldable pub record_disk_hit : Bool → PullTracker → PullTracker
record_disk_hit memory_checked t = record t {
  memory = if memory_checked then miss t.memory else t.memory;
  disk = hit t.disk;
  overall = hit t.overall;
}

unfoldable pub record_remote : Bool → PullTracker → PullTracker
record_remote memory_checked t = record t {
  memory = if memory_checked then miss t.memory else t.memory;
  disk = miss t.disk;
  overall = miss t.overall;
}

-- recordPullOrigin of payload_pull.go
unfoldable pub record_pull_origin : Bool → Bool → PullTracker → PullTracker
unfolding record_disk_hit record_remote
record_pull_origin from_disk memory_checked t =
    if from_disk then record_disk_hit memory_checked t else record_remote memory_checked t

-- A pull that was answered: from memory, or from the disk or the remote store after the memory
-- cache was looked up or was off.
pub data Pull : Type 0 where
  from_memory : Pull
  from_origin : Bool → Bool → Pull

unfoldable pub step : Pull → PullTracker → PullTracker
unfolding record_memory_hit record_pull_origin
step from_memory t = record_memory_hit t
step (from_origin from_disk memory_checked) t = record_pull_origin from_disk memory_checked t

unfoldable pub run : List Pull → PullTracker → PullTracker
run [] t = t
run (p ∷ ps) t = run ps (step p t)

-- Each of the three levels explains the level above it: the pulls that hit are the memory hits and
-- the disk hits, those that missed are the disk misses, all modulo 2^64.
pub record Balanced (t : PullTracker) : Type 0 where
  pub hits : t.overall.hits ≡ (t.memory.hits + t.disk.hits) % 2 ^ 64
  pub misses : t.overall.misses ≡ t.disk.misses

step-Balanced : (p : Pull) (t : PullTracker) → Balanced t → Balanced (step p t)
unfolding step
step-Balanced from_memory t b = record { hits = omega (arith, b.hits); misses = b.misses }
step-Balanced (from_origin true m) t b = record { hits = ground arith; misses = ground arith }
step-Balanced (from_origin false m) t b = record { hits = ground arith; misses = ground arith }

run-Balanced : (ps : List Pull) (t : PullTracker) → Balanced t → Balanced (run ps t)
unfolding run
run-Balanced [] t b = b
run-Balanced (p ∷ ps) t b = run-Balanced ps (step p t) (step-Balanced p t b)

abbrev pub length_pulls : List Pull → ℕ
length_pulls [] = 0
length_pulls (p ∷ ps) = suc (length_pulls ps)

step-total :
    (p : Pull) (t : PullTracker) (n : ℕ)
    → (t.overall.hits + t.overall.misses) % 2 ^ 64 ≡ n % 2 ^ 64
    → ((step p t).overall.hits + (step p t).overall.misses) % 2 ^ 64 ≡ (n + 1) % 2 ^ 64
unfolding step
step-total from_memory t n h = omega (arith, h)
step-total (from_origin true m) t n h = omega (arith, h)
step-total (from_origin false m) t n h = omega (arith, h)

run-total :
    (ps : List Pull) (t : PullTracker) (n : ℕ)
    → (t.overall.hits + t.overall.misses) % 2 ^ 64 ≡ n % 2 ^ 64
    → ((run ps t).overall.hits + (run ps t).overall.misses) % 2 ^ 64
      ≡ (n + length_pulls ps) % 2 ^ 64
unfolding run
run-total [] t n h = omega (arith, h)
run-total (p ∷ ps) t n h = run-total ps (step p t) (n + 1) (step-total p t n h) ∙ omega arith

-- After any answered pulls the overall hits are the memory hits and the disk hits, the overall
-- misses are the disk misses, and hits and misses together are the number of the pulls, modulo
-- 2^64.
pub run-counters :
    (ps : List Pull)
    → Balanced (run ps new_pull_tracker)
      × (((run ps new_pull_tracker).overall.hits + (run ps new_pull_tracker).overall.misses)
            % 2 ^ 64
          ≡ length_pulls ps % 2 ^ 64)
run-counters ps = (
  run-Balanced ps new_pull_tracker (record { hits = omega arith; misses = refl }),
  run-total ps new_pull_tracker 0 (omega arith) ∙ omega arith,
)
