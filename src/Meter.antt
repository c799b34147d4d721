-- ===== src/Meter.antt =====
-- internal/httpmeter/meter.go: the counters of the requests that run and that have ended. Each counter
-- is an int64. A latency is kept in nanoseconds here, where the program keeps it in seconds; times are
-- nanoseconds. A meter is never nil.
pub mod Reached
use vaps.Base.{
  ℕ, ◌+◌, ◌-◌, ◌&&◌, Bool, true, false, List, [], ◌∷◌, ◌++◌, length, drop, ltb, leb, if◌then◌else◌,
}
use vaps.Int64.{ℤ, pos, negsuc, add64, lt_ℤ, le_ℤ}

pub record Sample : Type 0 where
  pub status : ℤ
  pub duration : ℤ
  pub bytes_in : ℤ
  pub bytes_out : ℤ

pub record Meter : Type 0 where
  pub active : ℤ
  pub count : ℤ
  pub ok : ℤ
  pub client : ℤ
  pub server : ℤ
  pub other : ℤ
  pub bytes_in : ℤ
  pub bytes_out : ℤ
  pub latencies : List ℤ
  pub window : List ℕ

-- New
abbrev pub new_meter : Meter
new_meter = record {
  active = pos 0;
  count = pos 0;
  ok = pos 0;
  client = pos 0;
  server = pos 0;
  other = pos 0;
  bytes_in = pos 0;
  bytes_out = pos 0;
  latencies = [];
  window = [];
}

-- Begin; the function that it returns is `finish`.
unfoldable pub begin : Meter → Meter
begin m = record m { active = add64 m.active (pos 1) }

-- The `switch` of finish.
unfoldable pub count_status : ℤ → Meter → Meter
count_status status m =
    if le_ℤ (pos 500) status
    then record m { server = add64 m.server (pos 1) }
    else if le_ℤ (pos 400) status
    then record m { client = add64 m.client (pos 1) }
    else if le_ℤ (pos 200) status && lt_ℤ status (pos 400)
    then record m { ok = add64 m.ok (pos 1) }
    else record m { other = add64 m.other (pos 1) }

-- The latencies behind a new one: at most 2048, maxLatencySamples.
unfoldable pub add_latency : ℤ → List ℤ → List ℤ
add_latency seconds latencies =
    let grown = latencies ++ ((if lt_ℤ seconds (pos 0) then pos 0 else seconds) ∷ []) in
    if ltb 2048 (length grown) then drop (length grown - 2048) grown else grown

-- The loop of finish over the window: what is older than a minute at its front goes.
unfoldable pub recent : ℕ → List ℕ → List ℕ
recent now [] = []
recent now (t ∷ ts) = let rest = recent now ts in if ltb (t + 60000000000) now then rest else t ∷ ts

-- finish
unfoldable pub finish : ℕ → Sample → Meter → Meter
unfolding count_status add_latency recent
finish now sample m =
    let ended = record m {
      active = add64 m.active (negsuc 0);
      count = add64 m.count (pos 1);
      bytes_in = add64 m.bytes_in sample.bytes_in;
      bytes_out = add64 m.bytes_out sample.bytes_out;
    } in
    let counted = count_status sample.status ended in
    record counted {
      latencies = add_latency sample.duration m.latencies;
      window = recent now (m.window ++ (now ∷ []));
    }
