-- ===== src/Metrics.antt =====
-- internal/service/metrics.go: counters and the ring of poll latencies. A latency is a number of
-- nanoseconds, not negative once it is recorded.
pub mod Ring
pub mod Sorted
mod Tests
use quantix_cnnector_go.Prelude.{
  ℕ, suc, zero, ◌+◌, ◌-◌, ◌%◌, ◌^◌, Bool, true, false, Option, none, some, List, [], ◌∷◌, ltb, leb,
  if◌then◌else◌, length, get_or, set, take, replicate,
}
use quantix_cnnector_go.Prelude.Int.{ℤ, pos, negsuc, leb_ℤ, ltb_ℤ, pos_part}
use quantix_cnnector_go.Value.{Result, ok, err, panic}

pub record RuntimeMetrics : Type 0 where
  pub poll_cycles : ℕ
  pub poll_errors : ℕ
  pub mqtt_messages : ℕ
  pub reconnects : ℕ
  pub runtime_restarts : ℕ
  pub published_events : ℕ
  pub latency_ring : List ℕ
  pub lat_index : ℕ
  pub lat_filled : Bool

abbrev pub next_u64 : ℕ → ℕ
next_u64 n = (n + 1) % 2 ^ 64

abbrev samples_or_least : ℤ → ℕ
samples_or_least samples = if ltb_ℤ samples (pos 256) then 256 else pos_part samples

pub new_runtime_metrics : ℤ → RuntimeMetrics
new_runtime_metrics samples = record {
  poll_cycles = 0;
  poll_errors = 0;
  mqtt_messages = 0;
  reconnects = 0;
  runtime_restarts = 0;
  published_events = 0;
  latency_ring = replicate (samples_or_least samples) 0;
  lat_index = 0;
  lat_filled = false;
}

unfoldable pub inc_poll_cycle : RuntimeMetrics → RuntimeMetrics
inc_poll_cycle m = record m { poll_cycles = next_u64 m.poll_cycles }

unfoldable pub inc_poll_error : RuntimeMetrics → RuntimeMetrics
inc_poll_error m = record m { poll_errors = next_u64 m.poll_errors }

unfoldable pub inc_reconnect : RuntimeMetrics → RuntimeMetrics
inc_reconnect m = record m { reconnects = next_u64 m.reconnects }

unfoldable pub inc_runtime_restart : RuntimeMetrics → RuntimeMetrics
inc_runtime_restart m = record m { runtime_restarts = next_u64 m.runtime_restarts }

unfoldable pub inc_mqtt_message : RuntimeMetrics → RuntimeMetrics
inc_mqtt_message m = record m { mqtt_messages = next_u64 m.mqtt_messages }

unfoldable pub inc_published_event : RuntimeMetrics → RuntimeMetrics
inc_published_event m = record m { published_events = next_u64 m.published_events }

abbrev pub clamp : ℤ → ℕ
clamp (pos n) = n
clamp (negsuc n) = 0

-- A write outside the ring is a run-time panic.
unfoldable pub record_poll_latency : RuntimeMetrics → ℤ → Result RuntimeMetrics
record_poll_latency m d =
    let written = set m.latency_ring m.lat_index (clamp d) in
    let wraps = leb (length m.latency_ring) (suc m.lat_index) in
    if ltb m.lat_index (length m.latency_ring)
    then ok (record m {
      latency_ring = written;
      lat_index = if wraps then 0 else suc m.lat_index;
      lat_filled = if wraps then true else m.lat_filled;
    })
    else panic

-- sort.Slice by `<`
pub insert : ℕ → List ℕ → List ℕ
insert x [] = x ∷ []
insert x (y ∷ ys) = if ltb y x then y ∷ insert x ys else x ∷ y ∷ ys

pub sort : List ℕ → List ℕ
unfolding insert
sort [] = []
sort (x ∷ xs) = insert x (sort xs)

pub latency_snapshot : RuntimeMetrics → List ℕ
unfolding sort
latency_snapshot m =
    sort (take (if m.lat_filled then length m.latency_ring else m.lat_index) m.latency_ring)

-- `scaled n p` stands for int(float64(n) * (float64(p) / 100.0)).
module _ (scaled : ℕ → ℤ → ℤ) where
  abbrev pub within_values : ℕ → ℤ → ℕ
  within_values size (negsuc i) = 0
  within_values size (pos i) = if leb size i then size - 1 else i

  pub percentile : List ℕ → ℤ → ℕ
  percentile [] p = 0
  percentile (v ∷ vs) p =
      if leb_ℤ p (pos 0)
      then v
      else if leb_ℤ (pos 100) p
      then get_or (v ∷ vs) (length vs) 0
      else get_or (v ∷ vs) (within_values (suc (length vs)) (scaled (length vs) p)) 0
