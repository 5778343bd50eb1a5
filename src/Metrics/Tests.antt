-- ===== src/Metrics/Tests.antt =====
-- Runs of the metrics (internal/service/metrics.go).
use mathlib.Core.List.{Perm}
use quantix_cnnector_go.Prelude.{ℕ, ◌≡◌, refl, true, [], ◌∷◌, ◌*◌, ◌/◌}
use quantix_cnnector_go.Prelude.Int.{ℤ, pos, negsuc}
use quantix_cnnector_go.Value.{ok}
use quantix_cnnector_go.Metrics.{RuntimeMetrics, new_runtime_metrics, latency_snapshot}
use quantix_cnnector_go.Metrics.Ring.{record_all, record_all-snapshot, capacity}

-- The index without the rounding of float64.
abbrev exact : ℕ → ℤ → ℤ
exact n (pos p) = pos (n * p / 100)
exact n (negsuc p) = pos 0

record_all-snapshot_example :
    (m : RuntimeMetrics) × (record_all (new_runtime_metrics (pos 4)) (pos 7 ∷ negsuc 3 ∷ pos 5 ∷ [])
      ≡ ok m)
    × (capacity m ≡ 256)
    × Perm (latency_snapshot m) (7 ∷ 0 ∷ 5 ∷ [])
unfolding new_runtime_metrics
record_all-snapshot_example = record_all-snapshot (pos 4) (pos 7 ∷ negsuc 3 ∷ pos 5 ∷ [])

abbrev wrapped : RuntimeMetrics
wrapped = record {
  poll_cycles = 5;
  poll_errors = 0;
  mqtt_messages = 0;
  reconnects = 1;
  runtime_restarts = 0;
  published_events = 9;
  latency_ring = 40 ∷ 50 ∷ 20 ∷ 30 ∷ [];
  lat_index = 2;
  lat_filled = true;
}

wrapped_snapshot : latency_snapshot wrapped ≡ 20 ∷ 30 ∷ 40 ∷ 50 ∷ []
unfolding latency_snapshot
wrapped_snapshot = refl
