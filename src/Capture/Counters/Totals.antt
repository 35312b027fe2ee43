-- ===== src/Capture/Counters/Totals.antt =====
-- What the counters of price_collector/raw_capture.py add, and that a snapshot of them is accepted.
use pythonbtccollector.Common.{ℕ, zero, suc, ◌+◌, ◌≡◌, ◌≤◌, ◌<◌, refl, ap, false, arith, max, All}
use pythonbtccollector.Common.Int.{pos}
use pythonbtccollector.Common.Result.{ok}
use pythonbtccollector.Capture.Types.{postgres_bigint_max}
use pythonbtccollector.Capture.Checks.{Holds, require-ok, require_int, require_positive_count}
use pythonbtccollector.Capture.Counters.{
  CaptureCounters, record_persisted, record_dropped, observe_queue_depth,
}

pub positive_count-Holds :
    (n : ℕ) → 0 < n → n ≤ postgres_bigint_max → All Holds (require_positive_count n)
unfolding require_positive_count require_int
positive_count-Holds n p q = (ground (arith, p), (ground (arith, q), tt))

pub record_persisted_lem :
    (n : ℕ) (c : CaptureCounters)
    → n ≤ postgres_bigint_max
    → record_persisted n c
      ≡ ok (record c { records_persisted_total = c.records_persisted_total + n })
unfolding record_persisted
record_persisted_lem zero c h =
    ap (λ k. ok (record c { records_persisted_total = k })) (omega arith)
record_persisted_lem (suc n) c h =
    require-ok (require_positive_count (suc n)) _ (positive_count-Holds (suc n) (omega arith) h)

pub record_dropped_lem :
    (n : ℕ) (c : CaptureCounters)
    → n ≤ postgres_bigint_max
    → record_dropped n c ≡ ok (record c { records_dropped_total = c.records_dropped_total + n })
unfolding record_dropped
record_dropped_lem zero c h = ap (λ k. ok (record c { records_dropped_total = k })) (omega arith)
record_dropped_lem (suc n) c h =
    require-ok (require_positive_count (suc n)) _ (positive_count-Holds (suc n) (omega arith) h)

pub observe_queue_depth_lem :
    (n : ℕ) (c : CaptureCounters)
    → n ≤ postgres_bigint_max
    → observe_queue_depth n c ≡ ok (record c { queue_high_water = max c.queue_high_water n })
unfolding observe_queue_depth require_int
observe_queue_depth_lem n c h =
    require-ok (require_int false (pos n)) _ (refl, (ground (arith, h), tt))
