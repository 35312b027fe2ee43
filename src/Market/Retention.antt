-- ===== src/Market/Retention.antt =====
-- The history floor of retention_policy.py.
use pythonbtccollector.Common.{ℕ, ◌+◌, ◌*◌, ◌%◌, ◌≤◌, ◌≡◌, ◌↔◌, arith}
use pythonbtccollector.Market.{market_ms, history_retention_ms, retained_market_floor_ms}

-- The floor is the start of a market, and a market starts at or after the floor exactly when it
-- starts at or after the ten-day cutoff.
pub retained_market_floor_least :
    (now_ms market_id : ℕ)
    → (retained_market_floor_ms now_ms % market_ms ≡ 0)
      × ((retained_market_floor_ms now_ms ≤ market_id * market_ms)
          ↔ (now_ms ≤ market_id * market_ms + history_retention_ms))
unfolding retained_market_floor_ms
retained_market_floor_least now_ms market_id = (omega arith, (λ h. omega arith, λ h. omega arith))
