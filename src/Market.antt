-- ===== src/Market.antt =====
-- The five-minute market windows of price_collector/market.py and the history floor of
-- price_collector/retention_policy.py. Times are milliseconds since the epoch, as naturals.
pub mod Windows
pub mod Retention
mod Tests
use pythonbtccollector.Common.{
  ℕ, ◌+◌, ◌-◌, ◌*◌, ◌/◌, ◌%◌, Option, none, some, Bool, ◌==◌, if◌then◌else◌,
}

abbrev pub market_ms : ℕ
market_ms = 300_000

pub record MarketWindow : Type 0 where
  pub market_id : ℕ
  pub market_start_ms : ℕ
  pub market_end_ms : ℕ

-- `none` is the ValueError of an unaligned sample.
unfoldable pub market_for_sample_second : ℕ → Option MarketWindow
market_for_sample_second sample_second_ms =
    if sample_second_ms % 1000 == 0
    then (let market_start_ms = sample_second_ms / market_ms * market_ms in
        some (record {
          market_id = market_start_ms / market_ms;
          market_start_ms = market_start_ms;
          market_end_ms = market_start_ms + market_ms;
        }))
    else none

abbrev pub history_retention_days : ℕ
history_retention_days = 10

abbrev pub history_retention_ms : ℕ
history_retention_ms = history_retention_days * 86_400_000

-- `max(0, now_ms - HISTORY_RETENTION_MS)` is the truncated difference.
unfoldable pub retained_market_floor_ms : ℕ → ℕ
retained_market_floor_ms now_ms =
    let cutoff_ms = now_ms - history_retention_ms in
    (cutoff_ms + market_ms - 1) / market_ms * market_ms
