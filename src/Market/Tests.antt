-- ===== src/Market/Tests.antt =====
-- Runs of the market functions, and the theorems at concrete inputs.
use pythonbtccollector.Common.{◌+◌, ◌*◌, ◌%◌, ◌≤◌, ◌<◌, ◌≡◌, ◌↔◌, refl, some}
use pythonbtccollector.Market.{
  MarketWindow, market_ms, history_retention_ms, market_for_sample_second, retained_market_floor_ms,
}
use pythonbtccollector.Market.Windows.{market_window_unique}
use pythonbtccollector.Market.Retention.{retained_market_floor_least}

abbrev window : MarketWindow
window = record { market_id = 5; market_start_ms = 1_500_000; market_end_ms = 1_800_000 }

market_for_1_777 : market_for_sample_second 1_777_000 ≡ some window
unfolding market_for_sample_second
market_for_1_777 = refl

market_for_1_500 : market_for_sample_second 1_500_000 ≡ some window
unfolding market_for_sample_second
market_for_1_500 = refl

floor_rounds_up : retained_market_floor_ms 864_000_001 ≡ 300_000
unfolding retained_market_floor_ms
floor_rounds_up = refl

market_window_unique_example :
    ((window.market_start_ms ≤ 1_500_000) × (1_500_000 < window.market_end_ms)) ↔ (window ≡ window)
market_window_unique_example =
    market_window_unique 1_777_000 1_500_000 window window market_for_1_777 market_for_1_500

retained_market_floor_least_example :
    (retained_market_floor_ms 1_000_000_000 % market_ms ≡ 0)
    × ((retained_market_floor_ms 1_000_000_000 ≤ 454 * market_ms)
        ↔ (1_000_000_000 ≤ 454 * market_ms + history_retention_ms))
retained_market_floor_least_example = retained_market_floor_least 1_000_000_000 454
