-- ===== src/Market/Windows.antt =====
-- The windows of market.py cut the aligned seconds into consecutive markets.
use pythonbtccollector.Common.{ℕ, ◌+◌, ◌*◌, ◌%◌, ◌≤◌, ◌<◌, ◌≡◌, ◌↔◌, none, some, arith}
use pythonbtccollector.Market.{MarketWindow, market_ms, market_for_sample_second}

-- A window is returned exactly for a whole second; it then starts at its id times five minutes,
-- lasts five minutes and contains the sample.
pub market_window_contains :
    (sample_second_ms : ℕ) (w : MarketWindow)
    → market_for_sample_second sample_second_ms ≡ some w
    → (sample_second_ms % 1000 ≡ 0)
      × (w.market_start_ms ≡ w.market_id * market_ms)
      × (w.market_end_ms ≡ w.market_start_ms + market_ms)
      × (w.market_start_ms ≤ sample_second_ms)
      × (sample_second_ms < w.market_end_ms)
unfolding market_for_sample_second
market_window_contains s w h = ground arith

pub market_window_rejects :
    (sample_second_ms : ℕ)
    → (market_for_sample_second sample_second_ms ≡ none) ↔ (¬ (sample_second_ms % 1000 ≡ 0))
unfolding market_for_sample_second
market_window_rejects s = ground arith

-- Of two aligned seconds, the second lies in the window of the first exactly when both have the
-- same window.
pub market_window_unique :
    (s t : ℕ) (w v : MarketWindow)
    → market_for_sample_second s ≡ some w
    → market_for_sample_second t ≡ some v
    → ((w.market_start_ms ≤ t) × (t < w.market_end_ms)) ↔ (w ≡ v)
unfolding market_for_sample_second
market_window_unique s t w v p q = ground arith
