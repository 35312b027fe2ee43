-- ===== src/Chainlink/Types.antt =====
-- The records of price_collector/polymarket_chainlink_collector.py. A price is its number of quanta of
-- 1E-18: the parser lets through no price of a finer scale.
use text.Mathlib.Text.{◌==◌ as str_eq}
use pythonbtccollector.Common.{
  ℕ, ◌*◌, ◌/◌, ◌%◌, ◌≤◌, ◌<◌, ◌+◌, ◌≡◌, String, Bool, true, false, Option, none, some, ◌==◌, ◌&&◌,
  arith, refl,
}
use pythonbtccollector.Market.{MarketWindow, market_for_sample_second, market_ms}

pub record Tick : Type 0 where
  pub symbol : String
  pub price : ℕ
  pub provider_event_ms : ℕ
  pub provider_message_ms : Option ℕ

pub record Sample : Type 0 where
  pub symbol : String
  pub price : ℕ
  pub provider_event_ms : ℕ
  pub provider_message_ms : Option ℕ
  pub received_ms : ℕ
  pub sample_second_ms : ℕ
  pub window : MarketWindow

pub record Sequenced : Type 0 where
  pub sequence : ℕ
  pub sample : Sample

abbrev pub option_eq : Option ℕ → Option ℕ → Bool
option_eq none none = true
option_eq (some a) (some b) = a == b
option_eq _ _ = false

abbrev pub window_eq : MarketWindow → MarketWindow → Bool
window_eq w v =
    w.market_id == v.market_id
    && w.market_start_ms == v.market_start_ms
    && w.market_end_ms == v.market_end_ms

abbrev pub sample_eq : Sample → Sample → Bool
sample_eq a b =
    str_eq a.symbol b.symbol
    && a.price == b.price
    && a.provider_event_ms == b.provider_event_ms
    && option_eq a.provider_message_ms b.provider_message_ms
    && a.received_ms == b.received_ms
    && a.sample_second_ms == b.sample_second_ms
    && window_eq a.window b.window

-- `==` of two items, which compares their fields.
abbrev pub item_eq : Sequenced → Sequenced → Bool
item_eq a b = a.sequence == b.sequence && sample_eq a.sample b.sample

abbrev pub sample_second_ms_for_provider_event : ℕ → ℕ
sample_second_ms_for_provider_event provider_event_ms = provider_event_ms / 1000 * 1000

abbrev pub sample_in : Tick → ℕ → ℕ → Option MarketWindow → Option Sample
sample_in tick received_ms second none = none
sample_in tick received_ms second (some window) = some (record {
  symbol = tick.symbol;
  price = tick.price;
  provider_event_ms = tick.provider_event_ms;
  provider_message_ms = tick.provider_message_ms;
  received_ms = received_ms;
  sample_second_ms = second;
  window = window;
})

-- None is the ValueError of the window.
unfoldable pub build_polymarket_chainlink_sample : Tick → ℕ → Option Sample
unfolding market_for_sample_second
build_polymarket_chainlink_sample tick received_ms =
    let second = sample_second_ms_for_provider_event tick.provider_event_ms in
    sample_in tick received_ms second (market_for_sample_second second)

-- Every tick gives a sample: its second is the whole second of the provider's event, and its window
-- is the five minutes that hold the event.
pub sample_of_tick :
    (tick : Tick) (received_ms : ℕ)
    → (x : Sample) × (build_polymarket_chainlink_sample tick received_ms ≡ some x)
      × (x.sample_second_ms % 1000 ≡ 0)
      × (x.sample_second_ms ≤ tick.provider_event_ms)
      × (tick.provider_event_ms < x.sample_second_ms + 1000)
      × (x.window.market_start_ms % market_ms ≡ 0)
      × (x.window.market_start_ms ≤ tick.provider_event_ms)
      × (tick.provider_event_ms < x.window.market_end_ms)
      × (x.window.market_end_ms ≡ x.window.market_start_ms + market_ms)
unfolding build_polymarket_chainlink_sample
sample_of_tick tick received_ms =
    rw aligned
      (_, refl, omega arith, omega arith, omega arith, omega arith, omega arith, omega arith, refl)
  where
    aligned : (sample_second_ms_for_provider_event tick.provider_event_ms % 1000 == 0) ≡ true
    aligned = ground arith
