-- ===== src/Chainlink/Trace.antt =====
-- Sequences of the calls that the reader and the workers of
-- price_collector/polymarket_chainlink_collector.py make on one ChainlinkDeliveryState.
pub mod Accounts
pub mod Runs
pub mod Kept
use pythonbtccollector.Common.{ℕ, String, Bool, Option, none, some, List, [], ◌∷◌}
use pythonbtccollector.Chainlink.Types.{Sample, Sequenced}
use pythonbtccollector.Chainlink.Delivery.{
  Delivery, RawPrice, update_latest, make_history_capacity, offer_history, mark_live_attempted,
  sorted_pending, next_history_ready, mark_history_succeeded, mark_history_failed,
  release_history_inflight, raw_connection_opened, raw_connection_closed, observe_raw_event,
  close_delivery,
}

-- The history worker marks the item that it took.
pub data Call : Type 0 where
  offering : Sample → Call
  attempting : Sequenced → Bool → ℕ → Call
  taking : ℕ → Call
  writing : ℕ → Call
  failing : Call
  releasing : Call
  opening : String → Call
  losing : String → Call
  observing : RawPrice → Call
  closing : Call

-- The reader: `offer_history(update_latest(sample))`.
abbrev pub offer_sample : Option Sequenced × Delivery → Delivery
offer_sample (none, s) = s
offer_sample (some item, s) = (offer_history item s).1

abbrev pub with_item : Option Sequenced → (Sequenced → Delivery → Delivery) → Delivery → Delivery
with_item none f s = s
with_item (some item) f s = f item s

abbrev pub with_inflight : (Sequenced → Delivery → Delivery) → Delivery → Delivery
with_inflight f s = with_item s.history_inflight f s

unfoldable pub step : Call → Delivery → Delivery
unfolding update_latest make_history_capacity offer_history mark_live_attempted sorted_pending
    next_history_ready mark_history_succeeded mark_history_failed release_history_inflight
    raw_connection_opened raw_connection_closed observe_raw_event close_delivery
step (offering sample) s = offer_sample (update_latest sample s)
step (attempting item succeeded now) s = mark_live_attempted item succeeded now s
step (taking now) s = (next_history_ready now s).1
step (writing now) s = with_inflight (λ item. mark_history_succeeded item now) s
step failing s = with_inflight mark_history_failed s
step releasing s = with_inflight release_history_inflight s
step (opening id) s = raw_connection_opened id s
step (losing id) s = raw_connection_closed id s
step (observing event) s = observe_raw_event event s
step closing s = close_delivery s

unfoldable pub run : List Call → Delivery → Delivery
unfolding step
run [] s = s
run (c ∷ calls) s = run calls (step c s)
