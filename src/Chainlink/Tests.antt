-- ===== src/Chainlink/Tests.antt =====
-- Runs of the delivery of price_collector/polymarket_chainlink_collector.py on concrete samples.
use pythonbtccollector.Common.{
  ℕ, ◌+◌, ◌≤◌, ◌<◌, ◌%◌, ◌≡◌, refl, ◌⊎◌, true, false, none, some, List, [], ◌∷◌, All, length,
}
use pythonbtccollector.Market.{market_ms}
use pythonbtccollector.Chainlink.Types.{
  Tick, Sample, Sequenced, build_polymarket_chainlink_sample, sample_of_tick,
}
use pythonbtccollector.Chainlink.Delivery.{
  Delivery, empty_delivery, new_delivery, next_history_ready, newest_second, is_inflight,
  offer_history, mark_history_succeeded,
}
use pythonbtccollector.Chainlink.Delivery.Order.{Holds, history_in_order}
use pythonbtccollector.Chainlink.Trace.{Call, offering, taking, writing, run}
use pythonbtccollector.Chainlink.Trace.Accounts.{Accounts}
use pythonbtccollector.Common.Dict.{lookup, nat_Eq}
use pythonbtccollector.Chainlink.Trace.Kept.{history_kept}
use pythonbtccollector.Chainlink.Trace.Runs.{settled, history_accounted}

abbrev tick : Tick
tick = record {
  symbol = "BTCUSD";
  price = 60_000_000_000_000_000_000_000;
  provider_event_ms = 301_250;
  provider_message_ms = none;
}

sample_of_tick_example :
    (x : Sample) × (build_polymarket_chainlink_sample tick 301_400 ≡ some x)
    × (x.sample_second_ms % 1000 ≡ 0)
    × (x.sample_second_ms ≤ 301_250)
    × (301_250 < x.sample_second_ms + 1000)
    × (x.window.market_start_ms % market_ms ≡ 0)
    × (x.window.market_start_ms ≤ 301_250)
    × (301_250 < x.window.market_end_ms)
    × (x.window.market_end_ms ≡ x.window.market_start_ms + market_ms)
sample_of_tick_example = sample_of_tick tick 301_400

abbrev sample : ℕ → ℕ → Sample
sample second received = record {
  symbol = "BTCUSD";
  price = 1;
  provider_event_ms = second;
  provider_message_ms = none;
  received_ms = received;
  sample_second_ms = second;
  window = record { market_id = 0; market_start_ms = 0; market_end_ms = 300_000 };
}

-- The sample of second 1000 is replaced while it is written, and second 2000 is dropped for 3000.
abbrev calls : List Call
calls =
    offering (sample 1000 1100)
    ∷ offering (sample 2000 2100)
    ∷ taking 2200
    ∷ offering (sample 1000 2300)
    ∷ offering (sample 3000 3100)
    ∷ writing 3200
    ∷ []

abbrev fresh_state : Delivery
fresh_state = empty_delivery 2 1000

fresh_state_made : new_delivery 2 1000 ≡ some fresh_state
unfolding new_delivery
fresh_state_made = refl

abbrev after : Delivery
after = run calls fresh_state

history_accounted_example :
    Accounts after.sequence
      (length after.history_pending)
      after.history_collapsed_total
      after.history_pending_dropped_total
      (settled calls fresh_state)
      after.history_persisted_total
      after.history_pending_high_water
      after.history_capacity_seconds
history_accounted_example = history_accounted 2 1000 calls {s = fresh_state} fresh_state_made

-- Four samples: two pending, one replaced and written, one dropped.
after_counts :
    (after.sequence ≡ 4)
    × (length after.history_pending ≡ 2)
    × (after.history_collapsed_total ≡ 1)
    × (after.history_pending_dropped_total ≡ 1)
    × (settled calls fresh_state ≡ 0)
    × (after.history_persisted_total ≡ 1)
unfolding run settled
after_counts = (refl, refl, refl, refl, refl, refl)

abbrev replaced : Sequenced
replaced = record { sequence = 3; sample = sample 1000 2300 }

replaced_next : (next_history_ready 3200 after).0 ≡ some replaced
unfolding run next_history_ready
replaced_next = refl

history_in_order_example :
    (after.history_inflight ≡ none)
    × ((next_history_ready 3200 after).1.history_inflight ≡ some replaced)
    × ((k : ℕ) × Holds (k, replaced) after.history_pending
        × All (λ y. k ≤ y.0) after.history_pending
        × (after.accepting ≡ true
            → (k < newest_second after.history_pending) ⊎ (2300 + after.history_settle_ms ≤ 3200)))
history_in_order_example = history_in_order 3200 after {item = replaced} replaced_next

-- The replaced second is pending when another second is offered or written.
abbrev another : Sequenced
another = record { sequence = 5; sample = sample 4000 4100 }

abbrev fifth : Delivery
fifth = (offer_history another after).1

abbrev old_second : ℕ
old_second = 1000

replaced_pending : lookup old_second after.history_pending ≡ some replaced
unfolding run
replaced_pending = refl

history_kept_example :
    ((old_second ≡ another.sample.sample_second_ms)
      ⊎ ((lookup old_second fifth.history_pending ≡ some replaced)
          ⊎ ((fifth.history_pending_dropped_total ≡ after.history_pending_dropped_total + 1)
              × (is_inflight after.history_inflight old_second ≡ false))))
    × ((lookup old_second (mark_history_succeeded another 3300 after).history_pending
          ≡ some replaced)
        ⊎ ((old_second ≡ another.sample.sample_second_ms) × (replaced.sequence ≡ another.sequence)))
history_kept_example = history_kept old_second 3300 replaced another after replaced_pending
