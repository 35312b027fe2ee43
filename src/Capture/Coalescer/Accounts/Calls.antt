-- ===== src/Capture/Coalescer/Accounts/Calls.antt =====
-- The calls of the coalescer of price_collector/raw_capture.py by any connections, and what they
-- leave.
use pythonbtccollector.Common.{ℕ, ◌+◌, ◌≡◌, Option, none, some, List, [], ◌∷◌, All}
use pythonbtccollector.Common.Dict.{nat_Eq}
use pythonbtccollector.Common.Result.{ok, err}
use pythonbtccollector.Capture.Records.{price_trace}
use pythonbtccollector.Capture.Counters.{CaptureCounters, new_counters}
use pythonbtccollector.Capture.Coalescer.{
  Coalescer, new_coalescer, Emitted, add_trade, finish_bucket, finish_if_elapsed,
}
use pythonbtccollector.Capture.Coalescer.Valid.{IsObservation, IsPending}
use pythonbtccollector.Capture.Coalescer.Groups.{emit}
use pythonbtccollector.Capture.Types.{BinanceFuturesPriceTrace, FuturesTradeObservation}

-- The traces so far, the latest first, with the coalescer and its counters.
pub record Coalescing : Type 0 where
  pub traces : List BinanceFuturesPriceTrace
  pub coalescer : Coalescer
  pub counters : CaptureCounters

-- The state after a call; one that raises changes nothing.
unfoldable pub after_call : Coalescing → Emitted → Coalescing
unfolding emit
after_call s (ok (t, c, some n)) = record { traces = emit t s.traces; coalescer = c; counters = n }
after_call s (ok (t, c, none)) = s
after_call s (err e) = s

pub data CoalescerCall : Type 0 where
  trades : FuturesTradeObservation → CoalescerCall
  elapses : ℕ → Option ℕ → CoalescerCall
  ends_capture : CoalescerCall

unfoldable pub coalescer_call : CoalescerCall → Coalescing → Coalescing
unfolding add_trade finish_if_elapsed finish_bucket after_call
coalescer_call (trades o) s = after_call s (add_trade o s.coalescer (some s.counters))
coalescer_call (elapses wall_ns monotonic_ns) s =
    after_call s (finish_if_elapsed wall_ns monotonic_ns s.coalescer (some s.counters))
coalescer_call ends_capture s = after_call s (finish_bucket s.coalescer (some s.counters))

unfoldable pub coalescer_calls : List CoalescerCall → Coalescing → Coalescing
unfolding coalescer_call
coalescer_calls [] s = s
coalescer_calls (call ∷ calls) s = coalescer_calls calls (coalescer_call call s)

-- A new coalescer, and what it has come to after the calls.
unfoldable pub new_coalescing : Coalescing
unfolding new_coalescer new_counters
new_coalescing = record { traces = []; coalescer = new_coalescer; counters = new_counters }

unfoldable pub after_all : List CoalescerCall → Coalescing
unfolding coalescer_calls new_coalescing
after_all calls = coalescer_calls calls new_coalescing

-- The trades of the traces, of the pending bucket, and of the calls.
unfoldable pub traced : List BinanceFuturesPriceTrace → ℕ
traced [] = 0
traced (t ∷ ts) = t.event_count + traced ts

unfoldable pub pending_event_count : Option BinanceFuturesPriceTrace → ℕ
pending_event_count none = 0
pending_event_count (some p) = p.event_count

unfoldable pub traded : List CoalescerCall → ℕ
traded [] = 0
traded (trades o ∷ calls) = 1 + traded calls
traded (_ ∷ calls) = traded calls

unfoldable pub IsAcceptable : CoalescerCall → Type 0
IsAcceptable (trades o) = IsObservation o
IsAcceptable _ = Unit

unfoldable pub IsPendingOption : Option BinanceFuturesPriceTrace → Type 0
IsPendingOption none = Unit
IsPendingOption (some p) = IsPending p

-- After so many trades.
unfoldable pub IsCoalescing : ℕ → Coalescing → Type 0
IsCoalescing n s =
    (n
      ≡ traced s.traces
        + pending_event_count s.coalescer.pending
        + s.counters.records_dropped_total)
    × IsPendingOption s.coalescer.pending
    × All (λ t. price_trace t ≡ ok t) s.traces

-- A call that returns, and what it leaves.
unfoldable pub Leaves : ℕ → Coalescing → Emitted → Type 0
Leaves n s m = IsCoalescing n (after_call s m)
