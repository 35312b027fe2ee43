-- ===== src/Capture/Coalescer/Accounts.antt =====
-- That the coalescer of price_collector/raw_capture.py loses no trade, whatever connections and
-- clocks its trades have.
pub mod Calls
mod Trades
use pythonbtccollector.Common.{
  ℕ, ◌+◌, ◌≡◌, ◌≤◌, refl, sym, ap, subst, true, false, Option, none, some, List, [], ◌∷◌, ltb, ◌==◌,
  ◌&&◌, arith, All, if◌then◌else◌, if_elim,
}
use pythonbtccollector.Common.Int.{pos}
use pythonbtccollector.Common.Dict.{lookup, nat_Eq}
use pythonbtccollector.Common.Result.{ok, err, ◌>>◌, >>=_ok}
use pythonbtccollector.Capture.Checks.{Test, require, require_int}
use pythonbtccollector.Capture.Records.{price_trace}
use pythonbtccollector.Capture.Counters.{CaptureCounters, new_counters, record_coalesced}
use pythonbtccollector.Capture.Coalescer.{
  bucket_of, open_bucket, add_to_bucket, Coalescer, new_coalescer, Emitted, note_sealed,
  seal_pending, join_bucket, seal_and_open, already_sealed, add_open, add_trade, finish_by_pending,
  finish_bucket, drop_out_of_sequence, finish_if_elapsed, elapsed_by_pending, clock_tests,
  has_elapsed,
}
use pythonbtccollector.Capture.Coalescer.Valid.{
  IsObservation, IsPending, price_trace-ok, open_bucket-IsPending, add_to_bucket-IsPending,
}
use pythonbtccollector.Capture.Coalescer.Groups.{emit}
use pythonbtccollector.Capture.Types.{
  BinanceFuturesPriceTrace, FuturesTradeObservation, postgres_integer_max,
}
use pythonbtccollector.Capture.Coalescer.Accounts.Calls.{
  Coalescing, after_call, CoalescerCall, coalescer_call, coalescer_calls, new_coalescing, after_all,
  traced, pending_event_count, traded, IsAcceptable, IsPendingOption, IsCoalescing, Leaves, trades,
  elapses, ends_capture,
}
use pythonbtccollector.Capture.Coalescer.Accounts.Trades.{finishes, adds}

requires :
    (n : ℕ) (s : Coalescing) (tests : List Test) (c : Coalescer) (m : Emitted)
    → IsCoalescing n s
    → Leaves n s m
    → Leaves n s (require tests c >> m)
unfolding Leaves after_call
requires n s [] c m k h = h
requires n s ((true, e) ∷ tests) c m k h = requires n s tests c m k h
requires n s ((false, e) ∷ tests) c m k h = k

traded_split :
    (call : CoalescerCall) (calls : List CoalescerCall)
    → traded (call ∷ calls) ≡ traded (call ∷ []) + traded calls
unfolding traded
traded_split (trades o) calls = omega arith
traded_split (elapses wall_ns monotonic_ns) calls = omega arith
traded_split ends_capture calls = omega arith

elapses_by :
    (n : ℕ) (s : Coalescing) (wall_ns : ℕ) (monotonic_ns : Option ℕ)
    (pending : Option BinanceFuturesPriceTrace)
    → s.coalescer.pending ≡ pending
    → n ≤ postgres_integer_max
    → IsCoalescing n s
    → Leaves n s (elapsed_by_pending wall_ns monotonic_ns pending s.coalescer (some s.counters))
unfolding elapsed_by_pending Leaves after_call emit finish_bucket
elapses_by n s wall_ns monotonic_ns none at few k = k
elapses_by n s wall_ns monotonic_ns (some p) at few k =
    requires n s (clock_tests monotonic_ns p) s.coalescer
      (if has_elapsed wall_ns monotonic_ns p
        then finish_bucket s.coalescer (some s.counters)
        else ok (none, s.coalescer, some s.counters))
      k
      (if_elim (Leaves n s) (has_elapsed wall_ns monotonic_ns p)
        (λ elapsed. finishes n s s.coalescer.pending refl few k) (λ waits. k))

calls_keep :
    (call : CoalescerCall) (n : ℕ) (s : Coalescing)
    → IsAcceptable call
    → n ≤ postgres_integer_max
    → IsCoalescing n s
    → IsCoalescing (n + traded (call ∷ [])) (coalescer_call call s)
unfolding coalescer_call traded IsAcceptable Leaves finish_if_elapsed finish_bucket require_int
calls_keep (trades o) n s h few k = adds n s o h few k
calls_keep (elapses wall_ns monotonic_ns) n s h few k =
    subst
      (λ m.
        IsCoalescing m
          (after_call s (finish_if_elapsed wall_ns monotonic_ns s.coalescer (some s.counters))))
      (omega arith)
      (requires n s (require_int true (pos wall_ns)) s.coalescer
        (elapsed_by_pending wall_ns monotonic_ns s.coalescer.pending s.coalescer (some s.counters))
        k (elapses_by n s wall_ns monotonic_ns s.coalescer.pending refl few k))
calls_keep ends_capture n s h few k =
    subst (λ m. IsCoalescing m (after_call s (finish_bucket s.coalescer (some s.counters))))
      (omega arith) (finishes n s s.coalescer.pending refl few k)

runs_keep :
    (calls : List CoalescerCall) (n : ℕ) (s : Coalescing)
    → All IsAcceptable calls
    → n + traded calls ≤ postgres_integer_max
    → IsCoalescing n s
    → IsCoalescing (n + traded calls) (coalescer_calls calls s)
unfolding coalescer_calls traded
runs_keep [] n s h few k = subst (λ m. IsCoalescing m s) (omega arith) k
runs_keep (call ∷ calls) n s h few k =
    let split : (traded (call ∷ calls) ≡ traded (call ∷ []) + traded calls) =
      traded_split call calls in
    let next =
      runs_keep calls (n + traded (call ∷ [])) (coalescer_call call s) h.1
        (omega (arith, few, split)) (calls_keep call n s h.0 (omega (arith, few)) k) in
    subst (λ m. IsCoalescing m (coalescer_calls calls (coalescer_call call s)))
      (omega (arith, split)) next

-- Of acceptable trades of any connections, in any order and with the clocks checked or the capture
-- ended at any point, each is in a trace, in the pending bucket, or counted as dropped, and once;
-- and every trace passes its checks. There are at most 2,147,483,647 trades, each received at least
-- 100 ms after the epoch.
pub every_trade_counted :
    (calls : List CoalescerCall)
    → All IsAcceptable calls
    → traded calls ≤ postgres_integer_max
    → (traded calls
        ≡ traced (after_all calls).traces
          + pending_event_count (after_all calls).coalescer.pending
          + (after_all calls).counters.records_dropped_total)
      × All (λ t. price_trace t ≡ ok t) (after_all calls).traces
unfolding IsCoalescing after_all new_coalescer new_counters traced pending_event_count
    IsPendingOption
every_trade_counted calls h few =
    let k = runs_keep calls 0 new_coalescing h (omega (arith, few)) (refl, tt, tt) in
    (omega (arith, k.0), k.2)
