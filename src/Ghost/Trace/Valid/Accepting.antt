-- ===== src/Ghost/Trace/Valid/Accepting.antt =====
-- The invariant of the engine of price_collector/ghost_twap.py under `accept`.
use pythonbtccollector.Common.{
  ℕ, ◌≡◌, refl, false, Option, none, some, [], ◌∷◌, arith, All, length, All-imp, Bool-cases, inl,
  inr, ltb, subst, sym, ◌∙◌,
}
use pythonbtccollector.Common.Dict.{insert}
use pythonbtccollector.Common.Result.{ok, err}
use pythonbtccollector.Ghost.Types.{
  Feed, spot, twap, PriceEvent, received_ms, GapReason, connection_end,
}
use pythonbtccollector.Ghost.Engine.{Engine, key_Eq, key_eq_iff, History, key_of, prune}
use pythonbtccollector.Ghost.Gap.{
  Outcome, record_gap, apply_gap, end_connection, lose_feed, clear_spot_reconnect,
  resolve_spot_reconnect,
}
use pythonbtccollector.Ghost.Accept.{
  accept, store_event, sequence_gaps, capacity_gaps, note_twap, remember, enforce_capacity,
  regresses, finish_accept,
}
use pythonbtccollector.Ghost.Trace.Valid.{
  OptionAll, Received, Entry, IsValid, prune-IsValid, resolve_spot_reconnect-IsValid,
  sequence_gaps-IsValid, capacity_gaps-IsValid,
}

insert-Entry :
    (last : Option PriceEvent) (e : PriceEvent) (h : History)
    → All (Entry last) h
    → Received last e
    → All (Entry last) (insert (key_of e) e h)
insert-Entry last e [] a r = ((refl, r), tt)
insert-Entry last e (x ∷ h) a r =
    ground (arith, key_eq_iff (key_of e) x.0, insert-Entry last e h a.1 r)

pub remember-IsValid :
    (event : PriceEvent) (s : Engine)
    → IsValid s
    → Received s.last_event event
    → IsValid (remember event s)
unfolding remember
remember-IsValid event s v r = ground (arith, insert-Entry s.last_event event s.history v.entries r)

pub note_twap-IsValid : (event : PriceEvent) (s : Engine) → IsValid s → IsValid (note_twap event s)
unfolding note_twap
note_twap-IsValid event s v = ground arith

-- The receipts that were the latest stay received after a later one.
pub Received-later :
    (last : Option PriceEvent) (event e : PriceEvent)
    → regresses event last ≡ false
    → Received last e
    → Received (some event) e
Received-later none event e h r = absurd r
Received-later (some last) event e h r = ground arith

pub advance-IsValid :
    (event : PriceEvent) (s : Engine)
    → regresses event s.last_event ≡ false
    → IsValid s
    → IsValid (record s { last_event = some event })
advance-IsValid event s h v = record {
  entries =
      All-imp (Entry s.last_event) (Entry (some event))
        (λ x q. (q.0, Received-later s.last_event event x.1 h q.1)) s.history v.entries;
  spot_received = OptionAll-later s.current_spot v.spot_received;
  twap_received = OptionAll-later s.current_twap v.twap_received;
  reconnect_ready = v.reconnect_ready;
}
  where
    OptionAll-later :
        (o : Option PriceEvent)
        → OptionAll (Received s.last_event) o
        → OptionAll (Received (some event)) o
    OptionAll-later none q = tt
    OptionAll-later (some e) q = Received-later s.last_event event e h q

pub remember-advance :
    (event : PriceEvent) (s : Engine)
    → record (remember event s) { last_event = some event }
      ≡ remember event (record s { last_event = some event })
unfolding remember
remember-advance event s = ground arith

pub last_event-record_gap :
    (feed : Feed) (reason : GapReason) (wall mono : Option ℕ) (s : Engine)
    → (record_gap feed reason wall mono s).1.last_event ≡ s.last_event
unfolding record_gap apply_gap end_connection lose_feed
last_event-record_gap spot connection_end wall mono s = ground arith
last_event-record_gap spot reason wall mono s = ground arith
last_event-record_gap twap reason wall mono s = ground arith

pub last_event-sequence_gaps : (s : Engine) → (sequence_gaps s).last_event ≡ s.last_event
unfolding sequence_gaps
last_event-sequence_gaps s = grind (arith, last_event-record_gap)

pub last_event-capacity_gaps : (s : Engine) → (capacity_gaps s).last_event ≡ s.last_event
unfolding capacity_gaps
last_event-capacity_gaps s = grind (arith, last_event-record_gap)

pub last_event-resolve_spot_reconnect :
    (event : PriceEvent) (s : Engine) → (resolve_spot_reconnect event s).1.last_event ≡ s.last_event
unfolding resolve_spot_reconnect clear_spot_reconnect lose_feed
last_event-resolve_spot_reconnect event s = ground arith

pub enforce_capacity-IsValid :
    (event : PriceEvent) (s : Engine)
    → s.last_event ≡ some event
    → IsValid s
    → IsValid (enforce_capacity event s)
unfolding enforce_capacity
enforce_capacity-IsValid event s e v =
    elim (Bool-cases (ltb s.policy.max_events (length s.history))) [
      | inl over ↦ rw over (
          remember-IsValid event (capacity_gaps s) (capacity_gaps-IsValid s v) (
            subst (λ last. Received last event) (sym (last_event-capacity_gaps s ∙ e))
              (omega arith)))
      | inr fits ↦ rw fits v
    ]

pub last_event-prune : (wall_ms : ℕ) (s : Engine) → (prune wall_ms s).last_event ≡ s.last_event
unfolding prune
last_event-prune wall_ms s = refl

pub last_event-note_twap :
    (event : PriceEvent) (s : Engine) → (note_twap event s).last_event ≡ s.last_event
unfolding note_twap
last_event-note_twap event s = ground arith

pub store_event-IsValid :
    (event : PriceEvent) (s : Engine)
    → regresses event s.last_event ≡ false
    → IsValid s
    → IsValid (store_event event s)
unfolding store_event
store_event-IsValid event s h v =
    enforce_capacity-IsValid event _ (last_event-prune (received_ms event) _) (
      prune-IsValid (received_ms event) _ (
        subst IsValid (sym (remember-advance event (note_twap event s))) (
          remember-IsValid event _
            (advance-IsValid event (note_twap event s) (rw last_event-note_twap h)
              (note_twap-IsValid event s v))
            (omega arith))))

pub finish_accept-IsValid :
    (event : PriceEvent) (o : Outcome (Unit {0}))
    → regresses event o.1.last_event ≡ false
    → IsValid o.1
    → IsValid (finish_accept event o).1
finish_accept-IsValid event (ok done, s) h v = store_event-IsValid event s h v
finish_accept-IsValid event (err e, s) h v = v

-- `accept` past its guards.
pub admit-IsValid :
    (event : PriceEvent) (s : Engine)
    → regresses event s.last_event ≡ false
    → IsValid s
    → IsValid (finish_accept event (resolve_spot_reconnect event s)).1
admit-IsValid event s h v =
    finish_accept-IsValid event (resolve_spot_reconnect event s)
      (rw last_event-resolve_spot_reconnect h) (resolve_spot_reconnect-IsValid event s v)

pub accept-IsValid : (event : PriceEvent) (s : Engine) → IsValid s → IsValid (accept event s).1
unfolding accept
accept-IsValid event s v =
    grind (arith, admit-IsValid, sequence_gaps-IsValid, last_event-sequence_gaps)
