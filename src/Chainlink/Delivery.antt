-- ===== src/Chainlink/Delivery.antt =====
-- ChainlinkDeliveryState of price_collector/polymarket_chainlink_collector.py. Its events only wake
-- the workers, so that a wait is a state in which its worker takes no step; its warnings and the
-- fields for the log are left out.
pub mod Order
use pythonbtccollector.Common.{
  ℕ, ◌+◌, ◌-◌, ◌*◌, String, Bool, true, false, Option, none, some, List, [], ◌∷◌, ◌++◌, ltb, leb,
  ◌==◌, ◌&&◌, ◌||◌, not, if◌then◌else◌, length, max,
}
use text.Mathlib.Text.{◌==◌ as str_eq}
use pythonbtccollector.Common.Int.{ℤ, pos, negsuc, sub_ℕ}
use pythonbtccollector.Common.Dict.{Dict, lookup, remove, nat_Eq}
use pythonbtccollector.Chainlink.Types.{Sample, Sequenced, item_eq}

-- The fields of a raw event that the state reads.
pub record RawPrice : Type 0 where
  pub receive_sequence : ℕ
  pub connection_id : String
  pub received_monotonic_ns : ℕ

abbrev pub Pending : Type 0
Pending = Dict ℕ Sequenced

pub record Delivery : Type 0 where
  pub history_capacity_seconds : ℕ
  pub history_settle_ms : ℕ
  pub accepting : Bool
  pub sequence : ℕ
  pub latest : Option Sequenced
  pub live_attempted_sequence : ℕ
  pub history_pending : Pending
  pub history_inflight : Option Sequenced
  pub live_attempts_total : ℕ
  pub live_successes_total : ℕ
  pub live_failures_total : ℕ
  pub history_collapsed_total : ℕ
  pub history_persisted_total : ℕ
  pub history_failures_total : ℕ
  pub history_pending_dropped_total : ℕ
  pub history_pending_high_water : ℕ
  pub last_live_attempt_ms : Option ℕ
  pub last_history_write_ms : Option ℕ
  pub current_connection_id : Option String
  pub connections_opened_total : ℕ
  pub reconnects_total : ℕ
  pub latest_raw_event : Option RawPrice
  pub last_raw_monotonic_ns : Option ℕ
  pub raw_interarrival_ns : Option ℤ
  pub raw_max_interarrival_ns : Option ℕ

abbrev pub empty_delivery : ℕ → ℕ → Delivery
empty_delivery capacity settle_ms = record {
  history_capacity_seconds = capacity;
  history_settle_ms = settle_ms;
  accepting = true;
  sequence = 0;
  latest = none;
  live_attempted_sequence = 0;
  history_pending = [];
  history_inflight = none;
  live_attempts_total = 0;
  live_successes_total = 0;
  live_failures_total = 0;
  history_collapsed_total = 0;
  history_persisted_total = 0;
  history_failures_total = 0;
  history_pending_dropped_total = 0;
  history_pending_high_water = 0;
  last_live_attempt_ms = none;
  last_history_write_ms = none;
  current_connection_id = none;
  connections_opened_total = 0;
  reconnects_total = 0;
  latest_raw_event = none;
  last_raw_monotonic_ns = none;
  raw_interarrival_ns = none;
  raw_max_interarrival_ns = none;
}

-- The constructor: None where it raises.
unfoldable pub new_delivery : ℕ → ℕ → Option Delivery
new_delivery capacity settle_ms =
    if capacity == 0 then none else some (empty_delivery capacity settle_ms)

-- `update_latest`: None where the state is closed.
unfoldable pub update_latest : Sample → Delivery → Option Sequenced × Delivery
update_latest sample s =
    if not s.accepting
    then (none, s)
    else let item : Sequenced = record { sequence = s.sequence + 1; sample = sample } in
      (some item, record s { sequence = s.sequence + 1; latest = some item })

-- `_record_history_pending_drop`
abbrev pub record_drop : Delivery → Delivery
record_drop s = record s { history_pending_dropped_total = s.history_pending_dropped_total + 1 }

abbrev pub is_inflight : Option Sequenced → ℕ → Bool
is_inflight none second = false
is_inflight (some item) second = item.sample.sample_second_ms == second

-- The first pending second that is not in flight.
abbrev pub drop_second : Option Sequenced → Pending → Option ℕ
drop_second inflight [] = none
drop_second inflight ((second, item) ∷ pending) =
    let rest = drop_second inflight pending in
    if is_inflight inflight second then rest else some second

-- `_make_history_capacity`
abbrev pub drop_for : Option ℕ → Delivery → Bool × Delivery
drop_for none s = (false, record_drop s)
drop_for (some second) s =
    (true, record_drop (record s { history_pending = remove second s.history_pending }))

unfoldable pub make_history_capacity : Delivery → Bool × Delivery
make_history_capacity s =
    if ltb (length s.history_pending) s.history_capacity_seconds
    then (true, s)
    else drop_for (drop_second s.history_inflight s.history_pending) s

abbrev pub note_high_water : Delivery → Delivery
note_high_water s = record s {
  history_pending_high_water = max s.history_pending_high_water (length s.history_pending);
}

-- A key that the dictionary does not hold goes to its end.
abbrev pub put_last : Sequenced → Pending → Pending
put_last item pending = pending ++ (item.sample.sample_second_ms, item) ∷ []

abbrev pub add_pending : Sequenced → Bool × Delivery → Delivery
add_pending item (false, s) = s
add_pending item (true, s) =
    note_high_water (record s { history_pending = put_last item s.history_pending })

-- The entry of a pending second is replaced, and moves to the end.
abbrev pub replace_pending : Sequenced → Delivery → Delivery
replace_pending item s = note_high_water (record s {
  history_collapsed_total = s.history_collapsed_total + 1;
  history_pending = put_last item (remove item.sample.sample_second_ms s.history_pending);
})

abbrev pub offer_by : Option Sequenced → Sequenced → Delivery → Delivery
offer_by (some old) item s = replace_pending item s
offer_by none item s = add_pending item (make_history_capacity s)

-- `offer_history`: false where it raises.
unfoldable pub offer_history : Sequenced → Delivery → Bool × Delivery
unfolding make_history_capacity
offer_history item s =
    if not s.accepting
    then (false, s)
    else (true, offer_by (lookup item.sample.sample_second_ms s.history_pending) item s)

-- What `wait_for_latest_after` finds: an item, the end, or nothing yet.
pub data Wait : Type 0 where
  found : Sequenced → Wait
  ended : Wait
  waits : Wait

abbrev pub closed_or_waits : Bool → Wait
closed_or_waits true = waits
closed_or_waits false = ended

unfoldable pub wait_for_latest_after : ℕ → Delivery → Wait
wait_for_latest_after sequence s = elim s.latest [
  | none ↦ closed_or_waits s.accepting
  | some item ↦ if ltb sequence item.sequence then found item else closed_or_waits s.accepting
]

unfoldable pub mark_live_attempted : Sequenced → Bool → ℕ → Delivery → Delivery
mark_live_attempted item succeeded attempted_ms s = record s {
  live_attempts_total = s.live_attempts_total + 1;
  live_successes_total = if succeeded then s.live_successes_total + 1 else s.live_successes_total;
  live_failures_total = if succeeded then s.live_failures_total else s.live_failures_total + 1;
  last_live_attempt_ms = some attempted_ms;
  live_attempted_sequence = max s.live_attempted_sequence item.sequence;
}

abbrev pub newest_second : Pending → ℕ
newest_second [] = 0
newest_second ((second, item) ∷ pending) = max second (newest_second pending)

-- `sorted(self._history_pending)`, with the entries.
unfoldable pub insert_by_second : ℕ × Sequenced → Pending → Pending
insert_by_second x [] = x ∷ []
insert_by_second x (y ∷ l) =
    let rest = insert_by_second x l in if leb x.0 y.0 then x ∷ y ∷ l else y ∷ rest

unfoldable pub sorted_pending : Pending → Pending
unfolding insert_by_second
sorted_pending [] = []
sorted_pending (x ∷ l) = insert_by_second x (sorted_pending l)

-- The settle delay is not negative, so that a sample from the future has not settled by it.
abbrev pub is_settled : ℕ → ℕ → ℕ → ℕ × Sequenced → Bool
is_settled settle_ms now_ms newest (second, item) =
    ltb second newest || leb (item.sample.received_ms + settle_ms) now_ms

abbrev pub first_ready : Bool → ℕ → ℕ → ℕ → Pending → Option Sequenced
first_ready accepting settle_ms now_ms newest [] = none
first_ready accepting settle_ms now_ms newest (x ∷ l) =
    let rest = first_ready accepting settle_ms now_ms newest l in
    if accepting && not (is_settled settle_ms now_ms newest x) then rest else some x.1

abbrev pub pick : Option Sequenced → Delivery → Option Sequenced × Delivery
pick none s = (none, s)
pick (some item) s = (some item, record s { history_inflight = some item })

-- Nothing is taken while an item is in flight.
abbrev pub take_ready : Option Sequenced → ℕ → Delivery → Option Sequenced × Delivery
take_ready (some item) now_ms s = (none, s)
take_ready none now_ms s =
    pick
      (first_ready s.accepting s.history_settle_ms now_ms (newest_second s.history_pending)
        (sorted_pending s.history_pending))
      s

unfoldable pub next_history_ready : ℕ → Delivery → Option Sequenced × Delivery
unfolding sorted_pending
next_history_ready now_ms s = take_ready s.history_inflight now_ms s

abbrev pub pending_after : Option Sequenced → Sequenced → Pending → Pending
pending_after none item pending = pending
pending_after (some current) item pending =
    if current.sequence == item.sequence
    then remove item.sample.sample_second_ms pending
    else pending

unfoldable pub mark_history_succeeded : Sequenced → ℕ → Delivery → Delivery
mark_history_succeeded item written_ms s = record s {
  history_pending =
      pending_after (lookup item.sample.sample_second_ms s.history_pending) item s.history_pending;
  history_inflight = none;
  history_persisted_total = s.history_persisted_total + 1;
  last_history_write_ms = some written_ms;
}

abbrev pub clear_inflight : Option Sequenced → Sequenced → Option Sequenced
clear_inflight none item = none
clear_inflight (some other) item = if item_eq other item then none else some other

unfoldable pub release_history_inflight : Sequenced → Delivery → Delivery
release_history_inflight item s = record s {
  history_inflight = clear_inflight s.history_inflight item;
}

unfoldable pub mark_history_failed : Sequenced → Delivery → Delivery
mark_history_failed item s = record s {
  history_inflight = clear_inflight s.history_inflight item;
  history_failures_total = s.history_failures_total + 1;
}

abbrev pub is_connection : Option String → String → Bool
is_connection none id = false
is_connection (some current) id = str_eq current id

unfoldable pub raw_connection_opened : String → Delivery → Delivery
raw_connection_opened id s = if is_connection s.current_connection_id id then s else record s {
  reconnects_total =
      if s.connections_opened_total == 0 then s.reconnects_total else s.reconnects_total + 1;
  connections_opened_total = s.connections_opened_total + 1;
  current_connection_id = some id;
}

unfoldable pub raw_connection_closed : String → Delivery → Delivery
raw_connection_closed id s =
    if is_connection s.current_connection_id id
    then record s { current_connection_id = none }
    else s

abbrev pub max_after : Option ℕ → ℤ → Option ℕ
max_after largest (negsuc n) = largest
max_after none (pos n) = some n
max_after (some largest) (pos n) = some (max largest n)

abbrev pub note_interarrival : Option ℕ → ℕ → Delivery → Delivery
note_interarrival none now s = s
note_interarrival (some last) now s = record s {
  raw_interarrival_ns = some (sub_ℕ now last);
  raw_max_interarrival_ns = max_after s.raw_max_interarrival_ns (sub_ℕ now last);
}

unfoldable pub observe_raw_event : RawPrice → Delivery → Delivery
observe_raw_event event s =
    let s' = note_interarrival s.last_raw_monotonic_ns event.received_monotonic_ns s in
    record s' {
      last_raw_monotonic_ns = some event.received_monotonic_ns;
      latest_raw_event = some event;
    }

unfoldable pub close_delivery : Delivery → Delivery
close_delivery s = record s { accepting = false }
