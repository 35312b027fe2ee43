-- ===== src/Stream/Source/Buffer.antt =====
-- The buffer between `_pump` and `_connection` of price_collector/ghost_twap_stream.py.
use pythonbtccollector.Common.{
  ℕ, ◌+◌, ◌≤◌, ◌<◌, ◌≡◌, refl, Option, List, [], ◌∷◌, ◌++◌, map, length, arith, leb, length-append,
  inl, inr, Bool-cases, ap,
}
use mathlib.Core.List.{append-nil, append_assoc}
use pythonbtccollector.Stream.Types.{
  Bytes, Clock, resync_error, subscriber_buffer_overflow, StreamError,
}
use pythonbtccollector.Stream.Source.{
  Connection, Received, publication, failure, receive_publication, receive_all, bounded_bytes,
  fail_pump, new_connection,
}

abbrev pub received_of : Option Bytes × Clock → Received
received_of (raw, at) = publication (bounded_bytes raw) at

abbrev pub overflow : StreamError
overflow = resync_error subscriber_buffer_overflow

receive_room :
    (b : ℕ) (raw : Option Bytes) (at : Clock) (c : Connection)
    → length c.queue < b
    → receive_publication b raw at c
      ≡ record c { queue = c.queue ++ publication (bounded_bytes raw) at ∷ [] }
unfolding receive_publication
receive_room b raw at c h = ground arith

receive_full :
    (b : ℕ) (raw : Option Bytes) (at : Clock) (c : Connection)
    → b ≤ length c.queue
    → receive_publication b raw at c ≡ fail_pump overflow c
unfolding receive_publication
receive_full b raw at c h = ground arith

fits_from :
    (b : ℕ) (messages : List (Option Bytes × Clock)) (queue : List Received)
    → length queue + length messages ≤ b
    → receive_all b messages (record { queue = queue; faults = [] })
      ≡ record { queue = queue ++ map received_of messages; faults = [] }
unfolding receive_all
fits_from b [] queue h = rw (append-nil queue) refl
fits_from b ((raw, at) ∷ messages) queue h =
    rw
      (
        receive_room b raw at (record { queue = queue; faults = [] }) (omega (arith, h)),
        fits_from b messages (queue ++ received_of (raw, at) ∷ [])
            (omega (arith, h, length-append queue (received_of (raw, at) ∷ []))),
        append_assoc queue (received_of (raw, at) ∷ []) (map received_of messages),
      )
      refl

ended :
    (b : ℕ) (messages : List (Option Bytes × Clock)) (e : StreamError) (queue : List Received)
    → receive_all b messages (record { queue = queue; faults = e ∷ [] })
      ≡ record { queue = queue; faults = e ∷ [] }
unfolding receive_all
ended b [] e queue = refl
ended b (m ∷ messages) e queue = refl

overflows_from :
    (b : ℕ) (messages : List (Option Bytes × Clock)) (queue : List Received)
    → length queue ≤ b
    → b < length queue + length messages
    → receive_all b messages (record { queue = queue; faults = [] })
      ≡ record { queue = failure overflow ∷ []; faults = overflow ∷ [] }
unfolding receive_all
overflows_from b [] queue h over = absurd (omega (arith, h, over))
overflows_from b ((raw, at) ∷ messages) queue h over = elim (Bool-cases (leb b (length queue))) [
  | inl full ↦
      rw (receive_full b raw at (record { queue = queue; faults = [] }) (ground (arith, full)))
        (ended b messages overflow (failure overflow ∷ []))
  | inr room ↦
      rw (receive_room b raw at (record { queue = queue; faults = [] }) (ground (arith, room))) (
        overflows_from b messages (queue ++ received_of (raw, at) ∷ [])
          (ground (arith, room, length-append queue (received_of (raw, at) ∷ [])))
          (omega (arith, over, length-append queue (received_of (raw, at) ∷ []))))
]

-- The publications that a new connection receives before any is taken: as many as the buffer holds
-- wait in their order, with the bytes that are too many left out; of more, none is kept, and what
-- waits is only the overflow, which is also the recorded fault.
pub buffer_exact :
    (buffer_size : ℕ) (messages : List (Option Bytes × Clock))
    → let c = receive_all buffer_size messages new_connection in
      (length messages ≤ buffer_size → (c.queue ≡ map received_of messages) × (c.faults ≡ []))
      × (buffer_size < length messages
          → (c.queue ≡ failure overflow ∷ []) × (c.faults ≡ overflow ∷ []))
buffer_exact b messages = (
  λ fits.
      let p = fits_from b messages [] (omega (arith, fits)) in
      (ap (λ (c : Connection). c.queue) p, ap (λ (c : Connection). c.faults) p),
  λ over.
      let p = overflows_from b messages [] (omega arith) (omega (arith, over)) in
      (ap (λ (c : Connection). c.queue) p, ap (λ (c : Connection). c.faults) p),
)
