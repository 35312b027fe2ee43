-- ===== src/Stream/Client.antt =====
-- StreamClient of price_collector/ghost_twap_stream.py: a queue of one item. The set of clients that
-- the hub holds is the flag `registered` of each client, which is known by its index.
use pythonbtccollector.Common.{
  ℕ, ◌+◌, Bool, true, false, Option, none, some, List, [], ◌∷◌, zero, suc,
}
use pythonbtccollector.Stream.Types.{StreamUpdate}

-- An item of the queue: an update, or the None that closes it.
pub data Item : Type 0 where
  update : StreamUpdate → Item
  closing : Item

pub record StreamClient : Type 0 where
  pub registered : Bool
  pub queue : Option Item
  pub closed : Bool
  pub skipped_updates : ℕ

abbrev pub new_client : StreamClient
new_client = record { registered = true; queue = none; closed = false; skipped_updates = 0 }

abbrev pub put_over : StreamUpdate → Option Item → StreamClient → StreamClient
put_over u none c = record c { queue = some (update u) }
put_over u (some old) c = record c {
  queue = some (update u);
  skipped_updates = c.skipped_updates + 1;
}

-- `_offer`: a full queue loses its item to the new one.
abbrev pub offer : StreamUpdate → StreamClient → StreamClient
offer u c = elim c.closed [ true ↦ c | false ↦ put_over u c.queue c ]

-- `_close`
abbrev pub close_client : StreamClient → StreamClient
close_client c = record c { closed = true; queue = some closing }

abbrev pub at_index {ℓ} : {A : Type ℓ} → ℕ → List A → Option A
at_index i [] = none
at_index zero (x ∷ l) = some x
at_index (suc i) (x ∷ l) = at_index i l

abbrev pub change_at {ℓ} : {A : Type ℓ} → ℕ → (A → A) → List A → List A
change_at i f [] = []
change_at zero f (x ∷ l) = f x ∷ l
change_at (suc i) f (x ∷ l) = x ∷ change_at i f l
