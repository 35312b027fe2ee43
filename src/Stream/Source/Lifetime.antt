-- ===== src/Stream/Source/Lifetime.antt =====
-- How long a read of the cache may be shown, in `_authoritative` of
-- price_collector/ghost_twap_stream.py.
use pythonbtccollector.Common.{ℕ, ◌≤◌, ◌≡◌, Option, none, some, ◌==◌, ◌<◌}
use text.Mathlib.Text.{◌==◌ as str_eq}
use pythonbtccollector.Common.Int.{ℤ, pos}
use pythonbtccollector.Common.Result.{ok, err}
use pythonbtccollector.Stream.Types.{Bytes, Clock, GhostRead}
use pythonbtccollector.Stream.Hub.{Hub, Outcome}
use pythonbtccollector.Stream.Source.{ttl_deadline}

abbrev ReadWithin : ℕ → Option GhostRead → Type 0
ReadWithin bound none = Unit
ReadWithin bound (some r) = r.api_deadline_monotonic_ns ≤ bound

-- Where nothing is raised, the read that is then shown ends by the bound.
abbrev ShowsWithin : ℕ → Outcome (Unit {0}) → Type 0
ShowsWithin bound (ok done, hub) = ReadWithin bound hub.snapshot.read
ShowsWithin bound (err e, hub) = Unit

-- The answer of Redis that grants a read its time.
abbrev pub Grants : Clock → Clock → Option Bytes → ℤ → GhostRead → Type 0
Grants start finish raw ttl r =
    (value : Bytes) × (left : ℕ) × (raw ≡ some value)
    × (ttl ≡ pos left)
    × (0 < left)
    × (r.api_deadline_monotonic_ns ≤ ttl_deadline start finish left)
