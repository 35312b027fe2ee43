-- ===== src/Stream.antt =====
-- The read-only delivery of published forecasts to clients: the validated payload and the read that
-- binds it to local clocks (price_collector/ghost_twap_payload.py), and the hub that fans it out
-- (price_collector/ghost_twap_stream.py).
pub mod Types
pub mod Read
pub mod Client
pub mod Hub
pub mod Source
pub mod Trace
mod Tests
