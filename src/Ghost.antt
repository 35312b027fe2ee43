-- ===== src/Ghost.antt =====
-- The ghost TWAP engine of price_collector/ghost_twap.py.
pub mod Types
pub mod Checks
pub mod Engine
pub mod Gap
pub mod Accept
pub mod Slots
pub mod Forecast
pub mod Snapshot
pub mod Trace
mod Tests
