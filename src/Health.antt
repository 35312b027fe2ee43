-- ===== src/Health.antt =====
-- Feed diagnostics by the hour, price_collector/ghost_twap_health.py: GhostFeedHealth.
pub mod Hours
pub mod Feeds
mod Tests
