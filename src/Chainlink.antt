-- ===== src/Chainlink.antt =====
-- The delivery of Chainlink samples by price_collector/polymarket_chainlink_collector.py: samples and
-- ChainlinkDeliveryState, between the reader and the workers for the live value and the history.
pub mod Types
pub mod Delivery
pub mod Trace
mod Tests
