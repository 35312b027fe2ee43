-- ===== src/Capture.antt =====
-- Raw capture, price_collector/raw_capture.py: what it records and the checks of those records, the
-- counters, the session of one connection, the coalescing of futures trades into buckets of 100 ms,
-- the bounded queue, and the writer that stores batches.
pub mod Types
pub mod Checks
pub mod Records
pub mod Observations
pub mod Counters
pub mod Session
pub mod Coalescer
pub mod Buffer
pub mod Batch
pub mod Runtime
pub mod Tests
