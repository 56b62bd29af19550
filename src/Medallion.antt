-- ===== src/Medallion.antt =====
-- The guards of the data lake under src/infrastructure/medallion/: the days that may be ingested, and the
-- storage that a refresh may write.
pub mod SplitGuard
pub mod Capacity
pub mod Candles
pub mod Replay
mod Examples
