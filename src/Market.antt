-- ===== src/Market.antt =====
-- The market domain under src/domain/market/: candles, the indicators and the regime of the market.
pub mod Candle
pub mod Indicators
pub mod Regime
mod Examples
pub mod Validation
pub mod Series
