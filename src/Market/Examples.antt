-- ===== src/Market/Examples.antt =====
-- A concrete series of candles, on fixed-point numbers.
use self_evaluating_trading.Common.{
  length, map, ◌%◌, ◌↔◌, ℕ, ◌+◌, ◌-◌, ◌≡◌, arith, some, List, [], ◌∷◌,
}
use self_evaluating_trading.Floating.Fixed.{Fixed, fixed_floating}
use self_evaluating_trading.Market.Candle.{Candle, Timeframe}
use self_evaluating_trading.Market.Validation.{step_ms, validate_candles}
use self_evaluating_trading.Market.Series.{IsClean, ticks, validate_candles-IsClean}
use self_evaluating_trading.Market.Indicators.{atr, atr_updates, new_atr_tracker}
use self_evaluating_trading.Market.Indicators.Trackers.{atr_updates-eq-atr}

abbrev num : ℕ → Fixed
num n = fixed_floating.lit n 0

abbrev candle : ℕ → ℕ → Candle Fixed
candle ts close = record {
  timestamp_ms = ts;
  open_price = num close;
  high = num (close + 2);
  low = num (close - 1);
  close = num close;
  volume = num 10;
  turnover = num 1000;
}

abbrev series : List (Candle Fixed)
series = candle 1 100 ∷ candle 2 103 ∷ candle 3 99 ∷ candle 4 101 ∷ []

atr_updates-eq-atr_example : atr series 2 ≡ some (atr_updates series (new_atr_tracker 2))
atr_updates-eq-atr_example = atr_updates-eq-atr 2 series (omega arith)

abbrev hourly : List (Candle Fixed)
hourly = candle 3_600_000 100 ∷ candle 7_200_000 103 ∷ candle 14_400_000 99 ∷ []

validate_candles-IsClean_example :
    IsClean (validate_candles (candle 0 100 ∷ hourly) Timeframe.h1) ↔ (
      (0 % step_ms Timeframe.h1 ≡ 0)
      × (map Candle.timestamp_ms (candle 0 100 ∷ hourly)
          ≡ ticks (step_ms Timeframe.h1) (length (candle 0 100 ∷ hourly)) 0))
validate_candles-IsClean_example = validate_candles-IsClean (candle 0 100) hourly Timeframe.h1
