-- ===== src/Market/Candle.antt =====
-- src/domain/market/candle.py: timeframes and confirmed candles. `none` is the `ValueError`.
use self_evaluating_trading.Common.{
  ℕ, Bool, ◌||◌, Option, none, some, String, str_eq, if◌then◌else◌,
}
use self_evaluating_trading.Floating.{Floating, max, min}

pub data Timeframe : Type 0 where
  m15 h1 h4 : Timeframe

unfoldable pub minutes : Timeframe → ℕ
minutes Timeframe.m15 = 15
minutes Timeframe.h1 = 60
minutes Timeframe.h4 = 240

unfoldable pub label : Timeframe → String
label Timeframe.m15 = "15m"
label Timeframe.h1 = "1h"
label Timeframe.h4 = "4h"

unfoldable pub from_label : String → Option Timeframe
from_label s =
    if str_eq "15m" s
    then some Timeframe.m15
    else if str_eq "1h" s
    then some Timeframe.h1
    else if str_eq "4h" s
    then some Timeframe.h4
    else none

pub record Candle (F : Type 0) : Type 0 where
  pub timestamp_ms : ℕ
  pub open_price : F
  pub high : F
  pub low : F
  pub close : F
  pub volume : F
  pub turnover : F

module _ {F : Type 0} ⦃fl : Floating F⦄ where
  open fl use {lit, lt}

  -- `__post_init__` raises for such values.
  unfoldable pub is_malformed : Candle F → Bool
  is_malformed c =
      lt c.high (max c.open_price c.close)
      || lt (min c.open_price c.close) c.low
      || lt c.volume (lit 0 0)
      || lt c.turnover (lit 0 0)

  unfoldable pub new_candle : Candle F → Option (Candle F)
  unfolding is_malformed
  new_candle c = if is_malformed c then none else some c
