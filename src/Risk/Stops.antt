-- ===== src/Risk/Stops.antt =====
-- src/domain/risk/stops.py: the initial stop, the target and the trailing stop.
use self_evaluating_trading.Common.{◌||◌, if◌then◌else◌}
use self_evaluating_trading.Floating.{Floating, max}
use self_evaluating_trading.Risk.Config.{RiskConfig}

module _ {F : Type 0} ⦃fl : Floating F⦄ where
  open fl use {lit, add, sub, mul, le}

  unfoldable pub initial_stop : F → F → RiskConfig F → F
  initial_stop entry_price atr config = sub entry_price (mul config.stop_atr_multiplier atr)

  unfoldable pub take_profit : F → F → RiskConfig F → F
  take_profit entry_price stop_loss config =
      add entry_price (mul config.take_profit_r_multiple (sub entry_price stop_loss))

  unfoldable pub update_trailing : F → F → F → RiskConfig F → F
  update_trailing current_stop highest_price atr config =
      if le atr (lit 0 0) || le highest_price (lit 0 0)
      then current_stop
      else max current_stop (sub highest_price (mul config.trailing_atr_multiplier atr))
