-- ===== src/Risk/Trailing.antt =====
-- The trailing stop of src/domain/risk/stops.py over the life of a position.
use self_evaluating_trading.Common.{◌≡◌, true, arith}
use self_evaluating_trading.Floating.{Floating, IsOrdered, IsNum}
use self_evaluating_trading.Risk.Config.{RiskConfig}
use self_evaluating_trading.Risk.Stops.{update_trailing}

module _ {F : Type 0} ⦃fl : Floating F⦄ (laws : IsOrdered F) (cfg : RiskConfig F) where
  open fl use {le}
  open laws use {le_of_lt, num_of_le, le_trans}

  -- A trailing stop that is a number never falls, whatever the ATR and the highest price are.
  pub le-update_trailing :
      (stop highest atr : F) → IsNum stop → le stop (update_trailing stop highest atr cfg) ≡ true
  unfolding update_trailing
  le-update_trailing stop highest atr n =
      ground (arith, le_of_lt stop (fl.sub highest (fl.mul cfg.trailing_atr_multiplier atr)))
