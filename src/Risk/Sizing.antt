-- ===== src/Risk/Sizing.antt =====
-- src/domain/risk/sizing.py: from the intensity of a decision to a quantity.
use self_evaluating_trading.Common.{Bool, false, ◌||◌, if◌then◌else◌}
use self_evaluating_trading.Floating.{Floating, min}
use self_evaluating_trading.Risk.Config.{RiskConfig, risk_budget_pct}
use self_evaluating_trading.Trading.{Intensity}

pub record PositionSize (F : Type 0) : Type 0 where
  pub quantity : F
  pub notional : F
  pub stop_distance : F
  pub risk_amount : F
  pub capped : Bool

module _ {F : Type 0} ⦃fl : Floating F⦄ where
  open fl use {lit, sub, mul, div, le, lt}

  unfoldable pub drawdown_scale : F → F → F
  drawdown_scale current_drawdown max_drawdown =
      if le current_drawdown (lit 0 0)
      then lit 1 0
      else if le max_drawdown current_drawdown
      then lit 0 0
      else div (sub max_drawdown current_drawdown) max_drawdown

  -- The notional of a position is held below its share of the capital.
  unfoldable pub max_notional : RiskConfig F → F
  max_notional config =
      min (mul config.max_position_allocation config.capital)
        (mul config.capital (sub (lit 1 0) config.leverage))

  unfoldable pub compute_position_size : Intensity → F → F → F → RiskConfig F → PositionSize F
  unfolding drawdown_scale max_notional
  compute_position_size intensity atr price current_drawdown config =
      let distance = if lt (lit 0 0) atr then mul config.stop_atr_multiplier atr else lit 0 0 in
      let scale = drawdown_scale current_drawdown config.max_drawdown in
      let risk = mul (mul config.capital (risk_budget_pct config intensity)) scale in
      let wanted = div risk distance in
      let top = max_notional config in
      let over = lt top (mul wanted price) in
      let bought = if over then div top price else wanted in
      if le distance (lit 0 0) || le price (lit 0 0)
      then record {
        quantity = lit 0 0;
        notional = lit 0 0;
        stop_distance = lit 0 0;
        risk_amount = lit 0 0;
        capped = false;
      }
      else record {
        quantity = bought;
        notional = if over then top else mul wanted price;
        stop_distance = distance;
        risk_amount = mul bought distance;
        capped = over;
      }
