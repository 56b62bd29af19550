-- ===== src/Risk/Config.antt =====
-- src/domain/risk/config.py: the versioned risk parameters. An intensity is one of the three of
-- `Intensity`; the source also takes text, and treats any that it does not know as medium.
use self_evaluating_trading.Common.{ℕ, Bool, true, String}
use self_evaluating_trading.Floating.{Floating}
use self_evaluating_trading.Trading.{Intensity}

pub record RiskConfig (F : Type 0) : Type 0 where
  pub capital : F
  pub max_position_allocation : F
  pub max_daily_loss : F
  pub max_drawdown : F
  pub max_open_positions : ℕ
  pub leverage : F
  pub stop_loss_required : Bool
  pub stop_atr_multiplier : F
  pub take_profit_r_multiple : F
  pub trailing_atr_multiplier : F
  pub low_risk_pct : F
  pub medium_risk_pct : F
  pub high_risk_pct : F
  pub version : String

module _ {F : Type 0} ⦃fl : Floating F⦄ where
  open fl use {lit}

  abbrev pub default_config : RiskConfig F
  default_config = record {
    capital = lit 1000 0;
    max_position_allocation = lit 2 2;
    max_daily_loss = lit 2 2;
    max_drawdown = lit 5 2;
    max_open_positions = 1;
    leverage = lit 0 0;
    stop_loss_required = true;
    stop_atr_multiplier = lit 2 0;
    take_profit_r_multiple = lit 2 0;
    trailing_atr_multiplier = lit 3 0;
    low_risk_pct = lit 5 3;
    medium_risk_pct = lit 1 2;
    high_risk_pct = lit 2 2;
    version = "risk-v1";
  }

unfoldable pub risk_budget_pct : {F : Type 0} → RiskConfig F → Intensity → F
risk_budget_pct c Intensity.low = c.low_risk_pct
risk_budget_pct c Intensity.high = c.high_risk_pct
risk_budget_pct c Intensity.medium = c.medium_risk_pct
