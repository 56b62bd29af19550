-- ===== src/Risk/Examples.antt =====
-- Concrete runs of the risk engine, on fixed-point numbers.
use self_evaluating_trading.Common.{ℕ, ◌≡◌, refl, true, false, some, List, [], ◌∷◌}
use self_evaluating_trading.Floating.{IsNum}
use self_evaluating_trading.Floating.Fixed.{Fixed, fixed_floating, Fixed-IsOrdered}
use self_evaluating_trading.Trading.{Action, Intensity}
use self_evaluating_trading.Risk.Config.{RiskConfig, default_config, risk_budget_pct}
use self_evaluating_trading.Risk.Guards.{
  KillSwitchState, initial_state, allows_trading, Requester, daily_loss_exceeded, drawdown_exceeded,
}
use self_evaluating_trading.Risk.Sizing.{
  PositionSize, max_notional, compute_position_size, drawdown_scale,
}
use self_evaluating_trading.Risk.Engine.{
  TradeProposal, PortfolioRiskState, evaluate, evaluate_buy, evaluate_sized, current_drawdown,
}
use self_evaluating_trading.Risk.Approval.{
  approved_buy, evaluate-le, is_open_gate, may_expose, IsSized,
}
use self_evaluating_trading.Risk.Emergency.{requests_keep, Request, requests}

abbrev num : ℕ → Fixed
num n = fixed_floating.lit n 0

abbrev cfg : RiskConfig Fixed
cfg = default_config

abbrev purchase : TradeProposal Fixed
purchase = record {
  action = Action.buy;
  intensity = Intensity.medium;
  price = num 100;
  atr = some (num 2);
  timestamp_ms = 1000;
}

abbrev sale : TradeProposal Fixed
sale = record purchase { action = Action.sell }

abbrev calm : PortfolioRiskState Fixed
calm = record {
  open_positions = 0;
  realized_pnl_today = num 0;
  peak_equity = cfg.capital;
  equity = cfg.capital;
  kill_switch = initial_state;
}

abbrev holding : PortfolioRiskState Fixed
holding = record calm { open_positions = 1 }

-- A purchase is approved with 2 % of the capital, the cap of the allocation.
purchase_approved : (evaluate cfg purchase calm).approved ≡ true
unfolding evaluate evaluate_buy evaluate_sized compute_position_size drawdown_scale max_notional
    current_drawdown daily_loss_exceeded drawdown_exceeded risk_budget_pct
purchase_approved = refl

approved_buy_example :
    (is_open_gate cfg purchase calm ≡ true)
    × (may_expose cfg purchase calm ≡ true)
    × IsSized (evaluate cfg purchase calm).size
approved_buy_example = approved_buy cfg purchase calm refl purchase_approved

abbrev granted : PositionSize Fixed
granted = compute_position_size Intensity.medium (num 2) (num 100) (num 0) cfg

granted_eq : (evaluate cfg purchase calm).size ≡ some granted
unfolding evaluate evaluate_buy evaluate_sized compute_position_size drawdown_scale max_notional
    current_drawdown daily_loss_exceeded drawdown_exceeded risk_budget_pct
granted_eq = refl

granted-IsNum : IsNum granted.notional
unfolding compute_position_size drawdown_scale max_notional risk_budget_pct
granted-IsNum = refl

top-IsNum : IsNum (max_notional cfg)
unfolding max_notional
top-IsNum = refl

evaluate-le_example : fixed_floating.le granted.notional (max_notional cfg) ≡ true
evaluate-le_example =
    evaluate-le cfg purchase calm Fixed-IsOrdered top-IsNum granted_eq granted-IsNum

-- The switch stays through a second activation, a reset by the model and one without an approval.
abbrev attempts : List Request
attempts =
    Request.activation "again" 7
    ∷ Request.resetting Requester.llm "a-1"
    ∷ Request.resetting Requester.human ""
    ∷ []

abbrev tripped : KillSwitchState
tripped = record { active = true; reason = "api errors"; activated_at_ms = 5 }

requests_keep_example :
    (requests attempts tripped ≡ tripped) × (allows_trading (requests attempts tripped) ≡ false)
requests_keep_example = requests_keep attempts tripped (refl, (refl, (refl, tt))) refl
