-- ===== src/Risk/Engine.antt =====
-- src/domain/risk/engine.py: the gate that every order passes. The reasons that the source writes as
-- text are the constructors of `Reason`; `Reason.nothing` is the empty text.
use self_evaluating_trading.Common.{
  ℕ, leb, ◌==◌, Bool, true, false, ◌&&◌, ◌||◌, Option, none, some, if◌then◌else◌,
}
use self_evaluating_trading.Floating.{Floating, or_zero}
use self_evaluating_trading.Trading.{Action, Intensity, is_hold, is_sell}
use self_evaluating_trading.Risk.Config.{RiskConfig}
use self_evaluating_trading.Risk.Guards.{KillSwitchState, daily_loss_exceeded, drawdown_exceeded}
use self_evaluating_trading.Risk.Sizing.{PositionSize, compute_position_size, max_notional}
use self_evaluating_trading.Risk.Stops.{initial_stop, take_profit}

pub data Reason : Type 0 where
  nothing kill_switch max_drawdown no_op no_position_to_reduce reduce max_daily_loss : Reason
  max_open_positions stop_unavailable zero_size ok_unstopped ok : Reason

abbrev pub is_max_daily_loss : Reason → Bool
is_max_daily_loss Reason.max_daily_loss = true
is_max_daily_loss _ = false

pub record TradeProposal (F : Type 0) : Type 0 where
  pub action : Action
  pub intensity : Intensity
  pub price : F
  pub atr : Option F
  pub timestamp_ms : ℕ

pub record PortfolioRiskState (F : Type 0) : Type 0 where
  pub open_positions : ℕ
  pub realized_pnl_today : F
  pub peak_equity : F
  pub equity : F
  pub kill_switch : KillSwitchState

pub record RiskVerdict (F : Type 0) : Type 0 where
  pub approved : Bool
  pub reason : Reason
  pub size : Option (PositionSize F)
  pub stop_loss : Option F
  pub take_profit : Option F

module _ {F : Type 0} ⦃fl : Floating F⦄ where
  open fl use {lit, sub, div, le, lt, eq}

  abbrev pub reject : Reason → RiskVerdict F
  reject r = record {
    approved = false;
    reason = r;
    size = none;
    stop_loss = none;
    take_profit = none;
  }

  abbrev pub approve : Reason → RiskVerdict F
  approve r = record {
    approved = true;
    reason = r;
    size = none;
    stop_loss = none;
    take_profit = none;
  }

  unfoldable pub current_drawdown : F → F → F
  current_drawdown peak_equity equity =
      if le peak_equity (lit 0 0) || le peak_equity equity
      then lit 0 0
      else div (sub peak_equity equity) peak_equity

  -- `proposal.atr is None or proposal.atr <= 0.0`
  abbrev pub lacks_atr : Option F → Bool
  lacks_atr none = true
  lacks_atr (some a) = le a (lit 0 0)

  -- A purchase with no stop: sized by the allocation alone.
  unfoldable pub evaluate_unstopped : RiskConfig F → TradeProposal F → RiskVerdict F
  evaluate_unstopped cfg p =
      let q = if lt (lit 0 0) p.price then div (max_notional cfg) p.price else lit 0 0 in
      if le q (lit 0 0) then reject Reason.zero_size else record {
        approved = true;
        reason = Reason.ok_unstopped;
        size = some (record {
          quantity = q;
          notional = max_notional cfg;
          stop_distance = lit 0 0;
          risk_amount = lit 0 0;
          capped = true;
        });
        stop_loss = none;
        take_profit = none;
      }

  unfoldable pub evaluate_sized :
      RiskConfig F → TradeProposal F → PortfolioRiskState F → RiskVerdict F
  evaluate_sized cfg p st =
      let atr = or_zero p.atr in
      let drawdown = current_drawdown st.peak_equity st.equity in
      let s = compute_position_size p.intensity atr p.price drawdown cfg in
      let stop = initial_stop p.price atr cfg in
      if le s.quantity (lit 0 0) then reject Reason.zero_size else record {
        approved = true;
        reason = Reason.ok;
        size = some s;
        stop_loss = some stop;
        take_profit = some (take_profit p.price stop cfg);
      }

  -- The part of `evaluate` for a new exposure.
  unfoldable pub evaluate_buy :
      RiskConfig F → TradeProposal F → PortfolioRiskState F → RiskVerdict F
  unfolding evaluate_unstopped evaluate_sized
  evaluate_buy cfg p st =
      if daily_loss_exceeded st.realized_pnl_today cfg.capital cfg
      then reject Reason.max_daily_loss
      else if leb cfg.max_open_positions st.open_positions
      then reject Reason.max_open_positions
      else if cfg.stop_loss_required && lacks_atr p.atr
      then reject Reason.stop_unavailable
      else if le (or_zero p.atr) (lit 0 0)
      then evaluate_unstopped cfg p
      else evaluate_sized cfg p st

  -- `RiskEngine.evaluate`
  unfoldable pub evaluate : RiskConfig F → TradeProposal F → PortfolioRiskState F → RiskVerdict F
  unfolding evaluate_buy
  evaluate cfg p st =
      if st.kill_switch.active
      then reject Reason.kill_switch
      else if drawdown_exceeded st.peak_equity st.equity cfg
      then reject Reason.max_drawdown
      else if is_hold p.action
      then approve Reason.no_op
      else if is_sell p.action
      then (if st.open_positions == 0
          then reject Reason.no_position_to_reduce
          else approve Reason.reduce)
      else evaluate_buy cfg p st
