-- ===== src/Paper.antt =====
-- src/application/services/paper_engine.py: the paper trading engine. A call of `on_price` returns
-- its outcome and the state that it leaves behind; an exception keeps what was written before it.
-- The day of a timestamp (src/domain/time/day.py) is a function in the set-up, as in the source.
pub mod Handling
pub mod Clock
pub mod Emergency
pub mod Books
pub mod Stops
mod Examples
use self_evaluating_trading.Common.{
  ℕ, ◌+◌, ◌/◌, ◌==◌, Bool, true, false, ◌&&◌, Option, none, some, [], ◌∷◌, if◌then◌else◌,
}
use self_evaluating_trading.Floating.{Floating}
use self_evaluating_trading.Trading.{
  Action, FeeModel, SlippageModel, Fill, TradingDecision, fee_of, slippage_rate, is_sell,
}
use self_evaluating_trading.Risk.Config.{RiskConfig}
use self_evaluating_trading.Risk.Guards.{KillSwitchState, initial_state}
use self_evaluating_trading.Risk.Engine.{Reason}
use self_evaluating_trading.Portfolio.{Portfolio, new_portfolio, apply_buy, apply_sell, equity_at}

-- `utc_day_index`
unfoldable pub utc_day_index : ℕ → ℕ
utc_day_index timestamp_ms = timestamp_ms / 86400000

pub data ExitReason : Type 0 where
  nothing trailing_stop stop_loss take_profit llm_sell : ExitReason

pub record PaperPosition (F : Type 0) : Type 0 where
  pub quantity : F
  pub entry_price : F
  pub stop_loss : F
  pub take_profit : Option F
  pub highest_price : F
  pub entry_ts : ℕ

pub record PaperEvent (F : Type 0) : Type 0 where
  pub filled : Bool
  pub action : Action
  pub exit_reason : ExitReason
  pub risk_reason : Reason
  pub fill : Option (Fill F)

-- What the engine is built with.
pub record Setup (F : Type 0) : Type 0 where
  pub config : RiskConfig F
  pub fees : FeeModel F
  pub slippage : SlippageModel F
  pub day_key : ℕ → ℕ

pub record Engine (F : Type 0) : Type 0 where
  pub portfolio : Portfolio F
  pub kill_switch : KillSwitchState
  pub position : Option (PaperPosition F)
  pub realized_pnl_today : F
  pub day : Option ℕ
  pub last_timestamp_ms : Option ℕ
  pub peak_equity : F
  pub last_price : Option F
  pub last_atr : F
  pub orders_rejected : ℕ
  pub daily_loss_triggered : ℕ
  pub daily_loss_active_cycles : ℕ

-- `OutOfOrderTimestampError`, the `ValueError` of the account, and `ZeroDivisionError`.
pub data Failure : Type 0 where
  out_of_order cash_exceeded zero_division : Failure

pub data Outcome (F : Type 0) : Type 0 where
  done : PaperEvent F → Outcome F
  raised : Failure → Outcome F

-- The arguments of a call of `on_price`.
pub record Tick (F : Type 0) : Type 0 where
  pub decision : TradingDecision F
  pub price : F
  pub atr : Option F
  pub timestamp_ms : ℕ

-- An event with no fill.
abbrev pub unfilled : {F : Type 0} → Action → Reason → PaperEvent F
unfilled a r = record {
  filled = false;
  action = a;
  exit_reason = ExitReason.nothing;
  risk_reason = r;
  fill = none;
}

module _ {F : Type 0} ⦃fl : Floating F⦄ where
  open fl use {lit, add, sub, mul, div, neg, abs, lt, le, eq}

  unfoldable pub new_engine : RiskConfig F → Engine F
  unfolding new_portfolio
  new_engine cfg = record {
    portfolio = new_portfolio cfg.capital;
    kill_switch = initial_state;
    position = none;
    realized_pnl_today = lit 0 0;
    day = none;
    last_timestamp_ms = none;
    peak_equity = cfg.capital;
    last_price = none;
    last_atr = lit 0 0;
    orders_rejected = 0;
    daily_loss_triggered = 0;
    daily_loss_active_cycles = 0;
  }

  -- `mark_to_market` and `_mark_peak_if_needed`
  unfoldable pub mark : F → Engine F → Engine F
  mark price s =
      let equity = equity_at price s.portfolio in
      record s { peak_equity = if lt s.peak_equity equity then equity else s.peak_equity }

  unfoldable pub make_fill : Setup F → Action → F → F → ℕ → Fill F
  make_fill x act p q ts =
      let sign = if is_sell act then neg (lit 1 0) else lit 1 0 in
      let e = mul p (add (lit 1 0) (mul sign (slippage_rate x.slippage))) in
      record {
        timestamp_ms = ts;
        action = act;
        price = p;
        exec_price = e;
        quantity = q;
        notional = mul q e;
        fee = fee_of x.fees (mul q e);
        slippage_cost = mul q (abs (sub e p));
      }

  unfoldable pub close_position :
      Setup F → PaperPosition F → F → ℕ → ExitReason → Engine F → PaperEvent F × Engine F
  close_position x pos price ts why s =
      let fill = make_fill x Action.sell price pos.quantity ts in
      let before = s.portfolio.realized_pnl in
      let p = apply_sell fill s.portfolio in
      let today = add s.realized_pnl_today (sub p.realized_pnl before) in
      let s' = mark fill.exec_price (record s { portfolio = p; realized_pnl_today = today }) in
      (
        record {
          filled = true;
          action = Action.sell;
          exit_reason = why;
          risk_reason = Reason.nothing;
          fill = some fill;
        },
        record s' { position = none },
      )

  -- The purchase of `_open_position`: its quantity is cut to the cash if the cost exceeds it.
  unfoldable pub opening_fill : Setup F → F → F → ℕ → Engine F → Fill F
  opening_fill x size_quantity price ts s =
      let e = mul price (add (lit 1 0) (slippage_rate x.slippage)) in
      let wanted = mul size_quantity e in
      let short = lt (add s.portfolio.cash (lit 1 9)) (add wanted (fee_of x.fees wanted)) in
      let q = if short then div (div s.portfolio.cash (lit 1001 3)) e else size_quantity in
      record {
        timestamp_ms = ts;
        action = Action.buy;
        price = price;
        exec_price = e;
        quantity = q;
        notional = mul q e;
        fee = fee_of x.fees (mul q e);
        slippage_cost = mul q (sub e price);
      }

  -- The cut divides by the execution price.
  unfoldable pub divides_by_zero : Setup F → F → F → Engine F → Bool
  divides_by_zero x size_quantity price s =
      let e = mul price (add (lit 1 0) (slippage_rate x.slippage)) in
      let wanted = mul size_quantity e in
      eq e (lit 0 0) && lt (add s.portfolio.cash (lit 1 9)) (add wanted (fee_of x.fees wanted))

  unfoldable pub booked_position : Fill F → F → Option F → ℕ → PaperPosition F
  booked_position fill stop target ts = record {
    quantity = fill.quantity;
    entry_price = fill.exec_price;
    stop_loss = stop;
    take_profit = target;
    highest_price = fill.exec_price;
    entry_ts = ts;
  }

  -- What follows `apply_buy`: `none` is its exception.
  unfoldable pub finish_open :
      Fill F → F → Option F → ℕ → Engine F → Option (Portfolio F) → Outcome F × Engine F
  finish_open fill stop target ts s none = (raised Failure.cash_exceeded, s)
  finish_open fill stop target ts s (some p) =
      let opened = record s {
        portfolio = p;
        position = some (booked_position fill stop target ts);
      } in
      (
        done (record {
          filled = true;
          action = Action.buy;
          exit_reason = ExitReason.nothing;
          risk_reason = Reason.nothing;
          fill = some fill;
        }),
        mark fill.exec_price opened,
      )

  unfoldable pub open_position :
      Setup F → F → F → F → Option F → ℕ → Engine F → Outcome F × Engine F
  open_position x size_quantity price stop target ts s =
      let fill = opening_fill x size_quantity price ts s in
      if divides_by_zero x size_quantity price s
      then (raised Failure.zero_division, s)
      else finish_open fill stop target ts s (apply_buy fill s.portfolio)
