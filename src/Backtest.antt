-- ===== src/Backtest.antt =====
-- src/application/services/backtest_engine.py: the loop of `run` over the candles. The strategy is any
-- implementation of the protocol `Strategy`: a state and a step. `none` is the exception of a purchase: the
-- `ValueError` of the account, or the `ZeroDivisionError` of `FillModel.buy`. The
-- metrics that `run` computes from the loop's result are not modelled.
pub mod Causality
pub mod Counts
mod Examples
use self_evaluating_trading.Common.{
  ℕ, ◌+◌, ◌-◌, Bool, not, ◌&&◌, ◌||◌, Option, none, some, List, [], ◌∷◌, ◌++◌, if◌then◌else◌,
}
use self_evaluating_trading.Floating.{Floating}
use self_evaluating_trading.Trading.{
  Action, FeeModel, SlippageModel, taker_rate, slippage_rate, fill_buy, fill_sell, is_buy, is_sell,
  is_hold,
}
use self_evaluating_trading.Market.Candle.{Candle}
use self_evaluating_trading.Strategy.{Signal}
use self_evaluating_trading.Portfolio.{Portfolio, new_portfolio, apply_buy, apply_sell, equity_at}

-- What the engine is built with, its strategy's step included.
pub record Plan (F S : Type 0) : Type 0 where
  pub fees : FeeModel F
  pub slippage : SlippageModel F
  pub initial_cash : F
  pub strategy : S
  pub on_candle : Candle F → S → Signal × S

-- The variables of the loop.
pub record Loop (F S : Type 0) : Type 0 where
  pub portfolio : Portfolio F
  pub strategy : S
  pub pending : Option Signal
  pub equity : List F
  pub signals : ℕ
  pub open_bars : ℕ
  pub holding_bars : List ℕ
  pub entry_bar : Option ℕ
  pub index : ℕ

-- `i - (entry_bar if entry_bar is not None else i)`
abbrev pub bars_held : ℕ → Option ℕ → ℕ
bars_held i none = 0
bars_held i (some e) = i - e

module _ {F S : Type 0} ⦃fl : Floating F⦄ (plan : Plan F S) where
  open fl use {lit, lt, le, eq, add, mul}

  unfoldable pub start : Loop F S
  unfolding new_portfolio
  start = record {
    portfolio = new_portfolio plan.initial_cash;
    strategy = plan.strategy;
    pending = none;
    equity = [];
    signals = 0;
    open_bars = 0;
    holding_bars = [];
    entry_bar = none;
    index = 0;
  }

  -- `FillModel.buy` divides by these two, unless there is no cash.
  unfoldable pub divides_by_zero : F → F → Bool
  divides_by_zero price cash =
      not (le cash (lit 0 0))
      && (eq (add (lit 1 0) (taker_rate plan.fees)) (lit 0 0)
          || eq (mul price (add (lit 1 0) (slippage_rate plan.slippage))) (lit 0 0))

  -- `_execute`
  unfoldable pub execute : Action → F → ℕ → Portfolio F → Option (Portfolio F)
  execute Action.buy price ts p =
      if divides_by_zero price p.cash
      then none
      else apply_buy (fill_buy plan.fees plan.slippage ts price p.cash) p
  execute Action.sell price ts p =
      if lt (lit 0 0) p.position
      then some (apply_sell (fill_sell plan.fees plan.slippage ts price p.position) p)
      else some p
  execute Action.hold price ts p = some p

  -- The bars of entry and holding, once a signal has been executed.
  unfoldable pub note_bars : Action → Portfolio F → Loop F S → Loop F S
  note_bars a p l =
      let before = l.portfolio.position in
      let opened = is_buy a && eq before (lit 0 0) && lt (lit 0 0) p.position in
      let closed = is_sell a && eq p.position (lit 0 0) && lt (lit 0 0) before in
      let entered = if opened then some l.index else l.entry_bar in
      record l {
        portfolio = p;
        pending = none;
        holding_bars =
            if closed then l.holding_bars ++ (bars_held l.index entered ∷ []) else l.holding_bars;
        entry_bar = if closed then none else entered;
      }

  abbrev pub noted : Action → Loop F S → Option (Portfolio F) → Option (Loop F S)
  noted a l none = none
  noted a l (some p) = some (note_bars a p l)

  -- The pending signal is executed at the open of the candle.
  unfoldable pub settle : F → ℕ → Option Signal → Loop F S → Option (Loop F S)
  settle open_price ts none l = some l
  settle open_price ts (some sig) l =
      noted sig.action l (execute sig.action open_price ts l.portfolio)

  -- The rest of the body: the strategy sees the candle, and the equity is marked at its close.
  unfoldable pub observe_candle : Candle F → Loop F S → Loop F S
  observe_candle c l =
      let (sig, s) = plan.on_candle c l.strategy in
      record l {
        strategy = s;
        pending = some sig;
        signals = if is_hold sig.action then l.signals else l.signals + 1;
        equity = l.equity ++ (equity_at c.close l.portfolio ∷ []);
        open_bars = if lt (lit 0 0) l.portfolio.position then l.open_bars + 1 else l.open_bars;
        index = l.index + 1;
      }

  abbrev pub observed : Candle F → Option (Loop F S) → Option (Loop F S)
  observed c none = none
  observed c (some l) = some (observe_candle c l)

  -- The body of the loop.
  unfoldable pub bar : Candle F → Loop F S → Option (Loop F S)
  bar c l = observed c (settle c.open_price c.timestamp_ms l.pending l)

  abbrev pub go_on : (Loop F S → Option (Loop F S)) → Option (Loop F S) → Option (Loop F S)
  go_on f none = none
  go_on f (some l) = f l

  unfoldable pub run_from : List (Candle F) → Loop F S → Option (Loop F S)
  run_from [] l = some l
  run_from (c ∷ cs) l = go_on (run_from cs) (bar c l)

  -- The loop of `run`
  unfoldable pub run_loop : List (Candle F) → Option (Loop F S)
  run_loop cs = run_from cs start
