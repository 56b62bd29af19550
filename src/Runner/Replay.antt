-- ===== src/Runner/Replay.antt =====
-- The replay of src/application/services/paper_runner.py: stored candles are processed again, and each
-- event is compared with the persisted one.
use self_evaluating_trading.Common.{
  ℕ, ◌==◌, Bool, true, false, not, ◌&&◌, Option, none, some, List, [], ◌∷◌, String, str_eq,
  if◌then◌else◌,
}
use self_evaluating_trading.Floating.{Floating, max}
use self_evaluating_trading.Trading.{Action, is_buy, is_sell}
use self_evaluating_trading.Risk.Engine.{Reason}
use self_evaluating_trading.Market.Candle.{Candle}
use self_evaluating_trading.Market.Regime.{MarketRegime}
use self_evaluating_trading.Confirmation.{same_regime}
use self_evaluating_trading.Strategy.{reason_text}
use self_evaluating_trading.Paper.{ExitReason}
use self_evaluating_trading.Events.{PaperTradeEvent, DecisionContext}
use self_evaluating_trading.Runner.{Runner, RunnerError, Processed, process, set_last}

abbrev reason_code : Reason → ℕ
reason_code Reason.nothing = 0
reason_code Reason.kill_switch = 1
reason_code Reason.max_drawdown = 2
reason_code Reason.no_op = 3
reason_code Reason.no_position_to_reduce = 4
reason_code Reason.reduce = 5
reason_code Reason.max_daily_loss = 6
reason_code Reason.max_open_positions = 7
reason_code Reason.stop_unavailable = 8
reason_code Reason.zero_size = 9
reason_code Reason.ok_unstopped = 10
reason_code Reason.ok = 11

abbrev exit_code : ExitReason → ℕ
exit_code ExitReason.nothing = 0
exit_code ExitReason.trailing_stop = 1
exit_code ExitReason.stop_loss = 2
exit_code ExitReason.take_profit = 3
exit_code ExitReason.llm_sell = 4

unfoldable pub same_optional : Option MarketRegime → Option MarketRegime → Bool
same_optional none none = true
same_optional (some a) (some b) = same_regime a b
same_optional _ _ = false

abbrev same_flag : Bool → Bool → Bool
same_flag true b = b
same_flag false b = not b

-- The comparison of the texts that the events have for their action and reasons.
unfoldable pub same_action : Action → Action → Bool
same_action a b = same_flag (is_buy a) (is_buy b) && same_flag (is_sell a) (is_sell b)

unfoldable pub same_reason : Reason → Reason → Bool
same_reason a b = reason_code a == reason_code b

unfoldable pub same_exit : ExitReason → ExitReason → Bool
same_exit a b = exit_code a == exit_code b

-- The persisted events by symbol, timeframe and timestamp.
abbrev pub Store : Type 0 → Type 0
Store F = String → String → ℕ → Option (PaperTradeEvent F)

-- A candle to replay, with its symbol and the label of its timeframe.
abbrev pub Input : Type 0 → Type 0
Input F = String × String × Candle F

module _ {F : Type 0} ⦃fl : Floating F⦄ where
  open fl use {lit, sub, mul, abs, lt, le}

  -- `_floats_close`
  unfoldable pub close_enough : F → F → F → Bool
  close_enough tol a b = le (abs (sub a b)) (mul tol (max (max (lit 1 0) (abs a)) (abs b)))

  unfoldable pub floats_close : F → Option F → Option F → Bool
  floats_close tol none none = true
  floats_close tol (some a) (some b) = close_enough tol a b
  floats_close tol _ _ = false

  -- The snapshots' comparison refuses a difference that is greater than the tolerance.
  unfoldable pub values_agree : F → Option F → Option F → Bool
  values_agree tol none none = true
  values_agree tol (some a) (some b) =
      not (lt (mul tol (max (max (lit 1 0) (abs a)) (abs b))) (abs (sub a b)))
  values_agree tol _ _ = false

  unfoldable pub contexts_equivalent :
      F → Option (DecisionContext F) → Option (DecisionContext F) → Bool
  contexts_equivalent tol none none = true
  contexts_equivalent tol (some a) (some b) =
      str_eq (reason_text a.signal_reason) (reason_text b.signal_reason)
      && same_optional a.regime b.regime
      && values_agree tol a.atr b.atr
      && values_agree tol a.ema_fast b.ema_fast
      && values_agree tol a.ema_slow b.ema_slow
      && values_agree tol a.rsi b.rsi
  contexts_equivalent tol _ _ = false

  unfoldable pub events_equivalent : F → PaperTradeEvent F → PaperTradeEvent F → Bool
  events_equivalent tol a b =
      same_action a.action b.action
      && same_flag a.filled b.filled
      && same_reason a.risk_reason b.risk_reason
      && same_exit a.exit_reason b.exit_reason
      && same_flag a.kill_switch_active b.kill_switch_active
      && floats_close tol a.exec_price b.exec_price
      && floats_close tol a.quantity b.quantity
      && close_enough tol a.fee b.fee
      && close_enough tol a.slippage_cost b.slippage_cost
      && close_enough tol a.equity b.equity
      && contexts_equivalent tol a.decision_context b.decision_context

  -- The check of a replayed event against the persisted one.
  unfoldable pub check_event : PaperTradeEvent F → Option (PaperTradeEvent F) → Option RunnerError
  check_event e none = some RunnerError.recovery_gap
  check_event e (some expected) =
      if events_equivalent (lit 1 9) e expected then none else some RunnerError.recovery_divergence

  -- What a processed candle is replayed to: an error, or none.
  unfoldable pub check_processed : Processed F → Option (PaperTradeEvent F) → Option RunnerError
  unfolding check_event
  check_processed (Processed.failed e) expected = some e
  check_processed (Processed.event e) expected = check_event e expected

  -- `self._last_candle[...] = candle`, which an exception of `_process` leaves out.
  unfoldable pub remember : String → String → Candle F → Processed F → Runner F → Runner F
  remember symbol tf c (Processed.event e) r = record r {
    last_candle = set_last symbol tf c r.last_candle;
  }
  remember symbol tf c (Processed.failed e) r = r

  -- An exception ends the replay; otherwise the rest is replayed.
  unfoldable pub or_stop :
      Option RunnerError → Runner F → Option RunnerError × Runner F → Option RunnerError × Runner F
  or_stop none r later = later
  or_stop (some e) r later = (some e, r)

  -- `replay`; `none` is that it returned.
  unfoldable pub replay : List (Input F) → Store F → Runner F → Option RunnerError × Runner F
  replay [] persisted r = (none, r)
  replay ((symbol, tf, c) ∷ rest) persisted r =
      let (p, r') = process symbol tf c r in
      let s = remember symbol tf c p r' in
      let later = replay rest persisted s in
      or_stop (check_processed p (persisted symbol tf c.timestamp_ms)) s later
