-- ===== src/Medallion/Replay/Engine.antt =====
-- The engine of the replay (src/infrastructure/medallion/replay.py): candles that are confirmed, the opening and
-- the closing of the position, and the risk of an open one.
use self_evaluating_trading.Common.{
  ℕ, zero, suc, ◌+◌, ◌/◌, Bool, true, false, ltb, Option, none, some, List, [], ◌∷◌, ◌++◌, String,
  length, get_elem?, map, if◌then◌else◌,
}
use self_evaluating_trading.Floating.{Floating}
use self_evaluating_trading.Risk.Engine.{Reason}
use self_evaluating_trading.Medallion.Replay.{
  CandleRow, ContextSnapshot, Decision, DecisionProvider, SizingMode, ReplayScenario, Position,
  EngineState,
}

-- The texts of the risk engine's reasons.
abbrev pub reason_text : Reason → String
reason_text Reason.nothing = ""
reason_text Reason.kill_switch = "kill_switch"
reason_text Reason.max_drawdown = "max_drawdown"
reason_text Reason.no_op = "no_op"
reason_text Reason.no_position_to_reduce = "no_position_to_reduce"
reason_text Reason.reduce = "reduce"
reason_text Reason.max_daily_loss = "max_daily_loss"
reason_text Reason.max_open_positions = "max_open_positions"
reason_text Reason.stop_unavailable = "stop_unavailable"
reason_text Reason.zero_size = "zero_size"
reason_text Reason.ok_unstopped = "ok_unstopped"
reason_text Reason.ok = "ok"

abbrev pub or_nothing : Option ℕ → ℕ
or_nothing none = 0
or_nothing (some n) = n

abbrev pub is_dynamic : SizingMode → Bool
is_dynamic SizingMode.fixed = false
is_dynamic SizingMode.risk_engine = true

-- `bisect.bisect_right`, with a bound on its rounds: half of what is left each round, so that the length is
-- enough of them.
unfoldable pub bisect_within : ℕ → List ℕ → ℕ → ℕ → ℕ → ℕ
bisect_within zero keys x lo hi = lo
bisect_within (suc fuel) keys x lo hi =
    let mid = (lo + hi) / 2 in
    let below = bisect_within fuel keys x lo mid in
    let above = bisect_within fuel keys x (suc mid) hi in
    if ltb lo hi then (if ltb x (or_nothing (get_elem? keys mid)) then below else above) else lo

module _ {F : Type 0} where
  -- `_context_at`
  abbrev pub row_before : List (CandleRow F) → ℕ → Option (CandleRow F)
  row_before rows zero = none
  row_before rows (suc n) = get_elem? rows n

  unfoldable pub context_at : List (CandleRow F) → ℕ → Option (CandleRow F)
  context_at rows decision_ts =
      let keys = map CandleRow.close_time rows in
      row_before rows (bisect_within (length keys) keys decision_ts 0 (length keys))

  abbrev pub push : List (Decision F) → Option (Decision F) → List (Decision F)
  push queue none = queue
  push queue (some d) = queue ++ (d ∷ [])

  abbrev pub count_decision : ℕ → Option (Decision F) → ℕ
  count_decision n none = n
  count_decision n (some d) = suc n

  -- The position with the ATR of the candle, in the dynamic mode.
  abbrev pub with_atr : Bool → Option F → Option (Position F) → Option (Position F)
  with_atr true (some a) (some pos) = some (record pos { current_atr = a })
  with_atr _ _ p = p

module _ {F : Type 0} ⦃fl : Floating F⦄ (scenario : ReplayScenario F)
    (provider : DecisionProvider F) (ctx_1h ctx_4h : List (CandleRow F)) where
  open fl use {lit, add, sub, mul, div, lt, le}

  -- One round of the loop of `_advance`.
  unfoldable pub see_candle : CandleRow F → Option F → EngineState F → EngineState F
  see_candle c a s =
      let context : ContextSnapshot F = record {
        decision_ts = c.close_time;
        h1 = context_at ctx_1h c.close_time;
        h4 = context_at ctx_4h c.close_time;
      } in
      let decision = provider.decide s.candle_i c.close_time c.close a context in
      record s {
        queue = push s.queue decision;
        stats = record (s.stats) {
          decisions_total = count_decision (s.stats).decisions_total decision;
        };
        position = with_atr (is_dynamic scenario.sizing_mode) a s.position;
        candle_i = suc s.candle_i;
      }

  unfoldable pub advance_over : List (CandleRow F × Option F) → ℕ → EngineState F → EngineState F
  advance_over [] cutoff s = record s { ahead = [] }
  advance_over ((c, a) ∷ cs) cutoff s =
      let rest = advance_over cs cutoff (see_candle c a s) in
      if ltb cutoff c.close_time then record s { ahead = (c, a) ∷ cs } else rest

  -- `_advance`
  unfoldable pub advance : ℕ → EngineState F → EngineState F
  advance cutoff s = advance_over s.ahead cutoff s
