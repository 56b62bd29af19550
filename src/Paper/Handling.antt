-- ===== src/Paper/Handling.antt =====
-- The handling of one price in src/application/services/paper_engine.py: the exits, the risk engine
-- and the decision, in the order of `on_price`.
use self_evaluating_trading.Common.{
  ℕ, ◌+◌, ltb, ◌==◌, Bool, true, false, ◌&&◌, not, Option, none, some, if◌then◌else◌,
}
use self_evaluating_trading.Floating.{Floating, max, or_zero}
use self_evaluating_trading.Trading.{Action, is_buy, is_hold}
use self_evaluating_trading.Risk.Guards.{daily_loss_exceeded}
use self_evaluating_trading.Risk.Sizing.{PositionSize}
use self_evaluating_trading.Risk.Stops.{update_trailing}
use self_evaluating_trading.Risk.Engine.{Reason, RiskVerdict, evaluate, is_max_daily_loss}
use self_evaluating_trading.Portfolio.{equity_at}
use self_evaluating_trading.Paper.{
  Setup, Engine, Tick, Outcome, done, raised, Failure, PaperEvent, PaperPosition, ExitReason,
  unfilled, mark, close_position, open_position,
}

abbrev pub is_exit : ExitReason → Bool
is_exit ExitReason.nothing = false
is_exit _ = true

abbrev pub is_late : Option ℕ → ℕ → Bool
is_late none ts = false
is_late (some last) ts = ltb ts last

-- `day != self._day`, for a day that is set
abbrev pub is_other_day : Option ℕ → ℕ → Bool
is_other_day none day = false
is_other_day (some d) day = not (day == d)

module _ {F : Type 0} ⦃fl : Floating F⦄ where
  open fl use {lit, sub, mul, lt, le, eq}

  -- `_check_exits` raises the stop first.
  unfoldable pub trailed : Setup F → F → Engine F → PaperPosition F → PaperPosition F
  trailed x price s pos =
      let highest = max pos.highest_price price in
      record pos {
        stop_loss = update_trailing pos.stop_loss highest s.last_atr x.config;
        highest_price = highest;
      }

  abbrev pub reaches : F → Option F → Bool
  reaches price none = false
  reaches price (some target) = le target price

  unfoldable pub exit_of : F → PaperPosition F → ExitReason
  exit_of price pos =
      if le price pos.stop_loss
      then (if lt pos.entry_price pos.stop_loss
          then ExitReason.trailing_stop
          else ExitReason.stop_loss)
      else if reaches price pos.take_profit
      then ExitReason.take_profit
      else ExitReason.nothing

  unfoldable pub check_position :
      Setup F → F → ℕ → Engine F → Option (PaperPosition F) → Option (PaperEvent F) × Engine F
  check_position x price ts s none = (none, s)
  check_position x price ts s (some old) =
      let pos = trailed x price s old in
      let held = record s { position = some pos } in
      let (event, closed) = close_position x pos price ts (exit_of price pos) held in
      if is_exit (exit_of price pos) then (some event, closed) else (none, held)

  -- The number of open positions in the state that the risk engine sees.
  abbrev pub count_open : Option (PaperPosition F) → ℕ
  count_open none = 0
  count_open (some pos) = 1

  unfoldable pub verdict_of : Setup F → Tick F → Engine F → RiskVerdict F
  verdict_of x t s =
      evaluate x.config
        (record {
          action = t.decision.action;
          intensity = t.decision.intensity;
          price = t.price;
          atr = t.atr;
          timestamp_ms = t.timestamp_ms;
        })
        (record {
          open_positions = count_open s.position;
          realized_pnl_today = s.realized_pnl_today;
          peak_equity = s.peak_equity;
          equity = equity_at t.price s.portfolio;
          kill_switch = s.kill_switch;
        })

  -- `verdict.stop_loss or price * (1.0 - 1e-9)`
  abbrev pub stop_or : Option F → F → F
  stop_or none d = d
  stop_or (some stop) d = if eq stop (lit 0 0) then d else stop

  -- A rejected order is counted, a purchase refused for the daily loss once more.
  unfoldable pub count_rejection : Action → Reason → Engine F → Engine F
  count_rejection a r s = if is_hold a then s else record s {
    orders_rejected = s.orders_rejected + 1;
    daily_loss_triggered =
        if is_buy a && is_max_daily_loss r
        then s.daily_loss_triggered + 1
        else s.daily_loss_triggered;
  }

  -- `daily_loss_active`
  unfoldable pub daily_loss_active : Setup F → Engine F → Bool
  daily_loss_active x s = daily_loss_exceeded s.realized_pnl_today x.config.capital x.config

  unfoldable pub count_hold : Setup F → Engine F → Engine F
  count_hold x s = record s {
    daily_loss_active_cycles =
        if daily_loss_active x s
        then s.daily_loss_active_cycles + 1
        else s.daily_loss_active_cycles;
  }

  unfoldable pub sell_open :
      Setup F → Tick F → Engine F → Option (PaperPosition F) → Outcome F × Engine F
  sell_open x t s none = (done (unfilled Action.sell Reason.nothing), s)
  sell_open x t s (some pos) =
      let (event, s') = close_position x pos t.price t.timestamp_ms ExitReason.llm_sell s in
      (done event, s')

  unfoldable pub buy_sized :
      Setup F → Tick F → RiskVerdict F → Engine F → Option (PositionSize F) → Outcome F × Engine F
  buy_sized x t v s none = (done (unfilled Action.buy Reason.nothing), s)
  buy_sized x t v s (some z) =
      let fallback = mul t.price (sub (lit 1 0) (lit 1 9)) in
      open_position x z.quantity t.price (stop_or v.stop_loss fallback) v.take_profit t.timestamp_ms
        s

  -- An approved decision is carried out.
  unfoldable pub carry_out :
      Setup F → Tick F → RiskVerdict F → Engine F → Action → Outcome F × Engine F
  carry_out x t v s Action.hold = (done (unfilled Action.hold Reason.nothing), count_hold x s)
  carry_out x t v s Action.sell = sell_open x t s s.position
  carry_out x t v s Action.buy = buy_sized x t v s v.size

  -- The second half of `on_price`: the decision passes the risk engine.
  unfoldable pub decide : Setup F → Tick F → Engine F → Outcome F × Engine F
  decide x t s =
      let v = verdict_of x t s in
      let s' = mark t.price s in
      if v.approved then carry_out x t v s' t.decision.action else (
        done (unfilled t.decision.action v.reason),
        count_rejection t.decision.action v.reason s',
      )

  unfoldable pub start_tick : Setup F → Tick F → Engine F → Engine F
  start_tick x t s =
      let today = x.day_key t.timestamp_ms in
      record s {
        last_timestamp_ms = some t.timestamp_ms;
        day = some today;
        realized_pnl_today = if is_other_day s.day today then lit 0 0 else s.realized_pnl_today;
        last_price = some t.price;
        last_atr = or_zero t.atr;
      }

  unfoldable pub after_exits :
      Setup F → Tick F → Option (PaperEvent F) × Engine F → Outcome F × Engine F
  after_exits x t (some event, s) = (done event, s)
  after_exits x t (none, s) = decide x t s

  unfoldable pub on_price : Setup F → Tick F → Engine F → Outcome F × Engine F
  on_price x t s =
      let s' = start_tick x t s in
      if is_late s.last_timestamp_ms t.timestamp_ms
      then (raised Failure.out_of_order, s)
      else after_exits x t (check_position x t.price t.timestamp_ms s' s'.position)
