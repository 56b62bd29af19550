-- ===== src/Paper/Stops.antt =====
-- The exits of src/application/services/paper_engine.py: they come before any decision, and the stop of
-- an open position is a ratchet.
use self_evaluating_trading.Common.{
  ◌≤◌, ◌≡◌, refl, ◌⊎◌, not, if◌then◌else◌, true, false, Option, none, some, arith, Bool-cases, inl,
  inr,
}
use self_evaluating_trading.Floating.{Floating, IsOrdered, IsNum, max, or_zero}
use self_evaluating_trading.Trading.{Action, TradingDecision}
use self_evaluating_trading.Risk.Engine.{evaluate, evaluate_buy}
use self_evaluating_trading.Risk.Stops.{update_trailing}
use self_evaluating_trading.Risk.Trailing.{le-update_trailing}
use self_evaluating_trading.Paper.{
  Engine, Setup, Tick, Outcome, done, raised, ExitReason, PaperPosition, close_position, mark,
}
use self_evaluating_trading.Paper.Handling.{
  on_price, after_exits, decide, carry_out, sell_open, buy_sized, check_position, trailed,
  start_tick, count_rejection, count_hold, verdict_of, is_exit, exit_of, is_late,
}

module _ {F : Type 0} ⦃fl : Floating F⦄ (x : Setup F) where
  -- The stop of a position once it has been raised to a price, with the ATR of the call or zero.
  abbrev pub raised_stop : Tick F → PaperPosition F → F
  raised_stop t pos =
      update_trailing pos.stop_loss (max pos.highest_price t.price) (or_zero t.atr) x.config

  -- The price is at the raised stop or below, or it is at the target or above.
  abbrev pub IsAtExit : Tick F → PaperPosition F → Type 0
  IsAtExit t pos =
      (fl.le t.price (raised_stop t pos) ≡ true)
      ⊎ ((target : F) × (pos.take_profit ≡ some target) × (fl.le target t.price ≡ true))

  -- The stop comes before the target, and a stop above the entry protects a profit.
  abbrev pub exit_reason_at : Tick F → PaperPosition F → ExitReason
  exit_reason_at t pos =
      if not (fl.le t.price (raised_stop t pos))
      then ExitReason.take_profit
      else if fl.lt pos.entry_price (raised_stop t pos)
      then ExitReason.trailing_stop
      else ExitReason.stop_loss

  -- What the outcome of a call is: a sale that was filled for a reason.
  abbrev pub IsExitFor : ExitReason → Outcome F → Type 0
  IsExitFor why (done e) = (e.filled ≡ true) × (e.action ≡ Action.sell) × (e.exit_reason ≡ why)
  IsExitFor why (raised f) = ⊥

  exit_of-at :
      (t : Tick F) (s : Engine F) (pos : PaperPosition F)
      → IsAtExit t pos
      → exit_of t.price (trailed x t.price (start_tick x t s) pos) ≡ exit_reason_at t pos
  unfolding exit_of trailed start_tick
  exit_of-at t s pos (inl h) = ground (arith, h)
  exit_of-at t s pos (inr (target, e, h)) = ground (arith, e, h)

  exits_at : (t : Tick F) (pos : PaperPosition F) → is_exit (exit_reason_at t pos) ≡ true
  exits_at t pos = ground arith

  -- If the call is not late and its price is `<=` the raised stop of the open position or `>=` its target,
  -- the position is closed by a filled sale, whose reason is the trailing stop if the price is `<=` a raised
  -- stop above the entry, the stop loss if it is `<=` another one, and else the target, and what the call
  -- returns and leaves behind is the same for every decision.
  pub on_price_exit :
      (t : Tick F) (s : Engine F) (d : TradingDecision F) {pos : PaperPosition F}
      → is_late s.last_timestamp_ms t.timestamp_ms ≡ false
      → s.position ≡ some pos
      → IsAtExit t pos
      → (on_price x t s ≡ on_price x (record t { decision = d }) s)
        × ((on_price x t s).1.position ≡ none)
        × IsExitFor (exit_reason_at t pos) (on_price x t s).0
  unfolding on_price check_position after_exits start_tick close_position
  on_price_exit t s d {pos} h e at =
      let why = exit_of-at t s pos at in
      let g = exits_at t pos in
      (
        rw (h, e, check_position, why, g),
        rw (h, e, check_position, why, g),
        rw (h, e, check_position, why, g) (refl, refl, refl),
      )

  module _ (laws : IsOrdered F) (single : x.config.max_open_positions ≤ 1) where
    -- The same position, with a stop that is not lower.
    abbrev pub IsRatcheted : PaperPosition F → Option (PaperPosition F) → Type 0
    IsRatcheted a none = Unit
    IsRatcheted a (some b) =
        (b.quantity ≡ a.quantity)
        × (b.entry_price ≡ a.entry_price)
        × (b.entry_ts ≡ a.entry_ts)
        × (b.take_profit ≡ a.take_profit)
        × (fl.le a.stop_loss b.stop_loss ≡ true)

    no_second_buy :
        (t : Tick F) (s : Engine F) (pos : PaperPosition F)
        → s.position ≡ some pos
        → t.decision.action ≡ Action.buy
        → (verdict_of x t s).approved ≡ false
    unfolding verdict_of evaluate evaluate_buy
    no_second_buy t s pos e b = ground arith

    le_refl_num : (a : PaperPosition F) → IsNum a.stop_loss → IsRatcheted a (some a)
    le_refl_num a n = (refl, refl, refl, refl, n)

    decide-IsRatcheted :
        (t : Tick F) (s : Engine F) (pos : PaperPosition F)
        → s.position ≡ some pos
        → IsNum pos.stop_loss
        → IsRatcheted pos (decide x t s).1.position
    unfolding decide carry_out sell_open buy_sized close_position mark count_hold count_rejection
    decide-IsRatcheted t s pos e n = ground (arith, no_second_buy t s pos, le_refl_num pos)

    trailed-IsRatcheted :
        (t : Tick F) (s : Engine F) (pos : PaperPosition F)
        → IsNum pos.stop_loss
        → IsRatcheted pos (some (trailed x t.price s pos))
    unfolding trailed
    trailed-IsRatcheted t s pos n =
        let highest = max pos.highest_price t.price in
        (
          refl,
          refl,
          refl,
          refl,
          le-update_trailing laws x.config pos.stop_loss highest s.last_atr n,
        )

    IsRatcheted-trans :
        (a b : PaperPosition F) (o : Option (PaperPosition F))
        → IsRatcheted a (some b)
        → IsRatcheted b o
        → IsRatcheted a o
    IsRatcheted-trans a b none p q = tt
    IsRatcheted-trans a b (some c) p q =
        ground (arith, laws.le_trans a.stop_loss b.stop_loss c.stop_loss)

    after_exits-IsRatcheted :
        (t : Tick F) (s : Engine F) (pos : PaperPosition F)
        → IsNum pos.stop_loss
        → IsRatcheted pos
            (after_exits x t (check_position x t.price t.timestamp_ms s (some pos))).1.position
    unfolding after_exits check_position
    after_exits-IsRatcheted t s pos n =
        let raised_stop = trailed x t.price s pos in
        let r = trailed-IsRatcheted t s pos n in
        let held = record s { position = some raised_stop } in
        elim (Bool-cases (is_exit (exit_of t.price raised_stop))) [
          | inl gone ↦ rw gone (unfold close_position in tt)
          | inr kept ↦
              rw (kept, after_exits)
                (IsRatcheted-trans pos raised_stop (decide x t held).1.position r (
                  decide-IsRatcheted t held raised_stop refl
                    (laws.num_of_le pos.stop_loss raised_stop.stop_loss r.4).1))
        ]

    -- With at most one position allowed, a call that finds a position open, its stop a number, closes it
    -- or keeps its quantity, entry and target with a stop that is not lower: no call replaces it.
    pub on_price-IsRatcheted :
        (t : Tick F) (s : Engine F) (pos : PaperPosition F)
        → s.position ≡ some pos
        → IsNum pos.stop_loss
        → IsRatcheted pos (on_price x t s).1.position
    unfolding on_price start_tick check_position trailed
    on_price-IsRatcheted t s pos e n =
        elim (Bool-cases (is_late s.last_timestamp_ms t.timestamp_ms)) [
          | inl late ↦ rw (late, e) (le_refl_num pos n)
          | inr in_order ↦ rw (in_order, e) (after_exits-IsRatcheted t (start_tick x t s) pos n)
        ]
