-- ===== src/Risk/Approval.antt =====
-- What an approval of `RiskEngine.evaluate` (src/domain/risk/engine.py) guarantees.
use self_evaluating_trading.Common.{
  ◌≡◌, Bool, true, false, not, ◌&&◌, ◌||◌, Option, none, some, arith, ltb, ◌==◌, subst,
}
use self_evaluating_trading.Floating.{Floating, or_zero, IsOrdered, IsNum}
use self_evaluating_trading.Trading.{Action, Intensity, is_buy, is_hold}
use self_evaluating_trading.Risk.Config.{RiskConfig}
use self_evaluating_trading.Risk.Guards.{daily_loss_exceeded, drawdown_exceeded}
use self_evaluating_trading.Risk.Sizing.{PositionSize, max_notional, compute_position_size}
use self_evaluating_trading.Risk.Engine.{
  TradeProposal, PortfolioRiskState, evaluate, evaluate_buy, evaluate_sized, evaluate_unstopped,
  lacks_atr, current_drawdown,
}

module _ {F : Type 0} ⦃fl : Floating F⦄ where
  -- A size is there, and its quantity is not `<= 0`.
  abbrev pub IsSized : Option (PositionSize F) → Type 0
  IsSized none = ⊥
  IsSized (some s) = fl.le s.quantity (fl.lit 0 0) ≡ false

module _ {F : Type 0} ⦃fl : Floating F⦄ (cfg : RiskConfig F) (p : TradeProposal F)
    (st : PortfolioRiskState F) where
  open fl use {lit, le, lt, div}

  -- The two guards that stand before every intention.
  abbrev pub is_open_gate : Bool
  is_open_gate = not st.kill_switch.active && not (drawdown_exceeded st.peak_equity st.equity cfg)

  -- An ATR is there and is not `<= 0`.
  abbrev has_atr : Option F → Bool
  has_atr none = false
  has_atr (some a) = not (le a (lit 0 0))

  has_atr-lacks_atr : (o : Option F) → lacks_atr o ≡ false → has_atr o ≡ true
  has_atr-lacks_atr none h = absurd (ground arith)
  has_atr-lacks_atr (some a) h = ground (arith, h)

  -- The guards that a new exposure must pass besides.
  abbrev pub may_expose : Bool
  may_expose =
      not (daily_loss_exceeded st.realized_pnl_today cfg.capital cfg)
      && ltb st.open_positions cfg.max_open_positions
      && (not cfg.stop_loss_required || has_atr p.atr)

  IsSized-evaluate_buy :
      (evaluate_buy cfg p st).approved ≡ true → IsSized (evaluate_buy cfg p st).size
  unfolding evaluate_buy
  IsSized-evaluate_buy h = ground arith

  -- An approved purchase has passed every guard: the kill switch is off, neither the drawdown nor the
  -- daily loss limit is found reached, fewer positions are open than allowed, if the configuration
  -- requires a stop then an ATR is there that is not `<= 0`, which an ATR that is no number is not
  -- either, and the verdict carries a size whose quantity is not `<= 0`.
  pub approved_buy :
      p.action ≡ Action.buy
      → (evaluate cfg p st).approved ≡ true
      → (is_open_gate ≡ true) × (may_expose ≡ true) × IsSized (evaluate cfg p st).size
  unfolding evaluate
  approved_buy b h =
      (ground arith, ground (arith, has_atr-lacks_atr p.atr), ground (arith, IsSized-evaluate_buy))

  -- A decision to hold, or to sell an open position, is approved exactly when the kill switch is off
  -- and the drawdown limit is not reached: the daily loss limit never holds back a reduction.
  pub approved_reduction :
      (is_buy p.action ≡ false)
      → ((evaluate cfg p st).approved
          ≡ (is_open_gate && (is_hold p.action || not (st.open_positions == 0))))
  unfolding evaluate
  approved_reduction b = ground arith

  -- A verdict for a purchase never carries a notional above the largest allowed, when both are
  -- numbers.
  abbrev IsWithin : Option (PositionSize F) → Type 0
  IsWithin none = Unit
  IsWithin (some s) = IsNum s.notional → le s.notional (max_notional cfg) ≡ true

  module _ (laws : IsOrdered F) (top_num : IsNum (max_notional cfg)) where
    open laws use {le_of_not_lt, lit_le}

    compute_position_size-le :
        (i : Intensity) (atr price drawdown : F)
        → let s = compute_position_size i atr price drawdown cfg in
          le s.quantity (lit 0 0) ≡ false
          → IsNum s.notional
          → le s.notional (max_notional cfg) ≡ true
    unfolding compute_position_size
    compute_position_size-le i atr price drawdown z n = ground (
      arith,
      lit_le 0 0 0,
      le_of_not_lt (max_notional cfg) (compute_position_size i atr price drawdown cfg).notional,
      n,
      z,
    )

    IsWithin-evaluate_sized : IsWithin (evaluate_sized cfg p st).size
    unfolding evaluate_sized
    IsWithin-evaluate_sized =
        let atr = or_zero p.atr in
        let drawdown = current_drawdown st.peak_equity st.equity in
        ground (arith, compute_position_size-le p.intensity atr p.price drawdown)

    IsWithin-evaluate : IsWithin (evaluate cfg p st).size
    unfolding evaluate evaluate_unstopped
    IsWithin-evaluate = ground (arith, IsWithin-evaluate_sized)

    -- If the largest notional that the configuration allows is a number, no verdict carries a size whose
    -- notional is a number above it.
    pub evaluate-le :
        {s : PositionSize F}
        → (evaluate cfg p st).size ≡ some s
        → IsNum s.notional
        → le s.notional (max_notional cfg) ≡ true
    evaluate-le e n = (subst IsWithin e IsWithin-evaluate) n
