-- ===== src/Paper/Books.antt =====
-- The events that src/application/services/paper_engine.py emits against the account that it keeps,
-- through the mirror of src/application/services/accounting_reconciliation.py. The checks of
-- Accounting/Replica are made for one fill; here they are made for a whole run.
use self_evaluating_trading.Common.{
  ℕ, ◌≡◌, refl, ◌∙◌, Bool, Option, none, some, List, [], ◌∷◌, ◌++◌, ap, arith, Bool-cases, inl, inr,
  Option-cases,
}
use self_evaluating_trading.Floating.{Floating}
use self_evaluating_trading.Trading.{Fill, Action}
use self_evaluating_trading.Risk.Engine.{RiskVerdict}
use self_evaluating_trading.Risk.Sizing.{PositionSize}
use self_evaluating_trading.Portfolio.{Portfolio, apply_buy}
use self_evaluating_trading.Accounting.{Mirror, advance_leg, leg_of}
use self_evaluating_trading.Accounting.Replica.{view, IsPlain, view-apply_buy, view-apply_sell}
use self_evaluating_trading.Paper.Clock.{run}
use self_evaluating_trading.Paper.{
  Engine, Setup, Tick, Outcome, raised, done, PaperPosition, PaperEvent, ExitReason, open_position,
  finish_open, close_position, make_fill, opening_fill, mark, divides_by_zero,
}
use self_evaluating_trading.Paper.Handling.{
  on_price, after_exits, decide, carry_out, sell_open, buy_sized, check_position, trailed,
  start_tick, count_rejection, count_hold, verdict_of, is_exit, exit_of, is_late, stop_or,
}

module _ {F : Type 0} ⦃fl : Floating F⦄ where
  -- The step of the mirror at an event; the fields are those that the runner persists.
  unfoldable pub replay_fill : Action → Bool → Option (Fill F) → Mirror F → Mirror F
  replay_fill a filled none m = m
  replay_fill a filled (some f) m =
      advance_leg a (leg_of filled (some f.exec_price) (some f.quantity) f.fee f.slippage_cost) m

  -- What a call has done to the account is what its event does to the mirror; a call that raised has
  -- left the account alone.
  abbrev pub IsReplayed : Portfolio F → Outcome F → Portfolio F → Type 0
  IsReplayed p (raised f) q = q ≡ p
  IsReplayed p (done e) q = view q ≡ replay_fill e.action e.filled e.fill (view p)

  module _ (x : Setup F) where
    close_position-IsReplayed :
        (pos : PaperPosition F) (price : F) (ts : ℕ) (why : ExitReason) (s : Engine F)
        → IsPlain s.portfolio
        → let r = close_position x pos price ts why s in
          IsReplayed s.portfolio (done r.0) r.1.portfolio
    unfolding close_position mark replay_fill make_fill advance_leg
    close_position-IsReplayed pos price ts why s n =
        view-apply_sell (make_fill x Action.sell price pos.quantity ts) s.portfolio refl n

    open_position-IsReplayed :
        (size price stop : F) (target : Option F) (ts : ℕ) (s : Engine F)
        → IsPlain s.portfolio
        → let r = open_position x size price stop target ts s in
          IsReplayed s.portfolio r.0 r.1.portfolio
    unfolding open_position finish_open mark replay_fill opening_fill advance_leg
    open_position-IsReplayed size price stop target ts s n =
        let fill = opening_fill x size price ts s in
        elim (Bool-cases (divides_by_zero x size price s)) [
          | inl zero ↦ rw zero refl
          | inr fine ↦ elim (Option-cases (apply_buy fill s.portfolio)) [
            | inl e ↦ rw (fine, e, finish_open) refl
            | inr (q, e) ↦ rw (fine, e, finish_open) (view-apply_buy fill s.portfolio refl n e)
          ]
        ]

    carry_out-IsReplayed :
        (t : Tick F) (v : RiskVerdict F) (s : Engine F) (a : Action)
        → IsPlain s.portfolio
        → let r = carry_out x t v s a in IsReplayed s.portfolio r.0 r.1.portfolio
    unfolding carry_out
    carry_out-IsReplayed t v s Action.hold n = unfold count_hold replay_fill in refl
    carry_out-IsReplayed t v s Action.sell n = sold s.position
      where
        sold :
            (o : Option (PaperPosition F))
            → let r = sell_open x t s o in IsReplayed s.portfolio r.0 r.1.portfolio
        sold none = unfold sell_open replay_fill in refl
        sold (some pos) =
            unfold sell_open in
            close_position-IsReplayed pos t.price t.timestamp_ms ExitReason.llm_sell s n
    carry_out-IsReplayed t v s Action.buy n = bought v.size
      where
        bought :
            (o : Option (PositionSize F))
            → let r = buy_sized x t v s o in IsReplayed s.portfolio r.0 r.1.portfolio
        bought none = unfold buy_sized replay_fill in refl
        bought (some z) =
            let fallback = fl.mul t.price (fl.sub (fl.lit 1 0) (fl.lit 1 9)) in
            unfold buy_sized in
            open_position-IsReplayed z.quantity t.price (stop_or v.stop_loss fallback) v.take_profit
              t.timestamp_ms s n

    decide-IsReplayed :
        (t : Tick F) (s : Engine F)
        → IsPlain s.portfolio
        → let r = decide x t s in IsReplayed s.portfolio r.0 r.1.portfolio
    unfolding decide mark count_rejection replay_fill
    decide-IsReplayed t s n = ground (
      arith,
      carry_out-IsReplayed t (verdict_of x t s) (unfold mark in mark t.price s) t.decision.action n,
    )

    after_exits-IsReplayed :
        (t : Tick F) (s : Engine F) (o : Option (PaperPosition F))
        → IsPlain s.portfolio
        → let r = after_exits x t (check_position x t.price t.timestamp_ms s o) in
          IsReplayed s.portfolio r.0 r.1.portfolio
    unfolding after_exits check_position
    after_exits-IsReplayed t s none n = decide-IsReplayed t s n
    after_exits-IsReplayed t s (some old) n =
        let pos = trailed x t.price s old in
        let held = record s { position = some pos } in
        let why = exit_of t.price pos in
        elim (Bool-cases (is_exit why)) [
          | inl gone ↦ rw gone (close_position-IsReplayed pos t.price t.timestamp_ms why held n)
          | inr kept ↦ rw (kept, after_exits) (decide-IsReplayed t held n)
        ]

    on_price-IsReplayed :
        (t : Tick F) (s : Engine F)
        → IsPlain s.portfolio
        → let r = on_price x t s in IsReplayed s.portfolio r.0 r.1.portfolio
    unfolding on_price start_tick
    on_price-IsReplayed t s n = elim (Bool-cases (is_late s.last_timestamp_ms t.timestamp_ms)) [
      | inl late ↦ rw late refl
      | inr in_order ↦
          let s' = start_tick x t s in rw in_order (after_exits-IsReplayed t s' s'.position n)
    ]

    -- The events that a sequence of calls has returned; a call that raised has returned none.
    abbrev pub event_of : Outcome F → List (PaperEvent F)
    event_of (raised f) = []
    event_of (done e) = e ∷ []

    unfoldable pub emitted : List (Tick F) → Engine F → List (PaperEvent F)
    emitted [] s = []
    emitted (t ∷ ts) s = let r = on_price x t s in event_of r.0 ++ emitted ts r.1

    unfoldable pub replay_fills : List (PaperEvent F) → Mirror F → Mirror F
    replay_fills [] m = m
    replay_fills (e ∷ es) m = replay_fills es (replay_fill e.action e.filled e.fill m)

    -- At every call the average entry is no zero of negative sign.
    abbrev pub IsPlainRun : List (Tick F) → Engine F → Type 0
    IsPlainRun [] s = Unit
    IsPlainRun (t ∷ ts) s = IsPlain s.portfolio × IsPlainRun ts (on_price x t s).1

    replay_event :
        (o : Outcome F) (es : List (PaperEvent F)) (p q : Portfolio F)
        → IsReplayed p o q
        → replay_fills es (view q) ≡ replay_fills (event_of o ++ es) (view p)
    unfolding replay_fills
    replay_event (raised f) es p q h = ap (λ r. replay_fills es (view r)) h
    replay_event (done e) es p q h = ap (replay_fills es) h

    -- After any sequence of calls, exceptions included, the account is, in every field that the mirror
    -- has, what the mirror makes of the emitted events alone, starting from the account before
    -- them; the average entry that each call finds must be no zero of negative sign.
    pub view-run :
        (ts : List (Tick F)) (s : Engine F)
        → IsPlainRun ts s
        → view (run x ts s).portfolio ≡ replay_fills (emitted ts s) (view s.portfolio)
    unfolding run emitted
    view-run [] s n = unfold replay_fills in refl
    view-run (t ∷ ts) s (n, ns) =
        let r = on_price x t s in
        view-run ts r.1 ns
        ∙ replay_event r.0 (emitted ts r.1) s.portfolio r.1.portfolio (on_price-IsReplayed t s n)
