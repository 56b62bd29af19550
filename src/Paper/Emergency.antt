-- ===== src/Paper/Emergency.antt =====
-- The paper engine of src/application/services/paper_engine.py while the kill switch is active.
use self_evaluating_trading.Common.{
  ◌≡◌, refl, ◌∙◌, true, false, not, ◌&&◌, Option, none, some, List, [], ◌∷◌, arith, Bool-cases, inl,
  inr, ap,
}
use self_evaluating_trading.Floating.{Floating}
use self_evaluating_trading.Trading.{is_sell}
use self_evaluating_trading.Risk.Engine.{evaluate}
use self_evaluating_trading.Portfolio.{Portfolio}
use self_evaluating_trading.Paper.{
  Engine, Setup, Tick, Outcome, raised, done, PaperPosition, close_position, mark,
}
use self_evaluating_trading.Paper.Handling.{
  on_price, after_exits, decide, check_position, trailed, start_tick, count_rejection, verdict_of,
  is_late, is_exit, exit_of,
}
use self_evaluating_trading.Paper.Clock.{run, run-Advances, on_price-Advances}

-- The position is the one before, its stop and its highest price aside, or it is gone.
abbrev pub IsReduced : {F : Type 0} → Option (PaperPosition F) → Option (PaperPosition F) → Type 0
IsReduced o none = Unit
IsReduced none (some b) = ⊥
IsReduced (some a) (some b) =
    (b.quantity ≡ a.quantity)
    × (b.entry_price ≡ a.entry_price)
    × (b.take_profit ≡ a.take_profit)
    × (b.entry_ts ≡ a.entry_ts)

-- An event that fills is a sale.
abbrev pub OnlySells : {F : Type 0} → Outcome F → Type 0
OnlySells (raised f) = Unit
OnlySells (done e) = (e.filled && not (is_sell e.action)) ≡ false

-- With no position the account is the one before.
abbrev pub IsUntouched :
    {F : Type 0} → Option (PaperPosition F) → Portfolio F → Portfolio F → Type 0
IsUntouched none p q = q ≡ p
IsUntouched (some a) p q = Unit

IsReduced-trans :
    {F : Type 0} (a b c : Option (PaperPosition F)) → IsReduced a b → IsReduced b c → IsReduced a c
IsReduced-trans a b none p q = tt
IsReduced-trans none none (some c) p q = q
IsReduced-trans none (some b) (some c) p q = absurd p
IsReduced-trans (some a) none (some c) p q = absurd q
IsReduced-trans (some a) (some b) (some c) p q = ground arith

IsReduced-refl : {F : Type 0} (a : Option (PaperPosition F)) → IsReduced a a
IsReduced-refl none = tt
IsReduced-refl (some a) = (refl, refl, refl, refl)

IsUntouched-refl : {F : Type 0} (a : Option (PaperPosition F)) (p : Portfolio F) → IsUntouched a p p
IsUntouched-refl none p = refl
IsUntouched-refl (some a) p = tt

IsUntouched-trans :
    {F : Type 0} (a b : Option (PaperPosition F)) (p q r : Portfolio F)
    → IsReduced a b
    → IsUntouched a p q
    → IsUntouched b q r
    → IsUntouched a p r
IsUntouched-trans none none p q r d g h = h ∙ g
IsUntouched-trans none (some b) p q r d g h = absurd d
IsUntouched-trans (some a) b p q r d g h = tt

module _ {F : Type 0} ⦃fl : Floating F⦄ (x : Setup F) where
  -- What a call may do while the kill switch is active.
  pub record IsFrozen (s : Engine F) (r : Outcome F × Engine F) : Type 0 where
    pub reduced : IsReduced s.position r.1.position
    pub sells : OnlySells r.0
    pub untouched : IsUntouched s.position s.portfolio r.1.portfolio

  decide-IsFrozen :
      (t : Tick F) (s : Engine F) → s.kill_switch.active ≡ true → IsFrozen s (decide x t s)
  unfolding decide verdict_of evaluate mark count_rejection
  decide-IsFrozen t s a =
      ground (arith, IsReduced-refl s.position, IsUntouched-refl s.position s.portfolio)

  after_exits-IsFrozen :
      (t : Tick F) (s : Engine F) (o : Option (PaperPosition F))
      → s.position ≡ o
      → s.kill_switch.active ≡ true
      → IsFrozen s (after_exits x t (check_position x t.price t.timestamp_ms s o))
  unfolding after_exits check_position trailed
  after_exits-IsFrozen t s none e a = decide-IsFrozen t s a
  after_exits-IsFrozen t s (some old) e a =
      let pos = trailed x t.price s old in
      elim (Bool-cases (is_exit (exit_of t.price pos))) [
        | inl gone ↦ rw gone (record {
          reduced = unfold close_position in tt;
          sells = unfold close_position in refl;
          untouched = rw e tt;
        })
        | inr kept ↦
            let held = record s { position = some pos } in
            let f = decide-IsFrozen t held a in
            rw (kept, after_exits)
              (record {
                reduced = rw e (
                    IsReduced-trans (some old) (some pos) (decide x t held).1.position
                      (refl, refl, refl, refl) f.reduced);
                sells = f.sells;
                untouched = rw e tt;
              })
      ]

  on_price-IsFrozen :
      (t : Tick F) (s : Engine F) → s.kill_switch.active ≡ true → IsFrozen s (on_price x t s)
  unfolding on_price start_tick
  on_price-IsFrozen t s a = elim (Bool-cases (is_late s.last_timestamp_ms t.timestamp_ms)) [
    | inl late ↦ rw late (record {
      reduced = IsReduced-refl s.position;
      sells = tt;
      untouched = IsUntouched-refl s.position s.portfolio;
    })
    | inr in_order ↦
        let s' = start_tick x t s in
        let f = after_exits-IsFrozen t s' s'.position refl a in
        rw in_order (record { reduced = f.reduced; sells = f.sells; untouched = f.untouched })
  ]

  run-IsReduced :
      (ts : List (Tick F)) (s : Engine F)
      → s.kill_switch.active ≡ true
      → IsReduced s.position (run x ts s).position
        × IsUntouched s.position s.portfolio (run x ts s).portfolio
  unfolding run
  run-IsReduced [] s a = (IsReduced-refl s.position, IsUntouched-refl s.position s.portfolio)
  run-IsReduced (t ∷ ts) s a =
      let mid = (on_price x t s).1 in
      let end = run x ts mid in
      let one = on_price-IsFrozen t s a in
      let active = ap (λ k. k.active) (on_price-Advances x t s).switch_same ∙ a in
      let rest = run-IsReduced ts mid active in
      (
        IsReduced-trans s.position mid.position end.position one.reduced rest.0,
        IsUntouched-trans s.position mid.position s.portfolio mid.portfolio end.portfolio
            one.reduced one.untouched rest.1,
      )

  -- While the kill switch is active, any sequence of calls leaves the open position as it was, its stop
  -- and highest price aside, or closes it, and opens none; with no position the account does
  -- not change; and a call after them that fills a trade sells.
  pub run-frozen :
      (ts : List (Tick F)) (t : Tick F) (s : Engine F)
      → s.kill_switch.active ≡ true
      → IsReduced s.position (run x ts s).position
        × IsUntouched s.position s.portfolio (run x ts s).portfolio
        × OnlySells (on_price x t (run x ts s)).0
  run-frozen ts t s a =
      let r = run-IsReduced ts s a in
      let active = ap (λ k. k.active) (run-Advances x ts s).switch_same ∙ a in
      (r.0, r.1, (on_price-IsFrozen t (run x ts s) active).sells)
