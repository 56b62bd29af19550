-- ===== src/Medallion/Replay/Rounds.antt =====
-- Entries and signals through one round of the loop (src/infrastructure/medallion/replay.py).
use self_evaluating_trading.Common.{
  ℕ, ◌≡◌, ◌≤◌, refl, sym, subst, Bool, true, false, ltb, leb, Option, none, some, List, [], ◌∷◌,
  All, All-append, arith, if◌then◌else◌, Bool-cases, inl, inr,
}
use self_evaluating_trading.Floating.{Floating}
use self_evaluating_trading.Medallion.Replay.{
  CandleRow, ContextSnapshot, Decision, DecisionProvider, ReplayTrade, ReplayScenario, Position,
  PendingExit, EngineState, Step, running, broken,
}
use self_evaluating_trading.Medallion.Replay.Engine.{
  is_dynamic, push, with_atr, see_candle, advance_over, advance,
}
use self_evaluating_trading.Medallion.Replay.Trades.{take_decision, update_path}
use self_evaluating_trading.Medallion.Replay.Run.{
  then_step, fill_pending, drain_over, raise_trailing, risk_eval, on_trade,
}
use self_evaluating_trading.Medallion.Replay.Timely.{
  IsEntered, IsHeld, IsTimely, Keeps, finish-IsTimely, take_decision-Keeps,
}

any_branch : {A : Type 0} (P : A → Type 0) (b : Bool) (x y : A) → P x → P y → P (if b then x else y)
any_branch P true x y p q = p
any_branch P false x y p q = q

module _ {F : Type 0} where
  -- The provider signs its decisions with a time that is not after the one it was asked at.
  abbrev pub IsPrompt : DecisionProvider F → Type 0
  IsPrompt provider =
      (i ts : ℕ) (price : F) (a : Option F) (x : ContextSnapshot F) (d : Decision F)
      → provider.decide i ts price a x ≡ some d
      → d.signal_ts ≤ ts

  -- Between two trades: nothing waits.
  abbrev pub IsIdle : EngineState F → Type 0
  IsIdle s = IsTimely 0 s × (s.queue ≡ [])

  pub then_step-Keeps :
      (P Q : EngineState F → Type 0) (f : EngineState F → Step F) (st : Step F)
      → Keeps P st
      → ((s : EngineState F) → P s → Keeps Q (f s))
      → Keeps Q (then_step f st)
  unfolding then_step Keeps
  then_step-Keeps P Q f (running s) p k = k s p
  then_step-Keeps P Q f (broken e) p k = tt

  running-Keeps : (P : EngineState F → Type 0) (s : EngineState F) → P s → Keeps P (running s)
  unfolding Keeps
  running-Keeps P s p = p

  push_before :
      (c : ℕ) (q : List (Decision F)) (o : Option (Decision F))
      → ((d : Decision F) → o ≡ some d → d.signal_ts ≤ c)
      → All (λ (d : Decision F). d.signal_ts ≤ c) q
      → All (λ (d : Decision F). d.signal_ts ≤ c) (push q o)
  push_before c q none h w = w
  push_before c q (some d) h w = All-append _ q (d ∷ []) w (h d refl, tt)

  with_atr-IsHeld :
      (b : Bool) (a : Option F) (o : Option (Position F)) → IsHeld o → IsHeld (with_atr b a o)
  with_atr-IsHeld true (some a) (some pos) h = h
  with_atr-IsHeld true (some a) none h = h
  with_atr-IsHeld true none o h = h
  with_atr-IsHeld false a o h = h

module _ {F : Type 0} ⦃fl : Floating F⦄ (scenario : ReplayScenario F)
    (provider : DecisionProvider F) (ctx_1h ctx_4h : List (CandleRow F)) where
  see_candle-IsTimely :
      (prompt : IsPrompt provider) (cutoff : ℕ) (c : CandleRow F) (a : Option F) (s : EngineState F)
      → c.close_time ≤ cutoff
      → IsTimely cutoff s
      → IsTimely cutoff (see_candle scenario provider ctx_1h ctx_4h c a s)
  unfolding see_candle
  see_candle-IsTimely prompt cutoff c a s l (h, rs, q) = (
    with_atr-IsHeld (is_dynamic scenario.sizing_mode) a s.position h,
    rs,
    push_before cutoff s.queue _
        (λ d e. let m = prompt s.candle_i c.close_time c.close a _ d e in omega (arith, m, l)) q,
  )

  pub advance_over-IsTimely :
      (prompt : IsPrompt provider) (cs : List (CandleRow F × Option F)) (cutoff : ℕ)
      (s : EngineState F)
      → IsTimely cutoff s
      → IsTimely cutoff (advance_over scenario provider ctx_1h ctx_4h cs cutoff s)
  unfolding advance_over
  advance_over-IsTimely prompt [] cutoff s w = w
  advance_over-IsTimely prompt ((c, a) ∷ cs) cutoff s w =
      elim (Bool-cases (ltb cutoff c.close_time)) [
        | inl later ↦ rw later w
        | inr seen ↦ rw seen (
            advance_over-IsTimely prompt cs cutoff
              (see_candle scenario provider ctx_1h ctx_4h c a s)
              (see_candle-IsTimely prompt cutoff c a s (ground arith) w))
      ]

  pub idle-IsTimely : (c : ℕ) (s : EngineState F) → IsIdle s → IsTimely c s
  idle-IsTimely c s ((h, rs, q), e) =
      (h, rs, subst (All (λ (d : Decision F). d.signal_ts ≤ c)) (sym e) tt)

  fill_pending-Keeps :
      (c : ℕ) (t : ReplayTrade F) (i : ℕ) (s : EngineState F) (p : Option (PendingExit F))
      (o : Option (Position F))
      → IsHeld o
      → IsTimely c s
      → Keeps (IsTimely c) (fill_pending scenario provider ctx_1h ctx_4h t i s p o)
  unfolding fill_pending Keeps
  fill_pending-Keeps c t i s none o h w = w
  fill_pending-Keeps c t i s (some p) none h w = tt
  fill_pending-Keeps c t i s (some p) (some pos) h w =
      finish-IsTimely scenario c pos p t.ts i t.price s h w

  drain_over-Keeps :
      (c : ℕ) (ds : List (Decision F)) (t : ReplayTrade F) (i : ℕ) (s : EngineState F)
      → All (λ (d : Decision F). d.signal_ts ≤ t.ts) ds
      → IsTimely c s
      → Keeps IsIdle (drain_over scenario provider ctx_1h ctx_4h ds t i s)
  unfolding drain_over
  drain_over-Keeps c [] t i s b (h, rs, q) = running-Keeps IsIdle _ ((h, rs, tt), refl)
  drain_over-Keeps c (d ∷ ds) t i s (b, bs) w =
      then_step-Keeps (IsTimely c) IsIdle _ (take_decision scenario d t i s)
        (take_decision-Keeps scenario c d t i s b w) (λ r q. drain_over-Keeps c ds t i r bs q)

  raise_trailing-IsEntered :
      (pos : Position F)
      → IsEntered pos
      → IsEntered (raise_trailing scenario provider ctx_1h ctx_4h pos)
  unfolding raise_trailing
  raise_trailing-IsEntered pos h = any_branch IsEntered (fl.lt pos.trailing _) _ pos h h

  risk_eval-IsIdle :
      (t : ReplayTrade F) (i : ℕ) (s : EngineState F) (o : Option (Position F))
      → IsHeld o
      → IsIdle s
      → IsIdle (risk_eval scenario provider ctx_1h ctx_4h t i s o)
  unfolding risk_eval update_path
  risk_eval-IsIdle t i s none h w = w
  risk_eval-IsIdle t i s (some old) h ((g, rs, q), e) =
      any_branch IsIdle (leb t.ts old.entry_fill_ts) s _ ((g, rs, q), e)
        (any_branch IsIdle (fl.le t.price _) _ _ ((h, rs, q), e)
          (any_branch IsIdle (fl.le _ t.price) _ _ ((h, rs, q), e)
            ((raise_trailing-IsEntered _ h, rs, q), e)))

  pub on_trade-Keeps :
      (prompt : IsPrompt provider) (t : ReplayTrade F) (i : ℕ) (s : EngineState F)
      → IsIdle s
      → Keeps IsIdle (on_trade scenario provider ctx_1h ctx_4h t i s)
  unfolding on_trade advance
  on_trade-Keeps prompt t i s w =
      let a = advance_over scenario provider ctx_1h ctx_4h s.ahead t.ts s in
      let v = advance_over-IsTimely prompt s.ahead t.ts s (idle-IsTimely t.ts s w) in
      then_step-Keeps IsIdle IsIdle _ _
        (then_step-Keeps (IsTimely t.ts) IsIdle _ _
          (fill_pending-Keeps t.ts t i a a.pending a.position v.0 v)
          (λ f q. drain_over-Keeps t.ts f.queue t i f q.2 q))
        (λ r q. running-Keeps IsIdle _ (risk_eval-IsIdle t i r r.position q.0.0 q))
