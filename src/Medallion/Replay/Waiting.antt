-- ===== src/Medallion/Replay/Waiting.antt =====
-- The decisions that wait, through each part of the loop (src/infrastructure/medallion/replay.py).
use self_evaluating_trading.Common.{
  ℕ, ◌+◌, ◌≡◌, refl, sym, subst, Bool, true, false, ltb, leb, Option, none, some, is_some, List, [],
  ◌∷◌, length, length-append, arith, if◌then◌else◌, Bool-cases, inl, inr,
}
use self_evaluating_trading.Floating.{Floating}
use self_evaluating_trading.Medallion.Replay.{
  CandleRow, Decision, DecisionProvider, ReplayTrade, ReplayScenario, Position, PendingExit,
  EngineState, Step, running, broken,
}
use self_evaluating_trading.Medallion.Replay.Engine.{
  is_dynamic, push, count_decision, with_atr, see_candle, advance_over,
}
use self_evaluating_trading.Medallion.Replay.Trades.{settle, roll_day, finish, take_decision}
use self_evaluating_trading.Medallion.Replay.Run.{then_step, fill_pending, drain_over, risk_eval}
use self_evaluating_trading.Medallion.Replay.Accounted.{
  IsPaired, IsBalanced, Leaves, finish-IsBalanced, take_decision-Leaves,
}

module _ {F : Type 0} where
  -- The counters add up with the queue.
  abbrev pub IsWaiting : EngineState F → Type 0
  IsWaiting s = IsBalanced (length s.queue) s

  -- A position is only open after a trade.
  abbrev pub IsKnown : Option (ReplayTrade F × ℕ) → Option (Position F) → Type 0
  IsKnown last none = Unit
  IsKnown none (some pos) = ⊥
  IsKnown (some t) (some pos) = Unit

  pub then_step-Leaves :
      (P Q : EngineState F → Type 0) (f : EngineState F → Step F) (st : Step F)
      → Leaves P st
      → ((s : EngineState F) → P s → Leaves Q (f s))
      → Leaves Q (then_step f st)
  unfolding then_step Leaves
  then_step-Leaves P Q f (running s) p k = k s p
  then_step-Leaves P Q f (broken e) p k = p

  pub running-Leaves : (s : EngineState F) → IsWaiting s → Leaves IsWaiting (running s)
  unfolding Leaves
  running-Leaves s w = w

  count_decision-push :
      (o : Option (Decision F)) (n m : ℕ) (q : List (Decision F))
      → n ≡ m + length q
      → count_decision n o ≡ m + length (push q o)
  count_decision-push none n m q h = h
  count_decision-push (some d) n m q h = omega (arith, h, length-append q (d ∷ []))

  with_atr-IsPaired :
      (b : Bool) (a : Option F) (o : Option (Position F)) (p : Option (PendingExit F))
      → IsPaired o p
      → IsPaired (with_atr b a o) p
  with_atr-IsPaired true (some a) (some pos) none h = tt
  with_atr-IsPaired true (some a) (some pos) (some p) h = h
  with_atr-IsPaired true (some a) none p h = h
  with_atr-IsPaired true none o p h = h
  with_atr-IsPaired false a o p h = h

  with_atr-IsKnown :
      (b : Bool) (a : Option F) (o : Option (Position F)) (last : Option (ReplayTrade F × ℕ))
      → IsKnown last o
      → IsKnown last (with_atr b a o)
  with_atr-IsKnown true (some a) (some pos) none h = h
  with_atr-IsKnown true (some a) (some pos) (some t) h = h
  with_atr-IsKnown true (some a) none last h = h
  with_atr-IsKnown true none o last h = h
  with_atr-IsKnown false a o last h = h

  pub known : (t : ReplayTrade F × ℕ) (o : Option (Position F)) → IsKnown (some t) o
  known t none = tt
  known t (some pos) = tt

  either :
      (b : Bool) (x y : EngineState F) → IsWaiting x → IsWaiting y → IsWaiting (if b then x else y)
  either true x y p q = p
  either false x y p q = q

  moved-IsWaiting :
      (old pos : Position F) (s : EngineState F)
      → s.position ≡ some old
      → IsWaiting s
      → IsWaiting (record s { position = some pos })
  moved-IsWaiting old pos s e w = record {
    counted = w.counted;
    recorded = w.recorded;
    paired = same_pair s.pending (subst (λ o. IsPaired o s.pending) e w.paired);
  }
    where
      same_pair : (p : Option (PendingExit F)) → IsPaired (some old) p → IsPaired (some pos) p
      same_pair none h = tt
      same_pair (some p) h = h

  pends-IsWaiting :
      (pos : Position F) (p : PendingExit F) (s : EngineState F)
      → is_some p.trigger_trade_index ≡ true
      → IsWaiting s
      → IsWaiting (record s { position = some pos; pending = some p })
  pends-IsWaiting pos p s h w = record { counted = w.counted; recorded = w.recorded; paired = h }

module _ {F : Type 0} ⦃fl : Floating F⦄ (scenario : ReplayScenario F)
    (provider : DecisionProvider F) (ctx_1h ctx_4h : List (CandleRow F)) where
  see_candle-IsWaiting :
      (c : CandleRow F) (a : Option F) (s : EngineState F) (last : Option (ReplayTrade F × ℕ))
      → IsWaiting s
      → IsKnown last s.position
      → let r = see_candle scenario provider ctx_1h ctx_4h c a s in
        IsWaiting r × IsKnown last r.position
  unfolding see_candle
  see_candle-IsWaiting c a s last w k =
      let b = is_dynamic scenario.sizing_mode in
      (
        record {
          counted = count_decision-push _ (s.stats).decisions_total _ s.queue w.counted;
          recorded = w.recorded;
          paired = with_atr-IsPaired b a s.position s.pending w.paired;
        },
        with_atr-IsKnown b a s.position last k,
      )

  pub advance_over-IsWaiting :
      (cs : List (CandleRow F × Option F)) (cutoff : ℕ) (s : EngineState F)
      (last : Option (ReplayTrade F × ℕ))
      → IsWaiting s
      → IsKnown last s.position
      → let r = advance_over scenario provider ctx_1h ctx_4h cs cutoff s in
        IsWaiting r × IsKnown last r.position
  unfolding advance_over
  advance_over-IsWaiting [] cutoff s last w k =
      (record { counted = w.counted; recorded = w.recorded; paired = w.paired }, k)
  advance_over-IsWaiting ((c, a) ∷ cs) cutoff s last w k =
      let r = see_candle scenario provider ctx_1h ctx_4h c a s in
      elim (Bool-cases (ltb cutoff c.close_time)) [
        | inl later ↦
            rw later (record { counted = w.counted; recorded = w.recorded; paired = w.paired }, k)
        | inr seen ↦
            let (v, l) = see_candle-IsWaiting c a s last w k in
            rw seen (advance_over-IsWaiting cs cutoff r last v l)
      ]

  settle_queue :
      (b : Bool) (ts : ℕ) (net : F) (s : EngineState F)
      → (settle scenario b ts net s).queue ≡ s.queue
  unfolding settle roll_day
  settle_queue false ts net s = refl
  settle_queue true ts net s = refl

  finish-IsWaiting :
      (pos : Position F) (p : PendingExit F) (ts i : ℕ) (price : F) (s : EngineState F)
      → IsWaiting s
      → IsWaiting (finish scenario pos p ts i price s)
  unfolding finish
  finish-IsWaiting pos p ts i price s w =
      let same = settle_queue (is_dynamic scenario.sizing_mode) ts _ _ in
      subst (λ q. IsBalanced (length q) (finish scenario pos p ts i price s)) (sym same)
        (finish-IsBalanced scenario (length s.queue) pos p ts i price s w)

  pub fill_pending-Leaves :
      (t : ReplayTrade F) (i : ℕ) (s : EngineState F) (p : Option (PendingExit F))
      (o : Option (Position F))
      → IsPaired o p
      → IsWaiting s
      → Leaves IsWaiting (fill_pending scenario provider ctx_1h ctx_4h t i s p o)
  unfolding fill_pending Leaves
  fill_pending-Leaves t i s none o h w = w
  fill_pending-Leaves t i s (some p) none h w = absurd h
  fill_pending-Leaves t i s (some p) (some pos) h w = finish-IsWaiting pos p t.ts i t.price s w

  pub drain_over-Leaves :
      (ds : List (Decision F)) (t : ReplayTrade F) (i : ℕ) (s : EngineState F)
      → IsBalanced (length ds) s
      → Leaves IsWaiting (drain_over scenario provider ctx_1h ctx_4h ds t i s)
  unfolding drain_over Leaves
  drain_over-Leaves [] t i s b = record {
    counted = b.counted;
    recorded = b.recorded;
    paired = b.paired;
  }
  drain_over-Leaves (d ∷ ds) t i s b =
      then_step-Leaves (IsBalanced (length ds)) IsWaiting _ (take_decision scenario d t i s)
        (take_decision-Leaves scenario (length ds) d t i s b) (λ r q. drain_over-Leaves ds t i r q)

  pub risk_eval-IsWaiting :
      (t : ReplayTrade F) (i : ℕ) (s : EngineState F) (o : Option (Position F))
      → s.position ≡ o
      → IsWaiting s
      → IsWaiting (risk_eval scenario provider ctx_1h ctx_4h t i s o)
  unfolding risk_eval
  risk_eval-IsWaiting t i s none e w = w
  risk_eval-IsWaiting t i s (some old) e w = either (leb t.ts old.entry_fill_ts) s _ w (
      either (fl.le t.price _) _ _ (pends-IsWaiting _ _ s refl w)
        (either (fl.le _ t.price) _ _ (pends-IsWaiting _ _ s refl w) (moved-IsWaiting old _ s e w)))
