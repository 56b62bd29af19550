-- ===== src/Medallion/Replay/Complete.antt =====
-- What a whole run of the replay shows (src/infrastructure/medallion/replay.py: `run`).
use self_evaluating_trading.Common.{
  ℕ, suc, ◌^◌, ◌≡◌, refl, sym, subst, true, false, Option, none, some, is_some, List, [], ◌∷◌,
  arith,
}
use self_evaluating_trading.Floating.{Floating}
use self_evaluating_trading.Medallion.Replay.{
  CandleRow, DecisionProvider, ReplayTrade, ReplayScenario, Position, PendingExit, EngineState,
  Step, running, broken,
}
use self_evaluating_trading.Medallion.Replay.Engine.{advance}
use self_evaluating_trading.Medallion.Replay.Trades.{finish}
use self_evaluating_trading.Medallion.Replay.Run.{
  ReplayResult, completed, failed, on_trade, fill_edge_at, fill_edge, close_last, wind_up,
  run_trades, zip_atr, new_engine, result_of, run_from, run,
}
use self_evaluating_trading.Medallion.Replay.Accounted.{
  IsPaired, IsBalanced, is_internal, Leaves, finish-IsBalanced,
}
use self_evaluating_trading.Medallion.Replay.Waiting.{
  IsWaiting, IsKnown, then_step-Leaves, known, running-Leaves, advance_over-IsWaiting,
  fill_pending-Leaves, drain_over-Leaves, risk_eval-IsWaiting,
}

module _ {F : Type 0} ⦃fl : Floating F⦄ (scenario : ReplayScenario F)
    (provider : DecisionProvider F) (ctx_1h ctx_4h : List (CandleRow F)) where
  on_trade-Leaves :
      (t : ReplayTrade F) (i : ℕ) (s : EngineState F) (last : Option (ReplayTrade F × ℕ))
      → IsWaiting s
      → IsKnown last s.position
      → Leaves IsWaiting (on_trade scenario provider ctx_1h ctx_4h t i s)
  unfolding on_trade advance
  on_trade-Leaves t i s last w k =
      let a = advance scenario provider ctx_1h ctx_4h t.ts s in
      let (v, l) = advance_over-IsWaiting scenario provider ctx_1h ctx_4h s.ahead t.ts s last w k in
      then_step-Leaves IsWaiting IsWaiting _ _
        (then_step-Leaves IsWaiting IsWaiting _ _
          (fill_pending-Leaves scenario provider ctx_1h ctx_4h t i a a.pending a.position v.paired
            v)
          (λ f q. drain_over-Leaves scenario provider ctx_1h ctx_4h f.queue t i f q))
        (λ r q.
          running-Leaves _
            (risk_eval-IsWaiting scenario provider ctx_1h ctx_4h t i r r.position refl q))

  fill_edge_at-Leaves :
      (s : EngineState F) (p : PendingExit F) (pos : Position F) (o : Option ℕ)
      (last : Option (ReplayTrade F × ℕ))
      → is_some o ≡ true
      → IsBalanced 0 s
      → Leaves
          (λ r. IsBalanced 0 r × IsKnown last r.position)
          (fill_edge_at scenario provider ctx_1h ctx_4h s p pos o)
  unfolding fill_edge_at Leaves finish
  fill_edge_at-Leaves s p pos none last h b = absurd (ground arith)
  fill_edge_at-Leaves s p pos (some i) last h b =
      (finish-IsBalanced scenario 0 pos p p.trigger_ts i p.trigger_price s b, tt)

  -- At the end nothing waits.
  fill_edge-Leaves :
      (s : EngineState F) (p : Option (PendingExit F)) (o : Option (Position F))
      (last : Option (ReplayTrade F × ℕ))
      → s.position ≡ o
      → IsPaired o p
      → IsKnown last o
      → IsBalanced 0 s
      → Leaves
          (λ r. IsBalanced 0 r × IsKnown last r.position)
          (fill_edge scenario provider ctx_1h ctx_4h s p o)
  unfolding fill_edge Leaves
  fill_edge-Leaves s none o last e h k b = (b, subst (IsKnown last) (sym e) k)
  fill_edge-Leaves s (some p) none last e h k b = absurd h
  fill_edge-Leaves s (some p) (some pos) last e h k b =
      fill_edge_at-Leaves s p pos p.trigger_trade_index last h b

  close_last-Leaves :
      (last : Option (ReplayTrade F × ℕ)) (s : EngineState F) (o : Option (Position F))
      → IsKnown last o
      → IsBalanced 0 s
      → Leaves (IsBalanced 0) (close_last scenario provider ctx_1h ctx_4h last s o)
  unfolding close_last Leaves
  close_last-Leaves last s none k b = b
  close_last-Leaves none s (some pos) k b = absurd k
  close_last-Leaves (some (t, i)) s (some pos) k b =
      finish-IsBalanced scenario 0 pos _ t.ts i t.price s b

  wind_up-Leaves :
      (last : Option (ReplayTrade F × ℕ)) (s : EngineState F)
      → IsWaiting s
      → IsKnown last s.position
      → Leaves (IsBalanced 0) (wind_up scenario provider ctx_1h ctx_4h last s)
  unfolding wind_up advance
  wind_up-Leaves last s w k =
      let (v, l) =
        advance_over-IsWaiting scenario provider ctx_1h ctx_4h s.ahead (2 ^ 62) s last w k in
      then_step-Leaves (λ r. IsBalanced 0 r × IsKnown last r.position) (IsBalanced 0) _ _
        (fill_edge-Leaves _ _ _ last refl v.paired l
          (record { counted = omega (arith, v.counted); recorded = v.recorded; paired = v.paired }))
        (λ r q. close_last-Leaves last r r.position q.1 q.0)

  run_trades-Leaves :
      (ts : List (ReplayTrade F)) (i : ℕ) (last : Option (ReplayTrade F × ℕ)) (s : EngineState F)
      → IsWaiting s
      → IsKnown last s.position
      → Leaves (IsBalanced 0) (run_trades scenario provider ctx_1h ctx_4h ts i last s)
  unfolding run_trades
  run_trades-Leaves [] i last s w k = wind_up-Leaves last s w k
  run_trades-Leaves (t ∷ ts) i last s w k =
      then_step-Leaves IsWaiting (IsBalanced 0) _ _ (on_trade-Leaves t i s last w k)
        (λ r q. run_trades-Leaves ts (suc i) (some (t, i)) r q (known (t, i) r.position))

  -- The counters of a completed run add up, with nothing left over, and an exception is none of those that name
  -- a broken invariant.
  abbrev pub IsAccounted : ReplayResult F → Type 0
  IsAccounted (completed s) = IsBalanced 0 s
  IsAccounted (failed e) = is_internal e ≡ false

  result_of-IsAccounted :
      (st : Step F)
      → Leaves (IsBalanced 0) st
      → IsAccounted (result_of scenario provider ctx_1h ctx_4h st)
  unfolding Leaves
  result_of-IsAccounted (running s) p = p
  result_of-IsAccounted (broken e) p = p

  run_from-IsAccounted :
      (candles : List (CandleRow F)) (trades : List (ReplayTrade F)) (o : Option (List (Option F)))
      → IsAccounted (run_from scenario provider ctx_1h ctx_4h candles trades o)
  unfolding run_from new_engine
  run_from-IsAccounted candles trades none = refl
  run_from-IsAccounted candles trades (some atrs) =
      let s : EngineState F =
        new_engine scenario provider ctx_1h ctx_4h
          (zip_atr scenario provider ctx_1h ctx_4h candles atrs) in
      result_of-IsAccounted _ (
        run_trades-Leaves trades 0 none s (record { counted = refl; recorded = refl; paired = tt })
          tt)

  -- Every replay is accounted for, whatever candles, trades and answers of the provider there are: a run that
  -- completes has as many decisions as were filled, dropped, rejected and left unfilled together, and one record for
  -- each closing; and a run never raises one of the errors that name a broken invariant: a pending exit without
  -- a position or without its trade, or an open position without trades.
  pub run-IsAccounted :
      (candles : List (CandleRow F)) (trades : List (ReplayTrade F))
      → IsAccounted (run scenario provider ctx_1h ctx_4h candles trades)
  unfolding run
  run-IsAccounted candles trades = run_from-IsAccounted candles trades _
