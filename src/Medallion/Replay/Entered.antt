-- ===== src/Medallion/Replay/Entered.antt =====
-- No trade of a whole replay is entered before its signal (src/infrastructure/medallion/replay.py: `run`).
use self_evaluating_trading.Common.{ℕ, suc, ◌^◌, refl, Option, none, some, List, [], ◌∷◌, All}
use self_evaluating_trading.Floating.{Floating}
use self_evaluating_trading.Medallion.Replay.{
  CandleRow, DecisionProvider, ReplayTrade, ReplayScenario, Position, PendingExit, TradeRecord,
  EngineState, Step, running, broken,
}
use self_evaluating_trading.Medallion.Replay.Engine.{advance}
use self_evaluating_trading.Medallion.Replay.Run.{
  ReplayResult, completed, failed, fill_edge_at, fill_edge, close_last, wind_up, run_trades,
  zip_atr, new_engine, result_of, run_from, run,
}
use self_evaluating_trading.Medallion.Replay.Timely.{
  IsEntered, IsHeld, IsTimely, Keeps, finish-IsTimely,
}
use self_evaluating_trading.Medallion.Replay.Rounds.{
  IsPrompt, IsIdle, then_step-Keeps, advance_over-IsTimely, idle-IsTimely, on_trade-Keeps,
}

module _ {F : Type 0} ⦃fl : Floating F⦄ (scenario : ReplayScenario F)
    (provider : DecisionProvider F) (ctx_1h ctx_4h : List (CandleRow F)) where
  fill_edge_at-Keeps :
      (s : EngineState F) (p : PendingExit F) (pos : Position F) (o : Option ℕ)
      → IsEntered pos
      → IsTimely 0 s
      → Keeps (IsTimely 0) (fill_edge_at scenario provider ctx_1h ctx_4h s p pos o)
  unfolding fill_edge_at Keeps
  fill_edge_at-Keeps s p pos none h w = tt
  fill_edge_at-Keeps s p pos (some i) h w =
      finish-IsTimely scenario 0 pos p p.trigger_ts i p.trigger_price s h w

  fill_edge-Keeps :
      (s : EngineState F) (p : Option (PendingExit F)) (o : Option (Position F))
      → IsHeld o
      → IsTimely 0 s
      → Keeps (IsTimely 0) (fill_edge scenario provider ctx_1h ctx_4h s p o)
  unfolding fill_edge Keeps
  fill_edge-Keeps s none o h w = w
  fill_edge-Keeps s (some p) none h w = tt
  fill_edge-Keeps s (some p) (some pos) h w = fill_edge_at-Keeps s p pos p.trigger_trade_index h w

  close_last-Keeps :
      (last : Option (ReplayTrade F × ℕ)) (s : EngineState F) (o : Option (Position F))
      → IsHeld o
      → IsTimely 0 s
      → Keeps (IsTimely 0) (close_last scenario provider ctx_1h ctx_4h last s o)
  unfolding close_last Keeps
  close_last-Keeps last s none h w = w
  close_last-Keeps none s (some pos) h w = tt
  close_last-Keeps (some (t, i)) s (some pos) h w =
      finish-IsTimely scenario 0 pos _ t.ts i t.price s h w

  wind_up-Keeps :
      (prompt : IsPrompt provider) (last : Option (ReplayTrade F × ℕ)) (s : EngineState F)
      → IsIdle s
      → Keeps (IsTimely 0) (wind_up scenario provider ctx_1h ctx_4h last s)
  unfolding wind_up advance
  wind_up-Keeps prompt last s w =
      let (h, rs, q) =
        advance_over-IsTimely scenario provider ctx_1h ctx_4h prompt s.ahead (2 ^ 62) s
          (idle-IsTimely scenario provider ctx_1h ctx_4h (2 ^ 62) s w) in
      then_step-Keeps (IsTimely 0) (IsTimely 0) _ _ (fill_edge-Keeps _ _ _ h (h, rs, tt))
        (λ r v. close_last-Keeps last r r.position v.0 v)

  run_trades-Keeps :
      (prompt : IsPrompt provider) (ts : List (ReplayTrade F)) (i : ℕ)
      (last : Option (ReplayTrade F × ℕ)) (s : EngineState F)
      → IsIdle s
      → Keeps (IsTimely 0) (run_trades scenario provider ctx_1h ctx_4h ts i last s)
  unfolding run_trades
  run_trades-Keeps prompt [] i last s w = wind_up-Keeps prompt last s w
  run_trades-Keeps prompt (t ∷ ts) i last s w =
      then_step-Keeps IsIdle (IsTimely 0) _ _
        (on_trade-Keeps scenario provider ctx_1h ctx_4h prompt t i s w)
        (λ r q. run_trades-Keeps prompt ts (suc i) (some (t, i)) r q)

  -- The records of a run that completes.
  abbrev pub AllRecords : (TradeRecord F → Type 0) → ReplayResult F → Type 0
  AllRecords P (completed s) = All P s.records
  AllRecords P (failed e) = Unit

  result_of-AllRecords :
      (st : Step F)
      → Keeps (IsTimely 0) st
      → AllRecords (λ r. IsEntered r.position) (result_of scenario provider ctx_1h ctx_4h st)
  unfolding Keeps
  result_of-AllRecords (running s) h = h.1
  result_of-AllRecords (broken e) h = tt

  run_from-AllRecords :
      (prompt : IsPrompt provider) (candles : List (CandleRow F)) (trades : List (ReplayTrade F))
      (o : Option (List (Option F)))
      → AllRecords
          (λ r. IsEntered r.position)
          (run_from scenario provider ctx_1h ctx_4h candles trades o)
  unfolding run_from new_engine
  run_from-AllRecords prompt candles trades none = tt
  run_from-AllRecords prompt candles trades (some atrs) =
      let s : EngineState F =
        new_engine scenario provider ctx_1h ctx_4h
          (zip_atr scenario provider ctx_1h ctx_4h candles atrs) in
      result_of-AllRecords _ (run_trades-Keeps prompt trades 0 none s ((tt, tt, tt), refl))

  -- No look-ahead at an entry: if the provider signs no decision with a time after the one it was asked at, then in a
  -- run that completes every closed trade was filled at its signal's time or after it, whatever candles and trades
  -- there are, out of order ones included.
  pub run-AllRecords :
      (prompt : IsPrompt provider) (candles : List (CandleRow F)) (trades : List (ReplayTrade F))
      → AllRecords (λ r. IsEntered r.position) (run scenario provider ctx_1h ctx_4h candles trades)
  unfolding run
  run-AllRecords prompt candles trades = run_from-AllRecords prompt candles trades _
