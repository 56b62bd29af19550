-- ===== src/Runner/Soundness.antt =====
-- What a replay that raises nothing shows of the persisted events, for
-- src/application/services/paper_runner.py.
use self_evaluating_trading.Common.{
  ◌≡◌, ◌∙◌, ap, sym, arith, true, Option, none, some, List, [], ◌∷◌, String, All,
}
use self_evaluating_trading.Floating.{Floating}
use self_evaluating_trading.Market.Candle.{Candle}
use self_evaluating_trading.Events.{PaperTradeEvent}
use self_evaluating_trading.Runner.{Runner, RunnerError, Processed, process}
use self_evaluating_trading.Runner.Replay.{
  Store, Input, replay, or_stop, check_processed, check_event,
}
use self_evaluating_trading.Runner.Recovery.{
  Entry, has_equivalent, is_persisted, advanced, replay_step,
}

module _ {F : Type 0} ⦃fl : Floating F⦄ where
  -- The candles that a replay processes, one after the other, with what they are processed to.
  unfoldable pub reprocess : List (Input F) → Runner F → List (Entry F)
  reprocess [] r = []
  reprocess ((symbol, tf, c) ∷ rest) r =
      ((symbol, tf, c), (process symbol tf c r).0) ∷ reprocess rest (advanced symbol tf c r)

  checked_none :
      (p : Processed F) (o : Option (PaperTradeEvent F)) (s : Runner F)
      (later : Option RunnerError × Runner F)
      → (or_stop (check_processed p o) s later).0 ≡ none
      → has_equivalent p o ≡ true
  unfolding or_stop check_processed check_event
  checked_none (Processed.event e) none s later h = ground arith
  checked_none (Processed.event e) (some x) s later h = ground arith
  checked_none (Processed.failed e) o s later h = ground arith

  pub replay-head_persisted :
      (persisted : Store F) (symbol tf : String) (c : Candle F) (rest : List (Input F))
      (r : Runner F)
      → (replay ((symbol, tf, c) ∷ rest) persisted r).0 ≡ none
      → is_persisted persisted ((symbol, tf, c), (process symbol tf c r).0) ≡ true
  unfolding replay is_persisted
  replay-head_persisted persisted symbol tf c rest r h = checked_none _ _ _ _ h

  -- If a replay raises nothing, then each of its candles is processed to an event, and the persisted
  -- event at that symbol, timeframe and timestamp is equivalent to it.
  pub replay_sound :
      (persisted : Store F) (inputs : List (Input F)) (r : Runner F)
      → (replay inputs persisted r).0 ≡ none
      → All (λ e. is_persisted persisted e ≡ true) (reprocess inputs r)
  unfolding reprocess
  replay_sound persisted [] r h = tt
  replay_sound persisted ((symbol, tf, c) ∷ rest) r h =
      let head = replay-head_persisted persisted symbol tf c rest r h in
      (
        head,
        replay_sound persisted rest (advanced symbol tf c r) (
            sym (
              ap (λ (q : Option RunnerError × Runner F). q.0)
                (replay_step persisted symbol tf c rest r head))
            ∙ h),
      )
