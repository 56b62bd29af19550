-- ===== src/Runner/Restore/Switch.antt =====
-- The kill switch in the recovery of src/application/services/recovery.py and paper_runner.py.
use self_evaluating_trading.Common.{
  ◌≡◌, refl, ◌∙◌, ap, sym, subst, arith, Bool, true, Bool-cases, inl, inr, Option, none, some, List,
  [], ◌∷◌, map, String, All,
}
use mathlib.Core.Option.{some-injective}
use self_evaluating_trading.Floating.{Floating}
use self_evaluating_trading.Market.Candle.{Candle, Timeframe, label}
use self_evaluating_trading.Market.Indicators.{AtrTracker}
use self_evaluating_trading.Market.Regime.{MarketRegime}
use self_evaluating_trading.Confirmation.{Tracker}
use self_evaluating_trading.Strategy.{Signal}
use self_evaluating_trading.Risk.Guards.{KillSwitchState, StateDict}
use self_evaluating_trading.Paper.{Engine, Outcome, raised, done, mark}
use self_evaluating_trading.Paper.Clock.{on_price-Advances}
use self_evaluating_trading.Events.{PaperTradeEvent}
use self_evaluating_trading.Runner.{
  Runner, RunnerError, Processed, process, process_regime, process_atr, finish, event_of,
}
use self_evaluating_trading.Runner.Replay.{Store, replay, events_equivalent}
use self_evaluating_trading.Runner.Recovery.{is_persisted, has_equivalent, advanced, replay_step}
use self_evaluating_trading.Runner.Soundness.{replay-head_persisted}
use self_evaluating_trading.Runner.Restore.{
  Build, restore, replay_into, runner_with, validate_safe, switch_of, keyed, new_runner,
}

-- A persisted event is there, and carries the flag.
abbrev pub IsFlagged : {F : Type 0} → Bool → Option (PaperTradeEvent F) → Type 0
IsFlagged b none = ⊥
IsFlagged b (some e) = e.kill_switch_active ≡ b

abbrev CarriesFlag : {F : Type 0} → Bool → Processed F → Type 0
CarriesFlag b (Processed.event e) = e.kill_switch_active ≡ b
CarriesFlag b (Processed.failed e) = Unit

module _ {F : Type 0} ⦃fl : Floating F⦄ where
  -- What processing a candle does to the kill switch: nothing, and the event carries its flag.
  abbrev Keeps : KillSwitchState → Processed F × Runner F → Type 0
  Keeps k q = (q.1.engine.kill_switch ≡ k) × CarriesFlag k.active q.0

  finish-Keeps :
      (symbol tf : String) (c : Candle F) (sig : Signal) (a : Option F) (g : Option MarketRegime)
      (r : Runner F) (o : Outcome F × Engine F) (k : KillSwitchState)
      → o.1.kill_switch ≡ k
      → Keeps k (finish symbol tf c sig a g r o)
  unfolding finish mark event_of
  finish-Keeps symbol tf c sig a g r (raised f, eng) k h = (h, tt)
  finish-Keeps symbol tf c sig a g r (done e, eng) k h = (h, ap (λ s. s.active) h)

  process_atr-Keeps :
      (symbol tf : String) (c : Candle F) (sig : Signal) (g : Option MarketRegime) (r : Runner F)
      (o : Option (AtrTracker F))
      → Keeps r.engine.kill_switch (process_atr symbol tf c sig g r o)
  unfolding process_atr
  process_atr-Keeps symbol tf c sig g r none = (refl, tt)
  process_atr-Keeps symbol tf c sig g r (some tracker) =
      finish-Keeps symbol tf c sig _ g _ _ r.engine.kill_switch
        (on_price-Advances r.setup _ r.engine).switch_same

  process_regime-Keeps :
      (symbol tf : String) (c : Candle F) (g : Option MarketRegime) (r : Runner F)
      (o : Option Tracker)
      → Keeps r.engine.kill_switch (process_regime symbol tf c g r o)
  unfolding process_regime
  process_regime-Keeps symbol tf c g r none = (refl, tt)
  process_regime-Keeps symbol tf c g r (some tracker) = process_atr-Keeps symbol tf c _ g _ _

  process-Keeps :
      (symbol tf : String) (c : Candle F) (r : Runner F)
      → Keeps r.engine.kill_switch (process symbol tf c r)
  unfolding process
  process-Keeps symbol tf c r = process_regime-Keeps symbol tf c _ _ _

  equivalent_flag :
      (b : Bool) (p : Processed F) (o : Option (PaperTradeEvent F))
      → CarriesFlag b p
      → has_equivalent p o ≡ true
      → IsFlagged b o
  unfolding events_equivalent
  equivalent_flag b (Processed.event e) (some x) h g = ground arith
  equivalent_flag b (Processed.event e) none h g = ground arith
  equivalent_flag b (Processed.failed e) o h g = ground arith

  replay-IsFlagged :
      (persisted : Store F) (symbol tf : String) (candles : List (Candle F)) (r : Runner F)
      (b : Bool)
      → r.engine.kill_switch.active ≡ b
      → (replay (map (λ c. (symbol, tf, c)) candles) persisted r).0 ≡ none
      → All (λ c. IsFlagged b (persisted symbol tf c.timestamp_ms)) candles
  unfolding is_persisted
  replay-IsFlagged persisted symbol tf [] r b hb h = tt
  replay-IsFlagged persisted symbol tf (c ∷ cs) r b hb h =
      let rest = map (λ d. (symbol, tf, d)) cs in
      let head = replay-head_persisted persisted symbol tf c rest r h in
      let keeps = process-Keeps symbol tf c r in
      (
        equivalent_flag b _ _ (subst (λ x. CarriesFlag x (process symbol tf c r).0) hb keeps.1)
            head,
        replay-IsFlagged persisted symbol tf cs (advanced symbol tf c r) b
            (ap (λ k. k.active) keeps.0 ∙ hb)
            (sym (
                ap (λ (q : Option RunnerError × Runner F). q.0)
                  (replay_step persisted symbol tf c rest r head))
              ∙ h),
      )

  replay_into-IsFlagged :
      (persisted : Store F) (symbol tf : String) (candles : List (Candle F)) (flag : Bool)
      (o : Option (Runner F))
      → ((r : Runner F) → o ≡ some r → r.engine.kill_switch.active ≡ flag)
      → (replay_into (map (λ c. (symbol, tf, c)) candles) persisted o).0 ≡ none
      → All (λ c. IsFlagged flag (persisted symbol tf c.timestamp_ms)) candles
  unfolding replay_into
  replay_into-IsFlagged persisted symbol tf candles flag none k h = absurd (ground arith)
  replay_into-IsFlagged persisted symbol tf candles flag (some r) k h =
      replay-IsFlagged persisted symbol tf candles r flag (k r refl) h

  new_runner-active :
      (b : Build F) (k : KillSwitchState) (r : Runner F)
      → new_runner b k ≡ some r
      → r.engine.kill_switch.active ≡ k.active
  unfolding new_runner runner_with
  new_runner-active b k r = elim (Bool-cases (validate_safe b)) [
    | inl e ↦
        rw e (λ h. ap (λ (z : Runner F). z.engine.kill_switch.active) (sym (some-injective _ _ h)))
    | inr e ↦ rw e (λ h. absurd (cc))
  ]

  -- A restore that raises nothing shows that every candle has a persisted event, and that each of these
  -- events carries the flag of the kill switch that was restored: once the switch has been
  -- activated, a session with an event from before the activation is not restored.
  pub restore-IsFlagged :
      (b : Build F) (ks_data : Option StateDict) (symbol : String) (tf : Timeframe)
      (candles : List (Candle F)) (events : List (PaperTradeEvent F))
      → (restore b ks_data symbol tf candles events).0 ≡ none
      → All
          (λ c.
            IsFlagged (switch_of ks_data).active (keyed events symbol (label tf) c.timestamp_ms))
          candles
  unfolding restore
  restore-IsFlagged b ks_data symbol tf candles events h =
      replay_into-IsFlagged (keyed events) symbol (label tf) candles (switch_of ks_data).active
        (new_runner b (switch_of ks_data)) (new_runner-active b (switch_of ks_data)) h
