-- ===== src/Runner/Recovery.antt =====
-- A live session of src/application/services/paper_runner.py against its replay.
use self_evaluating_trading.Common.{
  ◌≡◌, refl, ◌∙◌, ap, sym, subst, arith, Bool, true, false, Option, none, some, List, [], ◌∷◌, ◌++◌,
  map, String, All,
}
use self_evaluating_trading.Floating.{Floating}
use self_evaluating_trading.Market.Candle.{Candle, Timeframe, label}
use self_evaluating_trading.Market.Regime.{MarketRegime}
use self_evaluating_trading.Market.Indicators.{AtrTracker}
use self_evaluating_trading.Confirmation.{Tracker}
use self_evaluating_trading.Strategy.{Signal}
use self_evaluating_trading.Paper.{Engine, Outcome, raised, done}
use self_evaluating_trading.Events.{PaperTradeEvent}
use self_evaluating_trading.Runner.{
  Runner, Processed, process, process_regime, process_atr, finish, set_last,
}
use self_evaluating_trading.Runner.Handler.{Admission, admit, handle_candle, handle_admitted}
use self_evaluating_trading.Runner.Replay.{
  Store, Input, replay, remember, or_stop, check_processed, check_event, events_equivalent,
}

-- What the last candles are by symbol and timeframe.
abbrev pub Lasts : Type 0 → Type 0
Lasts F = String → String → Option (Candle F)

-- A confirmed candle as it arrives, with its symbol and timeframe.
abbrev pub Arrival : Type 0 → Type 0
Arrival F = String × Timeframe × Candle F

-- A candle that was accepted, and what it was processed to.
abbrev pub Entry : Type 0 → Type 0
Entry F = Input F × Processed F

module _ {F : Type 0} ⦃fl : Floating F⦄ where
  abbrev put : Lasts F → Processed F × Runner F → Processed F × Runner F
  put d (p, r) = (p, record r { last_candle = d })

  finish-put :
      (d : Lasts F) (symbol tf : String) (c : Candle F) (sig : Signal) (a : Option F)
      (g : Option MarketRegime) (r : Runner F) (o : Outcome F × Engine F)
      → finish symbol tf c sig a g (record r { last_candle = d }) o
        ≡ put d (finish symbol tf c sig a g r o)
  unfolding finish
  finish-put d symbol tf c sig a g r (raised f, eng) = refl
  finish-put d symbol tf c sig a g r (done e, eng) = refl

  process_atr-put :
      (d : Lasts F) (symbol tf : String) (c : Candle F) (sig : Signal) (g : Option MarketRegime)
      (r : Runner F) (o : Option (AtrTracker F))
      → process_atr symbol tf c sig g (record r { last_candle = d }) o
        ≡ put d (process_atr symbol tf c sig g r o)
  unfolding process_atr
  process_atr-put d symbol tf c sig g r none = refl
  process_atr-put d symbol tf c sig g r (some tracker) = finish-put d symbol tf c sig _ g _ _

  process_regime-put :
      (d : Lasts F) (symbol tf : String) (c : Candle F) (g : Option MarketRegime) (r : Runner F)
      (o : Option Tracker)
      → process_regime symbol tf c g (record r { last_candle = d }) o
        ≡ put d (process_regime symbol tf c g r o)
  unfolding process_regime
  process_regime-put d symbol tf c g r none = refl
  process_regime-put d symbol tf c g r (some tracker) = process_atr-put d symbol tf c _ g _ _

  -- `_process` neither reads nor writes the last candles.
  process-put :
      (d : Lasts F) (symbol tf : String) (c : Candle F) (r : Runner F)
      → process symbol tf c (record r { last_candle = d }) ≡ put d (process symbol tf c r)
  unfolding process
  process-put d symbol tf c r = process_regime-put d symbol tf c _ _ _

  abbrev accepted : Admission → Input F → Option (Processed F) → List (Entry F)
  accepted Admission.fresh i (some p) = (i, p) ∷ []
  accepted _ i o = []

  -- The candles that a session of calls of `handle_candle` accepts, with what they are processed to,
  -- and the runner at its end. A call that is refused or fails leaves the session going on.
  unfoldable pub session : List (Arrival F) → Runner F → List (Entry F) × Runner F
  session [] r = ([], r)
  session ((symbol, tf, c) ∷ rest) r =
      let l = label tf in
      let (o, r') = handle_candle symbol tf c r in
      let (es, final) = session rest r' in
      (accepted (admit c (r.last_candle symbol l)) (symbol, l, c) o ++ es, final)

  -- The event of an entry, and a persisted event that is equivalent to it.
  abbrev pub has_equivalent : Processed F → Option (PaperTradeEvent F) → Bool
  has_equivalent (Processed.event e) (some x) = events_equivalent (fl.lit 1 9) e x
  has_equivalent _ _ = false

  unfoldable pub is_persisted : Store F → Entry F → Bool
  is_persisted persisted ((symbol, tf, c), p) =
      has_equivalent p (persisted symbol tf c.timestamp_ms)

  abbrev pub input_of : Entry F → Input F
  input_of (i, p) = i

  -- The runner after a candle, as the handler and the replay leave it.
  abbrev pub advanced : String → String → Candle F → Runner F → Runner F
  advanced symbol tf c r = record (process symbol tf c r).1 {
    last_candle = set_last symbol tf c r.last_candle;
  }

  process-last_candle :
      (symbol tf : String) (c : Candle F) (r : Runner F)
      → (process symbol tf c r).1.last_candle ≡ r.last_candle
  process-last_candle symbol tf c r =
      ap (λ (q : Processed F × Runner F). q.1.last_candle) (process-put r.last_candle symbol tf c r)

  pub handle_fresh :
      (symbol tf : String) (c : Candle F) (r : Runner F)
      → handle_admitted Admission.fresh symbol tf c r
        ≡ (some (process symbol tf c r).0, advanced symbol tf c r)
  unfolding handle_admitted
  handle_fresh symbol tf c r =
      ap (λ (q : Processed F × Runner F). (some q.0, q.1))
        (process-put (set_last symbol tf c r.last_candle) symbol tf c r)

  replay_checked :
      (persisted : Store F) (symbol tf : String) (c : Candle F) (rest : List (Input F))
      (d : Lasts F) (q : Processed F × Runner F) (o : Option (PaperTradeEvent F))
      → has_equivalent q.0 o ≡ true
      → q.1.last_candle ≡ d
      → or_stop
          (check_processed q.0 o)
          (remember symbol tf c q.0 q.1)
          (replay rest persisted (remember symbol tf c q.0 q.1))
        ≡ replay rest persisted (record q.1 { last_candle = set_last symbol tf c d })
  unfolding check_processed check_event or_stop remember
  replay_checked persisted symbol tf c rest d (Processed.event e, r) (some x) h eq =
      rw h (ap (λ d. replay rest persisted (record r { last_candle = set_last symbol tf c d })) eq)
  replay_checked persisted symbol tf c rest d (Processed.event e, r) none h eq = ground arith
  replay_checked persisted symbol tf c rest d (Processed.failed e, r) o h eq = ground arith

  pub replay_step :
      (persisted : Store F) (symbol tf : String) (c : Candle F) (rest : List (Input F))
      (r : Runner F)
      → is_persisted persisted ((symbol, tf, c), (process symbol tf c r).0) ≡ true
      → replay ((symbol, tf, c) ∷ rest) persisted r ≡ replay rest persisted (advanced symbol tf c r)
  unfolding replay is_persisted
  replay_step persisted symbol tf c rest r h =
      replay_checked persisted symbol tf c rest r.last_candle (process symbol tf c r) _ h
        (process-last_candle symbol tf c r)

  -- That the replay of a log ends without an exception and in a given runner.
  abbrev Recovers : Store F → Runner F → List (Entry F) × Runner F → Type 0
  Recovers persisted r (log, final) = replay (map input_of log) persisted r ≡ (none, final)

  abbrev AllPersisted : Store F → List (Entry F) × Runner F → Type 0
  AllPersisted persisted (log, final) = All (λ e. is_persisted persisted e ≡ true) log

  -- What a session logs at one admission of its first candle.
  abbrev logged :
      Admission
      → String
      → String
      → Candle F
      → List (Arrival F)
      → Option (Processed F) × Runner F
      → List (Entry F) × Runner F
  logged a symbol tf c rest q =
      let (es, final) = session rest q.1 in (accepted a (symbol, tf, c) q.0 ++ es, final)

  recovery_step :
      (persisted : Store F) (symbol tf : String) (c : Candle F) (rest : List (Arrival F))
      (r : Runner F) (a : Admission)
      → ((s : Runner F)
          → AllPersisted persisted (session rest s)
          → Recovers persisted s (session rest s))
      → AllPersisted persisted (logged a symbol tf c rest (handle_admitted a symbol tf c r))
      → Recovers persisted r (logged a symbol tf c rest (handle_admitted a symbol tf c r))
  unfolding handle_admitted
  recovery_step persisted symbol tf c rest r Admission.fresh ih h =
      subst
        (λ q.
          AllPersisted persisted (logged Admission.fresh symbol tf c rest q)
          → Recovers persisted r (logged Admission.fresh symbol tf c rest q))
        (sym (handle_fresh symbol tf c r))
        (λ g. replay_step persisted symbol tf c _ r g.0 ∙ ih (advanced symbol tf c r) g.1) h
  recovery_step persisted symbol tf c rest r Admission.duplicate ih h = ih r h
  recovery_step persisted symbol tf c rest r (Admission.refused e) ih h = ih r h

  -- Whatever candles arrive, duplicates and refused ones included: if every candle that a session
  -- accepts is processed to an event and the persisted event at its symbol, timeframe and timestamp is
  -- equivalent to that event, then the replay of the accepted candles from the session's first state
  -- raises nothing and ends in the very state in which the session ended.
  pub replay-session :
      (persisted : Store F) (arrivals : List (Arrival F)) (r : Runner F)
      → All (λ e. is_persisted persisted e ≡ true) (session arrivals r).0
      → replay (map input_of (session arrivals r).0) persisted r ≡ (none, (session arrivals r).1)
  unfolding session handle_candle replay
  replay-session persisted [] r h = refl
  replay-session persisted ((symbol, tf, c) ∷ rest) r h =
      recovery_step persisted symbol (label tf) c rest r _ (replay-session persisted rest) h
