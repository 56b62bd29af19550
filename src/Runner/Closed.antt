-- ===== src/Runner/Closed.antt =====
-- What a backfill leaves behind (src/application/services/backfill.py).
use self_evaluating_trading.Common.{
  ℕ, suc, ◌+◌, ◌*◌, ◌≡◌, refl, sym, ap, ◌∙◌, ltb, Option, none, some, List, [], ◌∷◌, String, length,
  take, arith, if◌then◌else◌, Bool-cases, inl, inr,
}
use self_evaluating_trading.Floating.{Floating}
use self_evaluating_trading.Market.Candle.{Timeframe, minutes, Candle}
use self_evaluating_trading.Runner.{Runner, Processed}
use self_evaluating_trading.Runner.Handler.{handle_candle}
use self_evaluating_trading.Runner.Recovery.{Arrival, session}
use self_evaluating_trading.Runner.Backfill.{
  BackfillResult, Backfilled, filled, stopped, candle_close_ms, after_handled, backfill_over,
  backfill,
}

module _ {F : Type 0} ⦃fl : Floating F⦄ where
  -- The candles that are closed at the cutoff, as they arrive at the runner.
  abbrev pub closed : String → Timeframe → ℕ → List (Candle F) → List (Arrival F)
  closed symbol tf cutoff [] = []
  closed symbol tf cutoff (c ∷ cs) =
      let rest = closed symbol tf cutoff cs in
      if ltb cutoff (c.timestamp_ms + minutes tf * 60_000) then rest else (symbol, tf, c) ∷ rest

  -- From a runner, over so many candles of which these are closed: a backfill that ends leaves the runner where a
  -- session over the closed candles does, and counts them and the others; one that a candle stops leaves it where a
  -- session over the first few of them does.
  unfoldable pub IsBackfill :
      List (Arrival F) → ℕ → BackfillResult → Runner F → Backfilled F → Type 0
  IsBackfill cs n b r (filled d final) =
      (final ≡ (session cs r).1)
      × (d.recovered ≡ b.recovered + length cs)
      × (d.recovered + d.skipped_partial ≡ b.recovered + b.skipped_partial + n)
  IsBackfill cs n b r (stopped e final) = (k : ℕ) × (final ≡ (session (take k cs) r).1)

  after_candle :
      (symbol : String) (tf : Timeframe) (c : Candle F) (cs : List (Arrival F)) (n : ℕ)
      (b : BackfillResult) (r s : Runner F) (out : Backfilled F)
      → (handle_candle symbol tf c r).1 ≡ s
      → IsBackfill cs n (record b { recovered = suc b.recovered }) s out
      → IsBackfill ((symbol, tf, c) ∷ cs) (suc n) b r out
  unfolding IsBackfill session
  after_candle symbol tf c cs n b r s (filled d final) e (p, q, w) =
      (p ∙ ap (λ x. (session cs x).1) (sym e), omega arith, omega arith)
  after_candle symbol tf c cs n b r s (stopped x final) e (k, p) =
      (suc k, p ∙ ap (λ x. (session (take k cs) x).1) (sym e))

  after_handled-IsBackfill :
      (symbol : String) (tf : Timeframe) (c : Candle F) (cs : List (Arrival F)) (n : ℕ)
      (b : BackfillResult) (r : Runner F) (go : Runner F → Backfilled F)
      (q : Option (Processed F) × Runner F)
      → handle_candle symbol tf c r ≡ q
      → IsBackfill cs n (record b { recovered = suc b.recovered }) q.1 (go q.1)
      → IsBackfill ((symbol, tf, c) ∷ cs) (suc n) b r (after_handled go q)
  unfolding after_handled IsBackfill session
  after_handled-IsBackfill symbol tf c cs n b r go (some (Processed.failed x), s) e h =
      (1, sym (ap (λ (p : Option (Processed F) × Runner F). p.1) e))
  after_handled-IsBackfill symbol tf c cs n b r go (some (Processed.event x), s) e h =
      after_candle symbol tf c cs n b r s (go s)
        (ap (λ (p : Option (Processed F) × Runner F). p.1) e) h
  after_handled-IsBackfill symbol tf c cs n b r go (none, s) e h =
      after_candle symbol tf c cs n b r s (go s)
        (ap (λ (p : Option (Processed F) × Runner F). p.1) e) h

  one_more :
      (cs : List (Arrival F)) (n : ℕ) (b : BackfillResult) (r : Runner F) (out : Backfilled F)
      → IsBackfill cs n (record b { skipped_partial = suc b.skipped_partial }) r out
      → IsBackfill cs (suc n) b r out
  unfolding IsBackfill
  one_more cs n b r (filled d final) (p, q, w) = (p, q, omega arith)
  one_more cs n b r (stopped x final) h = h

  nothing_left : (b : BackfillResult) (r : Runner F) → IsBackfill [] 0 b r (filled b r)
  unfolding IsBackfill session
  nothing_left b r = (refl, omega arith, omega arith)

  backfill_over-IsBackfill :
      (symbol : String) (tf : Timeframe) (cutoff : ℕ) (cs : List (Candle F)) (b : BackfillResult)
      (r : Runner F)
      → IsBackfill
          (closed symbol tf cutoff cs)
          (length cs)
          b
          r
          (backfill_over symbol tf cutoff cs b r)
  unfolding backfill_over candle_close_ms
  backfill_over-IsBackfill symbol tf cutoff [] b r = nothing_left b r
  backfill_over-IsBackfill symbol tf cutoff (c ∷ cs) b r =
      let late = ltb cutoff (c.timestamp_ms + minutes tf * 60_000) in
      elim (Bool-cases late) [
        | inl e ↦ rw e (
            one_more (closed symbol tf cutoff cs) (length cs) b r _ (
              backfill_over-IsBackfill symbol tf cutoff cs
                (record b { skipped_partial = suc b.skipped_partial }) r))
        | inr e ↦ rw e (
            after_handled-IsBackfill symbol tf c (closed symbol tf cutoff cs) (length cs) b r
              (backfill_over symbol tf cutoff cs (record b { recovered = suc b.recovered }))
              (handle_candle symbol tf c r) refl
              (backfill_over-IsBackfill symbol tf cutoff cs
                (record b { recovered = suc b.recovered }) (handle_candle symbol tf c r).1))
      ]

  -- The candles that a backfill fetches: none where nothing is persisted, else those from the candle after the last
  -- persisted one on.
  abbrev pub missing :
      (String → Timeframe → ℕ → ℕ → List (Candle F))
      → String
      → Timeframe
      → ℕ
      → Option ℕ
      → List (Candle F)
  missing fetch symbol tf cutoff none = []
  missing fetch symbol tf cutoff (some last) = fetch symbol tf (last + minutes tf * 60_000) cutoff

  -- Whatever the client answers, a backfill hands the runner, in their order, exactly the fetched candles that are
  -- closed at the cutoff, and where nothing is persisted none: if it ends, the runner is where a session over those
  -- candles ends, and the two counters are the number of them and of the others; if a candle raises, the runner is
  -- where a session over the first few of them ends.
  pub backfill-IsBackfill :
      (fetch : String → Timeframe → ℕ → ℕ → List (Candle F)) (symbol : String) (tf : Timeframe)
      (cutoff : ℕ) (last : Option ℕ) (r : Runner F)
      → let cs = missing fetch symbol tf cutoff last in
        IsBackfill
          (closed symbol tf cutoff cs)
          (length cs)
          (record { recovered = 0; skipped_partial = 0 })
          r
          (backfill fetch symbol tf cutoff last r)
  unfolding backfill
  backfill-IsBackfill fetch symbol tf cutoff none r = nothing_left _ r
  backfill-IsBackfill fetch symbol tf cutoff (some last) r =
      backfill_over-IsBackfill symbol tf cutoff _ _ r
