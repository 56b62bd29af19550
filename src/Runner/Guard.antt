-- ===== src/Runner/Guard.antt =====
-- The guard of `handle_candle` in src/application/services/paper_runner.py: candles that were seen
-- before, and older ones.
use self_evaluating_trading.Common.{
  ◌≡◌, refl, ◌∙◌, ap, ◌≤◌, ◌<◌, ◌↔◌, eq_refl, arith, true, false, Option, none, some, String,
}
use self_evaluating_trading.Floating.{Floating, IsOrdered, IsNum}
use self_evaluating_trading.Market.Candle.{Candle, Timeframe, label}
use self_evaluating_trading.Runner.{Runner, RunnerError, Processed, set_last}
use self_evaluating_trading.Runner.Handler.{
  Admission, admit, handle_candle, handle_admitted, same_candle,
}
use self_evaluating_trading.Runner.Recovery.{handle_fresh, Lasts}

-- The prices and volumes of the candle are numbers.
abbrev IsProper : {F : Type 0} → ⦃fl : Floating F⦄ → Candle F → Type 0
IsProper c =
    IsNum c.open_price
    × IsNum c.high
    × IsNum c.low
    × IsNum c.close
    × IsNum c.volume
    × IsNum c.turnover

module _ {F : Type 0} ⦃fl : Floating F⦄ where
  -- What a handler does with a candle that is not newer than the last one of its symbol and
  -- timeframe: the runner stays as it was, and the call returns nothing for the same candle again,
  -- raises `DuplicateCandleError` for another one at the same time, `OutOfOrderTimestampError` for an
  -- older one.
  pub handle_candle_stale :
      (symbol : String) (tf : Timeframe) (c last : Candle F) (r : Runner F)
      → r.last_candle symbol (label tf) ≡ some last
      → c.timestamp_ms ≤ last.timestamp_ms
      → ((handle_candle symbol tf c r).1 ≡ r)
        × (((handle_candle symbol tf c r).0 ≡ none)
            ↔ ((c.timestamp_ms ≡ last.timestamp_ms) × (same_candle c last ≡ true)))
        × (((handle_candle symbol tf c r).0 ≡ some (Processed.failed RunnerError.out_of_order))
            ↔ (c.timestamp_ms < last.timestamp_ms))
        × (((handle_candle symbol tf c r).0 ≡ some (Processed.failed RunnerError.duplicate_candle))
            ↔ ((c.timestamp_ms ≡ last.timestamp_ms) × (same_candle c last ≡ false)))
  unfolding handle_candle handle_admitted admit
  handle_candle_stale symbol tf c last r eq h = rw eq (ground arith)

  admit-same :
      (laws : IsOrdered F) (c : Candle F) → IsProper c → admit c (some c) ≡ Admission.duplicate
  unfolding admit same_candle
  admit-same laws c (a, b, d, e, f, g) =
      rw
        (
          laws.eq_refl c.open_price a,
          laws.eq_refl c.high b,
          laws.eq_refl c.low d,
          laws.eq_refl c.close e,
          laws.eq_refl c.volume f,
          laws.eq_refl c.turnover g,
        )
        (ground arith)

  set_last-same :
      (symbol l : String) (c : Candle F) (d : Lasts F) → set_last symbol l c d symbol l ≡ some c
  set_last-same symbol l c d = rw (eq_refl symbol, eq_refl l) refl

  handle_candle-seen :
      (laws : IsOrdered F) (symbol : String) (tf : Timeframe) (c : Candle F) (s : Runner F)
      → IsProper c
      → s.last_candle symbol (label tf) ≡ some c
      → handle_candle symbol tf c s ≡ (none, s)
  unfolding handle_candle handle_admitted
  handle_candle-seen laws symbol tf c s h eq = rw (eq, admit-same laws c h) refl

  handle_candle-last :
      (symbol : String) (tf : Timeframe) (c : Candle F) (r : Runner F)
      → admit c (r.last_candle symbol (label tf)) ≡ Admission.fresh
      → (handle_candle symbol tf c r).1.last_candle symbol (label tf) ≡ some c
  unfolding handle_candle
  handle_candle-last symbol tf c r eq =
      ap (λ a. (handle_admitted a symbol (label tf) c r).1.last_candle symbol (label tf)) eq
      ∙ ap (λ (q : Option (Processed F) × Runner F). q.1.last_candle symbol (label tf))
          (handle_fresh symbol (label tf) c r)
      ∙ set_last-same symbol (label tf) c r.last_candle

  -- A candle whose prices and volumes are numbers, and that is admitted as a new one, is afterwards the
  -- last candle of its symbol and timeframe, even if it fails, and the same candle again changes nothing
  -- and returns nothing.
  pub handle_candle_again :
      (laws : IsOrdered F) (symbol : String) (tf : Timeframe) (c : Candle F) (r : Runner F)
      → IsProper c
      → admit c (r.last_candle symbol (label tf)) ≡ Admission.fresh
      → ((handle_candle symbol tf c r).1.last_candle symbol (label tf) ≡ some c)
        × (handle_candle symbol tf c (handle_candle symbol tf c r).1
            ≡ (none, (handle_candle symbol tf c r).1))
  unfolding handle_candle
  handle_candle_again laws symbol tf c r h eq =
      let last = handle_candle-last symbol tf c r eq in
      (last, handle_candle-seen laws symbol tf c _ h last)
