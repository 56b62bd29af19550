-- ===== src/Strategy/Averages.antt =====
-- The incremental EMA of src/domain/trading/strategy.py against `ema` of
-- src/domain/market/indicators.py.
use self_evaluating_trading.Common.{
  ℕ, zero, suc, ◌<◌, ◌≡◌, refl, ap, sym, ◌∙◌, ltb, ◌==◌, false, Option, none, some, List, [], ◌∷◌,
  ◌++◌, length, length-append, lt→ltb, arith, Bool-cases, inl, inr,
}
use self_evaluating_trading.Floating.{Floating}
use self_evaluating_trading.Market.Indicators.{ema, follow, mean_of, ema_step}
use self_evaluating_trading.Market.Indicators.Seeded.{tracked, tracked-eq-seeded}
use self_evaluating_trading.Strategy.{EmaTracker, new_ema, ema_update}

module _ {F : Type 0} ⦃fl : Floating F⦄ where
  -- The current average after each value of a sequence.
  unfoldable pub currents : List F → EmaTracker F → List (Option F)
  currents [] s = []
  currents (x ∷ xs) s = let s' = ema_update x s in s'.current ∷ currents xs s'

module _ {F : Type 0} ⦃fl : Floating F⦄ (p : ℕ) where
  abbrev state : List F → Option F → Option F → EmaTracker F
  state all before v = record { period = p; buffer = all; prev = before; current = v }

  after_seed :
      (xs all : List F) (before : Option F) (v : F)
      → currents xs (state all before (some v)) ≡ follow (ema_step p) v xs
  unfolding currents ema_update follow
  after_seed [] all before v = refl
  after_seed (x ∷ xs) all before v =
      ap (◌∷◌ (some (ema_step p v x))) (after_seed xs all (some v) (ema_step p v x))

  in_seed :
      (xs all : List F)
      → length all < p
      → currents xs (state all none none) ≡ tracked (mean_of p) (ema_step p) p all xs
  unfolding currents ema_update tracked
  in_seed [] all h = refl
  in_seed (x ∷ xs) all h =
      let more = all ++ (x ∷ []) in
      let longer = length-append all (x ∷ []) in
      elim (Bool-cases (length more == p)) [
        | inl full ↦
            let over : ltb (length more) p ≡ false = ground arith in
            rw (full, over)
              (ap (◌∷◌ (some (mean_of p more))) (after_seed xs more none (mean_of p more)))
        | inr short ↦
            let under : length more < p = ground (arith, longer) in
            rw (short, lt→ltb (length more) p under) (ap (◌∷◌ none) (in_seed xs more under))
      ]

-- The averages that the tracker holds after each value are exactly the series `ema` of all values, for
-- every positive period.
pub currents-eq-ema :
    {F : Type 0} ⦃fl : Floating F⦄ (period : ℕ) (values : List F)
    → 0 < period
    → ema values period ≡ some (currents values (new_ema period))
unfolding ema new_ema
currents-eq-ema zero values h = elim h [ ]
currents-eq-ema (suc p) values h = ap some (
    sym (
      in_seed (suc p) values [] (omega arith)
      ∙ tracked-eq-seeded (mean_of (suc p)) (ema_step (suc p)) (suc p) values h))
