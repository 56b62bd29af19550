-- ===== src/Market/Indicators/Trackers.antt =====
-- `AtrTracker` against the series `atr` of src/domain/market/indicators.py.
use self_evaluating_trading.Common.{
  ℕ, zero, suc, ◌<◌, ◌≡◌, refl, ap, sym, ◌∙◌, ltb, Option, none, some, List, [], ◌∷◌, ◌++◌, length,
  Bool-cases, inl, inr,
}
use self_evaluating_trading.Floating.{Floating}
use self_evaluating_trading.Market.Candle.{Candle}
use self_evaluating_trading.Market.Indicators.{
  AtrTracker, new_atr_tracker, atr_update, atr_updates, atr, true_range, true_ranges, follow,
  mean_of, wilder_step,
}
use self_evaluating_trading.Market.Indicators.Seeded.{tracked, tracked-eq-seeded}

module _ {F : Type 0} ⦃fl : Floating F⦄ (p : ℕ) where
  abbrev state : Option F → List F → Option F → AtrTracker F
  state q trs v = record { period = p; prev_close = q; seed_trs = trs; value = v }

  after_seed :
      (cs : List (Candle F)) (q v : F) (trs : List F)
      → atr_updates cs (state (some q) trs (some v)) ≡ follow (wilder_step p) v (true_ranges q cs)
  unfolding atr_updates atr_update follow true_ranges
  after_seed [] q v trs = refl
  after_seed (c ∷ cs) q v trs =
      let w = wilder_step p v (true_range q c) in ap (◌∷◌ (some w)) (after_seed cs c.close w trs)

  in_seed :
      (cs : List (Candle F)) (q : F) (trs : List F)
      → atr_updates cs (state (some q) trs none)
        ≡ tracked (mean_of p) (wilder_step p) p trs (true_ranges q cs)
  unfolding atr_updates atr_update tracked true_ranges
  in_seed [] q trs = refl
  in_seed (c ∷ cs) q trs =
      let all = trs ++ (true_range q c ∷ []) in
      elim (Bool-cases (ltb (length all) p)) [
        | inl more ↦ rw more (ap (◌∷◌ none) (in_seed cs c.close all))
        | inr full ↦
            rw full (ap (◌∷◌ (some (mean_of p all))) (after_seed cs c.close (mean_of p all) []))
      ]

-- Fed one candle after the other, the tracker returns exactly the series `atr` of all of them, for
-- every positive period.
pub atr_updates-eq-atr :
    {F : Type 0} ⦃fl : Floating F⦄ (period : ℕ) (cs : List (Candle F))
    → 0 < period
    → atr cs period ≡ some (atr_updates cs (new_atr_tracker period))
unfolding atr new_atr_tracker
atr_updates-eq-atr zero cs h = elim h [ ]
atr_updates-eq-atr (suc p) [] h = unfold atr_updates in refl
atr_updates-eq-atr (suc p) (c ∷ cs) h =
    unfold atr_updates atr_update in
    ap (λ l. some (none ∷ l))
      (sym (
        in_seed (suc p) cs c.close []
        ∙ tracked-eq-seeded (mean_of (suc p)) (wilder_step (suc p)) (suc p) (true_ranges c.close cs)
            h))
