-- ===== src/Market/Indicators/Seeded.antt =====
-- A tracker that collects `period` values, takes their mean, and follows a recurrence from there, against
-- the series computed at once (src/domain/market/indicators.py, and the trackers of
-- src/domain/trading/strategy.py).
use self_evaluating_trading.Common.{
  ℕ, zero, suc, ◌+◌, ◌-◌, ◌<◌, ◌≡◌, ◌∙◌, ltb, Option, none, some, List, [], ◌∷◌, ◌++◌,
  if◌then◌else◌, length, take, drop, length-append, arith,
}
use mathlib.Core.List.{append_assoc}
use self_evaluating_trading.Market.Indicators.{nones, follow, seeded}

module _ {F : Type 0} (mean : List F → F) (step : F → F → F) (period : ℕ) where
  -- What such a tracker returns for the values to come, after those that it has collected.
  unfoldable pub tracked : List F → List F → List (Option F)
  tracked seen [] = []
  tracked seen (x ∷ xs) =
      let all = seen ++ (x ∷ []) in
      let rest = tracked all xs in
      if ltb (length all) period then none ∷ rest else some (mean all) ∷ follow step (mean all) xs

  -- The series, with the values that are collected already put in front of the mean; `m` and one more
  -- are missing.
  abbrev from_seen : ℕ → List F → List F → List (Option F)
  from_seen m seen values =
      let seed = mean (seen ++ take (suc m) values) in
      if ltb (length values) (suc m)
      then nones values
      else nones (take m values) ++ (some seed ∷ follow step seed (drop (suc m) values))

  tracked-from_seen :
      (m : ℕ) (seen values : List F)
      → length seen + suc m ≡ period
      → tracked seen values ≡ from_seen m seen values
  unfolding tracked
  tracked-from_seen m seen [] h = ground arith
  tracked-from_seen zero seen (x ∷ xs) h = ground (arith, length-append seen (x ∷ []))
  tracked-from_seen (suc k) seen (x ∷ xs) h =
      let all = seen ++ (x ∷ []) in
      let longer = length-append seen (x ∷ []) in
      let ih = tracked-from_seen k all xs (omega (arith, longer)) in
      ground (arith, longer, ih, append_assoc seen (x ∷ []) (take (suc k) xs))

  -- From the start, the tracker returns the series.
  pub tracked-eq-seeded :
      (values : List F) → 0 < period → tracked [] values ≡ seeded mean step period values
  unfolding seeded
  tracked-eq-seeded values h =
      let e : period ≡ suc (period - 1) = omega arith in
      tracked-from_seen (period - 1) [] values (omega arith) ∙ ground arith
