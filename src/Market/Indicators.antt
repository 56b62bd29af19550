-- ===== src/Market/Indicators.antt =====
-- src/domain/market/indicators.py: the moving averages, the average true range as a series and as a
-- tracker, and the realised volatility. A series gives `none` during its warm-up. A function whose
-- period must be positive raises otherwise; its `none` as a whole is that `ValueError`.
pub mod Seeded
pub mod Trackers
use self_evaluating_trading.Common.{
  ℕ, zero, suc, ◌+◌, ◌-◌, ltb, leb, ◌==◌, not, Option, none, some, List, [], ◌∷◌, ◌++◌, map,
  if◌then◌else◌, length, take, drop,
}
use mathlib.Core.List.{reverse}
use self_evaluating_trading.Floating.{Floating, max, of_int}
use self_evaluating_trading.Market.Candle.{Candle}

module _ {F : Type 0} where
  -- `[None] * len(values)`
  abbrev pub nones {κ} : {A : Type κ} → List A → List (Option F)
  nones [] = []
  nones (x ∷ xs) = none ∷ nones xs

  abbrev pub somes : List (Option F) → List F
  somes [] = []
  somes (none ∷ xs) = somes xs
  somes (some x ∷ xs) = x ∷ somes xs

  -- The values of a recurrence after `v`.
  unfoldable pub follow : (F → F → F) → F → List F → List (Option F)
  follow step v [] = []
  follow step v (x ∷ xs) = let w = step v x in some w ∷ follow step w xs

  -- A series that is seeded at index `period - 1` by a mean of the first `period` values.
  unfoldable pub seeded : (List F → F) → (F → F → F) → ℕ → List F → List (Option F)
  seeded mean step period values =
      let seed = mean (take period values) in
      if ltb (length values) period
      then nones values
      else nones (take (period - 1) values) ++ (some seed ∷ follow step seed (drop period values))

module _ {F : Type 0} ⦃fl : Floating F⦄ where
  open fl use {lit, add, sub, mul, div, abs, root, square, eq, sum}

  -- `sum(values) / period`
  unfoldable pub mean_of : ℕ → List F → F
  mean_of period values = div (sum values) (of_int period)

  -- `2.0 / (period + 1)`
  unfoldable pub alpha : ℕ → F
  alpha period = div (lit 2 0) (of_int (period + 1))

  unfoldable pub ema_step : ℕ → F → F → F
  unfolding alpha
  ema_step period prev x = add (mul (alpha period) x) (mul (sub (lit 1 0) (alpha period)) prev)

  unfoldable pub wilder_step : ℕ → F → F → F
  wilder_step period prev x = div (add (mul prev (of_int (period - 1))) x) (of_int period)

  unfoldable pub ema : List F → ℕ → Option (List (Option F))
  ema values zero = none
  ema values (suc p) = some (seeded (mean_of (suc p)) (ema_step (suc p)) (suc p) values)

  unfoldable pub true_range : F → Candle F → F
  true_range prev_close c =
      max (max (sub c.high c.low) (abs (sub c.high prev_close))) (abs (sub c.low prev_close))

  -- `trs[1:]`
  unfoldable pub true_ranges : F → List (Candle F) → List F
  true_ranges prev_close [] = []
  true_ranges prev_close (c ∷ cs) = true_range prev_close c ∷ true_ranges c.close cs

  unfoldable pub atr_from : ℕ → List (Candle F) → List (Option F)
  atr_from period [] = []
  atr_from period (c ∷ cs) =
      none ∷ seeded (mean_of period) (wilder_step period) period (true_ranges c.close cs)

  unfoldable pub atr : List (Candle F) → ℕ → Option (List (Option F))
  unfolding atr_from
  atr candles zero = none
  atr candles (suc p) = some (atr_from (suc p) candles)

  unfoldable pub returns_from : F → List F → List (Option F)
  returns_from prev [] = []
  returns_from prev (x ∷ xs) =
      (if not (eq prev (lit 0 0)) then some (div (sub x prev) prev) else none) ∷ returns_from x xs

  unfoldable pub returns : List F → List (Option F)
  unfolding returns_from
  returns [] = []
  returns (x ∷ xs) = none ∷ returns_from x xs

  -- The sample deviation of the returns of a window, from two returns on.
  unfoldable pub deviation : List F → Option F
  deviation rs =
      let mean = div (sum rs) (of_int (length rs)) in
      let squares = map (λ r. square (sub r mean)) rs in
      if leb 2 (length rs) then some (root (div (sum squares) (of_int (length rs - 1)))) else none

  -- `past` are the returns before, the latest first; the return at index 0 is always `none`.
  unfoldable pub volatility_from : ℕ → List (Option F) → List (Option F) → List (Option F)
  unfolding deviation
  volatility_from window past [] = []
  volatility_from window past (r ∷ rs) =
      deviation (somes (reverse (take window (r ∷ past)))) ∷ volatility_from window (r ∷ past) rs

  unfoldable pub realized_volatility : List F → ℕ → Option (List (Option F))
  unfolding volatility_from returns
  realized_volatility values zero = none
  realized_volatility values (suc w) = some (volatility_from (suc w) [] (returns values))

-- `AtrTracker`
pub record AtrTracker (F : Type 0) : Type 0 where
  pub period : ℕ
  pub prev_close : Option F
  pub seed_trs : List F
  pub value : Option F

module _ {F : Type 0} ⦃fl : Floating F⦄ where
  unfoldable pub new_atr_tracker : ℕ → AtrTracker F
  new_atr_tracker p = record { period = p; prev_close = none; seed_trs = []; value = none }

  -- `update` on the previous close and the value, each if it is set; the result is the new value.
  unfoldable pub update_atr :
      Candle F → AtrTracker F → Option F → Option F → AtrTracker F × Option F
  update_atr c s none v = (record s { prev_close = some c.close }, none)
  update_atr c s (some prev) (some v) =
      let w = wilder_step s.period v (true_range prev c) in
      (record s { prev_close = some c.close; value = some w }, some w)
  update_atr c s (some prev) none =
      let trs = s.seed_trs ++ (true_range prev c ∷ []) in
      let w = mean_of s.period trs in
      if ltb (length trs) s.period
      then (record s { prev_close = some c.close; seed_trs = trs }, none)
      else (record s { prev_close = some c.close; value = some w; seed_trs = [] }, some w)

  unfoldable pub atr_update : Candle F → AtrTracker F → AtrTracker F × Option F
  unfolding update_atr
  atr_update c s = update_atr c s s.prev_close s.value

  -- The results of a sequence of updates.
  unfoldable pub atr_updates : List (Candle F) → AtrTracker F → List (Option F)
  atr_updates [] s = []
  atr_updates (c ∷ cs) s = let r = atr_update c s in r.1 ∷ atr_updates cs r.0
