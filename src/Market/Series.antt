-- ===== src/Market/Series.antt =====
-- What a clean result of the validation shows (src/application/services/validation.py).
use self_evaluating_trading.Common.{
  ℕ, zero, suc, ◌+◌, ◌%◌, ◌≡◌, ◌≤◌, ◌<◌, ◌↔◌, refl, sym, ap, ◌∙◌, some, List, [], ◌∷◌, ◌++◌, length,
  map, arith,
}
use self_evaluating_trading.Market.Candle.{Timeframe, minutes, Candle}
use self_evaluating_trading.Market.Validation.{
  ValidationResult, step_ms, alignment, ordering, gaps, validate_from, validate_candles,
}

-- `n` timestamps, each a step after the one before.
abbrev pub ticks : ℕ → ℕ → ℕ → List ℕ
ticks step zero start = []
ticks step (suc n) start = start ∷ ticks step n (start + step)

-- A result without an error and without a warning.
abbrev pub IsClean : ValidationResult → Type 0
IsClean r = (r.errors ≡ []) × (r.warnings ≡ [])

-- Two multiples of the step that differ by at most a step are neighbours.
next_tick :
    (tf : Timeframe) (p t : ℕ)
    → p % step_ms tf ≡ 0
    → t % step_ms tf ≡ 0
    → p < t
    → t ≤ p + step_ms tf
    → t ≡ p + step_ms tf
unfolding step_ms minutes
next_tick Timeframe.m15 p t a b l u = omega arith
next_tick Timeframe.h1 p t a b l u = omega arith
next_tick Timeframe.h4 p t a b l u = omega arith

tick_aligned : (tf : Timeframe) (p : ℕ) → p % step_ms tf ≡ 0 → (p + step_ms tf) % step_ms tf ≡ 0
unfolding step_ms minutes
tick_aligned Timeframe.m15 p a = omega arith
tick_aligned Timeframe.h1 p a = omega arith
tick_aligned Timeframe.h4 p a = omega arith

step_positive : (tf : Timeframe) → 0 < step_ms tf
unfolding step_ms minutes
step_positive Timeframe.m15 = omega arith
step_positive Timeframe.h1 = omega arith
step_positive Timeframe.h4 = omega arith

-- Two parts of a list that is empty are empty.
empty_parts : {A : Type 0} (xs ys : List A) → xs ++ ys ≡ [] → (xs ≡ []) × (ys ≡ [])
empty_parts [] ys h = (refl, h)
empty_parts (x ∷ xs) ys h = absurd (cc)

aligned : (step i ts : ℕ) → (alignment step i ts ≡ []) ↔ (ts % step ≡ 0)
unfolding alignment
aligned step i ts = ground arith

neighbours :
    (tf : Timeframe) (p t : ℕ)
    → p % step_ms tf ≡ 0
    → t % step_ms tf ≡ 0
    → ordering (some p) t ≡ []
    → gaps (step_ms tf) (some p) t ≡ []
    → t ≡ p + step_ms tf
unfolding ordering gaps
neighbours tf p t a b o g = next_tick tf p t a b (ground arith) (ground arith)

next_clean :
    (tf : Timeframe) (p : ℕ)
    → (ordering (some p) (p + step_ms tf) ≡ []) × (gaps (step_ms tf) (some p) (p + step_ms tf) ≡ [])
unfolding ordering gaps
next_clean tf p = let s = step_positive tf in (ground arith, ground arith)

-- The list whose head and tail are given.
cons_eq : {A : Type 0} (x y : A) (xs ys : List A) → x ≡ y → xs ≡ ys → x ∷ xs ≡ y ∷ ys
cons_eq x y xs ys h hs = cc

joined : {A : Type 0} (xs ys : List A) → xs ≡ [] → ys ≡ [] → xs ++ ys ≡ []
joined xs ys h hs = rw (h, hs) refl

module _ {F : Type 0} where
  abbrev times : List (Candle F) → List ℕ
  times cs = map Candle.timestamp_ms cs

  clean_ticks :
      (tf : Timeframe) (cs : List (Candle F)) (i p : ℕ)
      → p % step_ms tf ≡ 0
      → IsClean (validate_from (step_ms tf) cs i (some p))
      → times cs ≡ ticks (step_ms tf) (length cs) (p + step_ms tf)
  unfolding validate_from
  clean_ticks tf [] i p a h = refl
  clean_ticks tf (c ∷ cs) i p a (he, hw) =
      let step = step_ms tf in
      let t = c.timestamp_ms in
      let (ha, ho) = empty_parts (alignment step i t) _ he in
      let (hp, hr) = empty_parts (ordering (some p) t) _ ho in
      let (hg, hv) = empty_parts (gaps step (some p) t) _ hw in
      let b = (aligned step i t).0 ha in
      let e = neighbours tf p t a b hp hg in
      cons_eq t (p + step) _ _ e
        (clean_ticks tf cs (suc i) t b (hr, hv) ∙ ap (λ s. ticks step (length cs) (s + step)) e)

  ticks-IsClean :
      (tf : Timeframe) (cs : List (Candle F)) (i p : ℕ)
      → p % step_ms tf ≡ 0
      → times cs ≡ ticks (step_ms tf) (length cs) (p + step_ms tf)
      → IsClean (validate_from (step_ms tf) cs i (some p))
  unfolding validate_from
  ticks-IsClean tf [] i p a h = (refl, refl)
  ticks-IsClean tf (c ∷ cs) i p a h =
      let step = step_ms tf in
      let t = c.timestamp_ms in
      let e : t ≡ p + step = cc in
      let same : times cs ≡ ticks step (length cs) (p + step + step) = cc in
      let b : t % step ≡ 0 = ap (λ s. s % step) e ∙ tick_aligned tf p a in
      let (o, g) = next_clean tf p in
      let (re, rv) =
        ticks-IsClean tf cs (suc i) t b
          (same ∙ ap (λ s. ticks step (length cs) (s + step)) (sym e)) in
      (
        joined (alignment step i t) _ ((aligned step i t).1 b)
            (joined (ordering (some p) t) _ (ap (ordering (some p)) e ∙ o) re),
        joined (gaps step (some p) t) _ (ap (gaps step (some p)) e ∙ g) rv,
      )

  -- The result of a validation has neither an error nor a warning exactly when the first candle stands on the grid of
  -- the timeframe and the timestamps of the candles are that timestamp and those that follow it step by step, with
  -- none missing, repeated or out of order.
  pub validate_candles-IsClean :
      (c : Candle F) (cs : List (Candle F)) (tf : Timeframe)
      → IsClean (validate_candles (c ∷ cs) tf) ↔ (
          (c.timestamp_ms % step_ms tf ≡ 0)
          × (map Candle.timestamp_ms (c ∷ cs)
              ≡ ticks (step_ms tf) (length (c ∷ cs)) c.timestamp_ms))
  unfolding validate_candles validate_from ordering gaps
  validate_candles-IsClean c cs tf =
      let step = step_ms tf in
      let t = c.timestamp_ms in
      (
        λ (he, hw).
            let (ha, hr) = empty_parts (alignment step 0 t) _ he in
            let a = (aligned step 0 t).0 ha in
            (a, ap (λ ts. t ∷ ts) (clean_ticks tf cs 1 t a (hr, hw))),
        λ (a, h).
            let same : times cs ≡ ticks step (length cs) (t + step) = cc in
            let (re, rw') = ticks-IsClean tf cs 1 t a same in
            (joined (alignment step 0 t) _ ((aligned step 0 t).1 a) re, rw'),
      )
