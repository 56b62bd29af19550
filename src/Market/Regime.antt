-- ===== src/Market/Regime.antt =====
-- src/domain/market/regime.py: the regime of the market, from the candles up to now. The periods of the
-- configuration are positive, as the default's are; for a period of zero the source raises.
use mathlib.Core.List.{foldl}
use self_evaluating_trading.Common.{
  ℕ, ◌-◌, ltb, Bool, false, ◌||◌, Option, none, some, List, [], ◌∷◌, map, if◌then◌else◌, length,
  drop, last?,
}
use self_evaluating_trading.Floating.{Floating, max, min, of_int}
use self_evaluating_trading.Market.Candle.{Candle}
use self_evaluating_trading.Market.Indicators.{ema, realized_volatility, somes}

pub data MarketRegime : Type 0 where
  trend_up trend_down sideways high_volatility low_volatility breakout : MarketRegime

pub record RegimeConfig (F : Type 0) : Type 0 where
  pub ema_fast : ℕ
  pub ema_slow : ℕ
  pub vol_window : ℕ
  pub vol_baseline : ℕ
  pub breakout_lookback : ℕ
  pub high_vol_threshold : F
  pub low_vol_threshold : F
  pub trend_threshold : F

abbrev or_empty {ℓ} : {A : Type ℓ} → Option (List A) → List A
or_empty none = []
or_empty (some l) = l

-- `values[-1]`, where an entry may be `None`
abbrev last_value : {F : Type 0} → List (Option F) → Option F
last_value [] = none
last_value (x ∷ []) = x
last_value (x ∷ y ∷ xs) = last_value (y ∷ xs)

-- `list(candles)[:-1]`
abbrev pub init {ℓ} : {A : Type ℓ} → List A → List A
init [] = []
init (x ∷ []) = []
init (x ∷ y ∷ xs) = x ∷ init (y ∷ xs)

module _ {F : Type 0} ⦃fl : Floating F⦄ where
  open fl use {lit, sub, div, neg, lt, le, eq, sum}

  abbrev pub default_regime : RegimeConfig F
  default_regime = record {
    ema_fast = 20;
    ema_slow = 50;
    vol_window = 20;
    vol_baseline = 100;
    breakout_lookback = 20;
    high_vol_threshold = lit 15 1;
    low_vol_threshold = lit 5 1;
    trend_threshold = lit 5 3;
  }

  -- The last close against the highest high and the lowest low of the candles before.
  unfoldable pub breaks_out : List (Candle F) → Option (Candle F) → Bool
  breaks_out [] o = false
  breaks_out (c ∷ cs) none = false
  breaks_out (c ∷ cs) (some last) =
      lt (foldl (λ m d. max m d.high) c.high cs) last.close
      || lt last.close (foldl (λ m d. min m d.low) c.low cs)

  -- `_is_breakout`
  unfoldable pub is_breakout : List (Candle F) → RegimeConfig F → Bool
  unfolding breaks_out
  is_breakout candles cfg =
      let start = length candles - cfg.breakout_lookback - 1 in
      breaks_out (drop start (init candles)) (last? candles)

  abbrev ratio_to : List F → F → F
  ratio_to window vol_now =
      let baseline = div (sum window) (of_int (length window)) in
      if ltb (length window) 2
      then lit 1 0
      else if eq baseline (lit 0 0)
      then lit 1 0
      else div vol_now baseline

  abbrev ratio_of : Option F → List F → Option F
  ratio_of none window = none
  ratio_of (some vol_now) window = some (ratio_to window vol_now)

  -- `_volatility_ratio`
  unfoldable pub volatility_ratio : List (Candle F) → RegimeConfig F → Option F
  volatility_ratio candles cfg =
      let vol = or_empty (realized_volatility (map (λ c. c.close) candles) cfg.vol_window) in
      ratio_of (last_value vol) (somes (drop (length candles - cfg.vol_baseline) vol))

  abbrev slope : Option F → Option F → Option F
  slope (some fast) (some slow) =
      if eq slow (lit 0 0) then none else some (div (sub fast slow) slow)
  slope _ _ = none

  -- `_trend`
  unfoldable pub trend : List (Candle F) → RegimeConfig F → Option F
  trend candles cfg =
      let closes = map (λ c. c.close) candles in
      slope (last_value (or_empty (ema closes cfg.ema_fast)))
        (last_value (or_empty (ema closes cfg.ema_slow)))

  unfoldable pub by_trend : RegimeConfig F → Option F → MarketRegime
  by_trend cfg none = MarketRegime.sideways
  by_trend cfg (some t) =
      if lt cfg.trend_threshold t
      then MarketRegime.trend_up
      else if lt t (neg cfg.trend_threshold)
      then MarketRegime.trend_down
      else MarketRegime.sideways

  unfoldable pub by_volatility : RegimeConfig F → Option F → MarketRegime → MarketRegime
  by_volatility cfg none rest = rest
  by_volatility cfg (some v) rest =
      if le cfg.high_vol_threshold v
      then MarketRegime.high_volatility
      else if le v cfg.low_vol_threshold
      then MarketRegime.low_volatility
      else rest

  -- `RegimeClassifier.classify`
  unfoldable pub classify : RegimeConfig F → List (Candle F) → Option MarketRegime
  unfolding by_trend by_volatility
  classify cfg candles =
      if ltb (length candles) 2
      then none
      else if is_breakout candles cfg
      then some MarketRegime.breakout
      else some
          (by_volatility cfg (volatility_ratio candles cfg) (by_trend cfg (trend candles cfg)))
