-- ===== src/Confirmation.antt =====
-- src/application/services/regime_confirmation.py: a regime counts as seen once it has held for a number
-- of candles in a row. The evidence is a dictionary in order of insertion.
pub mod Evidence
mod Examples
use self_evaluating_trading.Common.{
  ℕ, ◌+◌, ltb, ◌==◌, Bool, false, ◌&&◌, Option, none, some, List, [], ◌∷◌, if◌then◌else◌, is_some,
}
use self_evaluating_trading.Market.Regime.{MarketRegime}

pub record RegimeEvidence : Type 0 where
  pub name : MarketRegime
  pub first_seen_at_ms : ℕ
  pub confirmed_at_ms : ℕ
  pub last_seen_at_ms : ℕ
  pub confirmation_candles : ℕ

-- The symbol and the timeframe, which every item of evidence repeats, are left out.
pub record Tracker : Type 0 where
  pub confirmation_candles : ℕ
  pub pending_name : Option MarketRegime
  pub pending_first_seen_at_ms : Option ℕ
  pub pending_count : ℕ
  pub evidence : List RegimeEvidence
  pub rejected_candidates : ℕ

abbrev code : MarketRegime → ℕ
code MarketRegime.trend_up = 0
code MarketRegime.trend_down = 1
code MarketRegime.sideways = 2
code MarketRegime.high_volatility = 3
code MarketRegime.low_volatility = 4
code MarketRegime.breakout = 5

-- Equality of the names.
unfoldable pub same_regime : MarketRegime → MarketRegime → Bool
same_regime r q = code r == code q

-- `name == self._pending_name`
abbrev pub is_pending : MarketRegime → Option MarketRegime → Bool
is_pending r none = false
is_pending r (some q) = same_regime r q

-- `none` is the `ValueError`.
unfoldable pub new_tracker : ℕ → Option Tracker
new_tracker n =
    if ltb n 1
    then none
    else some (record {
      confirmation_candles = n;
      pending_name = none;
      pending_first_seen_at_ms = none;
      pending_count = 0;
      evidence = [];
      rejected_candidates = 0;
    })

unfoldable pub reset_pending : Bool → Tracker → Tracker
reset_pending rejected s = record s {
  pending_name = none;
  pending_first_seen_at_ms = none;
  pending_count = 0;
  rejected_candidates =
      if rejected && is_some s.pending_name
      then s.rejected_candidates + 1
      else s.rejected_candidates;
}

-- `a or b`, for an int that may be missing; zero is false
abbrev pub ts_or : Option ℕ → ℕ → ℕ
ts_or none b = b
ts_or (some a) b = if ltb 0 a then a else b

-- A new item of evidence, or a later sight of the old one.
unfoldable pub confirm : MarketRegime → ℕ → ℕ → ℕ → List RegimeEvidence → List RegimeEvidence
confirm r first ts n [] =
    record {
      name = r;
      first_seen_at_ms = first;
      confirmed_at_ms = ts;
      last_seen_at_ms = ts;
      confirmation_candles = n;
    }
    ∷ []
confirm r first ts n (e ∷ es) =
    if same_regime r e.name
    then record e { last_seen_at_ms = ts } ∷ es
    else e ∷ confirm r first ts n es

-- The regime that is pending after a candle of regime `r`.
unfoldable pub pend : MarketRegime → ℕ → Tracker → Tracker
unfolding reset_pending
pend r ts s =
    if is_pending r s.pending_name
    then record s { pending_count = s.pending_count + 1 }
    else record (reset_pending (ltb s.pending_count s.confirmation_candles) s) {
      pending_name = some r;
      pending_first_seen_at_ms = some ts;
      pending_count = 1;
    }

unfoldable pub observe : Option MarketRegime → ℕ → Tracker → Tracker
unfolding pend
observe none ts s = reset_pending (ltb s.pending_count s.confirmation_candles) s
observe (some r) ts s =
    let p = pend r ts s in
    if ltb p.pending_count p.confirmation_candles then p else record p {
      evidence =
          confirm r (ts_or p.pending_first_seen_at_ms ts) ts p.confirmation_candles p.evidence;
    }
