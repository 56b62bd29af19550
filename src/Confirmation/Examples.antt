-- ===== src/Confirmation/Examples.antt =====
-- A concrete history of regimes.
use self_evaluating_trading.Common.{◌≡◌, refl, none, some, List, [], ◌∷◌}
use self_evaluating_trading.Market.Regime.{MarketRegime}
use self_evaluating_trading.Confirmation.{Tracker, new_tracker}
use self_evaluating_trading.Confirmation.Evidence.{
  Sight, observed, was_confirmed, has_evidence, evidence-eq-was_confirmed,
}

abbrev tracker : Tracker
tracker = record {
  confirmation_candles = 2;
  pending_name = none;
  pending_first_seen_at_ms = none;
  pending_count = 0;
  evidence = [];
  rejected_candidates = 0;
}

-- The latest first: a break, and two in a row before it.
abbrev history : List Sight
history =
    (none, 4)
    ∷ (some MarketRegime.breakout, 3)
    ∷ (some MarketRegime.breakout, 2)
    ∷ (some MarketRegime.sideways, 1)
    ∷ []

tracker_eq : new_tracker 2 ≡ some tracker
unfolding new_tracker
tracker_eq = refl

evidence-eq-was_confirmed_example :
    has_evidence MarketRegime.breakout (observed tracker history).evidence
    ≡ was_confirmed 2 MarketRegime.breakout history
evidence-eq-was_confirmed_example =
    evidence-eq-was_confirmed 2 history MarketRegime.breakout tracker_eq
