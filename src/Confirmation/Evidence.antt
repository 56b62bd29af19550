-- ===== src/Confirmation/Evidence.antt =====
-- What the evidence of src/application/services/regime_confirmation.py says of the observations.
use self_evaluating_trading.Common.{
  ℕ, ◌+◌, ◌≡◌, refl, leb, Bool, true, false, ◌&&◌, ◌||◌, Option, none, some, List, [], ◌∷◌, arith,
  if◌then◌else◌,
}
use self_evaluating_trading.Market.Regime.{MarketRegime}
use self_evaluating_trading.Confirmation.{
  Tracker, RegimeEvidence, observe, pend, reset_pending, confirm, same_regime, is_pending, ts_or,
  new_tracker,
}

-- What is observed of a candle: its regime, if it has one, and its time.
abbrev pub Sight : Type 0
Sight = Option MarketRegime × ℕ

-- The tracker after a history of observations, the latest first.
unfoldable pub observed : Tracker → List Sight → Tracker
observed s [] = s
observed s ((o, ts) ∷ h) = observe o ts (observed s h)

abbrev pub sees : MarketRegime → List Sight → Bool
sees r [] = false
sees r ((none, ts) ∷ h) = false
sees r ((some q, ts) ∷ h) = same_regime r q

-- How many of the latest observations in a row are of the latest regime.
unfoldable pub streak : List Sight → ℕ
streak [] = 0
streak ((none, ts) ∷ h) = 0
streak ((some r, ts) ∷ h) = let n = streak h in if sees r h then n + 1 else 1

-- Some time in the history the regime had been observed `n` times in a row.
unfoldable pub was_confirmed : ℕ → MarketRegime → List Sight → Bool
was_confirmed n r [] = false
was_confirmed n r (o ∷ h) = (sees r (o ∷ h) && leb n (streak (o ∷ h))) || was_confirmed n r h

abbrev pub has_evidence : MarketRegime → List RegimeEvidence → Bool
has_evidence r [] = false
has_evidence r (e ∷ es) = same_regime r e.name || has_evidence r es

same_regime-eq : (r q : MarketRegime) → same_regime r q ≡ true → r ≡ q
unfolding same_regime
same_regime-eq r q h = ground arith

same_regime_refl : (r : MarketRegime) → same_regime r r ≡ true
unfolding same_regime
same_regime_refl r = ground arith

has_evidence-confirm :
    (q r : MarketRegime) (first ts n : ℕ) (es : List RegimeEvidence)
    → has_evidence q (confirm r first ts n es) ≡ (same_regime q r || has_evidence q es)
unfolding confirm
has_evidence-confirm q r first ts n [] = refl
has_evidence-confirm q r first ts n (e ∷ es) =
    ground (arith, has_evidence-confirm q r first ts n es, same_regime-eq r e.name)

is_pending_other :
    (q r : MarketRegime) (o : Option MarketRegime)
    → is_pending r o ≡ true
    → is_pending q o ≡ same_regime q r
is_pending_other q r none h = cc
is_pending_other q r (some p) h = ground (arith, same_regime-eq r p)

-- The pending regime and its count are those of the latest observations.
record Follows (n : ℕ) (s : Tracker) (h : List Sight) : Type 0 where
  wanted : s.confirmation_candles ≡ n
  counted : s.pending_count ≡ streak h
  pending : (r : MarketRegime) → is_pending r s.pending_name ≡ sees r h

module _ (n : ℕ) where
  observe-Follows :
      (o : Option MarketRegime) (ts : ℕ) (s : Tracker) (h : List Sight)
      → Follows n s h
      → Follows n (observe o ts s) ((o, ts) ∷ h)
  unfolding observe pend reset_pending streak
  observe-Follows none ts s h f = record { wanted = f.wanted; counted = refl; pending = λ r. refl }
  observe-Follows (some r) ts s h f = record {
    wanted = ground (arith, f.wanted, f.counted, f.pending r);
    counted = ground (arith, f.wanted, f.counted, f.pending r);
    pending =
        λ q. ground (arith, f.wanted, f.counted, f.pending r, is_pending_other q r s.pending_name);
  }

  -- The evidence of `s` is of the regimes confirmed in the history.
  abbrev Records : Tracker → List Sight → Type 0
  Records s h = (q : MarketRegime) → has_evidence q s.evidence ≡ was_confirmed n q h

  observe-Records :
      (o : Option MarketRegime) (ts : ℕ) (s : Tracker) (h : List Sight)
      → Follows n s h
      → Records s h
      → Records (observe o ts s) ((o, ts) ∷ h)
  unfolding observe pend reset_pending streak was_confirmed
  observe-Records none ts s h f e = λ q. e q
  observe-Records (some r) ts s h f e = λ q.
      let p = pend r ts s in
      let first = ts_or p.pending_first_seen_at_ms ts in
      ground (
        arith,
        e q,
        f.wanted,
        f.counted,
        f.pending r,
        has_evidence-confirm q r first ts n s.evidence,
      )

  observed_lem :
      (h : List Sight) (s : Tracker)
      → Follows n s []
      → Records s []
      → Follows n (observed s h) h × Records (observed s h) h
  unfolding observed
  observed_lem [] s f e = (f, e)
  observed_lem ((o, ts) ∷ h) s f e =
      let (f', e') = observed_lem h s f e in
      (observe-Follows o ts (observed s h) h f', observe-Records o ts (observed s h) h f' e')

-- After any history of observations, a new tracker has evidence of a regime exactly when that regime
-- was observed, at some time, in as many candles in a row as the tracker was built to ask for.
pub evidence-eq-was_confirmed :
    (n : ℕ) (h : List Sight) (r : MarketRegime) {s : Tracker}
    → new_tracker n ≡ some s
    → has_evidence r (observed s h).evidence ≡ was_confirmed n r h
unfolding new_tracker was_confirmed
evidence-eq-was_confirmed n h r {s} e = (observed_lem n h s start (λ q. ground (arith, e))).1 r
  where
    start : Follows n s []
    start =
        unfold streak in
        record {
          wanted = ground (arith, e);
          counted = ground (arith, e);
          pending = λ q. ground (arith, e);
        }
