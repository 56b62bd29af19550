-- ===== src/Memory/Leakage.antt =====
-- How the two guards of src/domain/memory/guards.py agree.
use self_evaluating_trading.Common.{ℕ, ◌<◌, ◌≡◌, ◌↔◌, refl, subst, arith, none, List, [], ◌∷◌, All}
use self_evaluating_trading.Memory.{TradingMemory, filter_leakage, assert_no_leakage}

module _ {F : Type 0} (ts : ℕ) where
  -- Every outcome was known before the decision.
  abbrev pub AllKnown : List (TradingMemory F) → Type 0
  AllKnown = All (λ m. m.outcome_timestamp_ms < ts)

  AllKnown-filter_leakage : (ms : List (TradingMemory F)) → AllKnown (filter_leakage ms ts)
  unfolding filter_leakage
  AllKnown-filter_leakage [] = tt
  AllKnown-filter_leakage (m ∷ ms) = ground (arith, AllKnown-filter_leakage ms)

  AllKnown-kept : (ms : List (TradingMemory F)) → AllKnown ms → filter_leakage ms ts ≡ ms
  unfolding filter_leakage
  AllKnown-kept [] h = refl
  AllKnown-kept (m ∷ ms) (h, hs) = ground (arith, AllKnown-kept ms hs)

  kept-AllKnown : (ms : List (TradingMemory F)) → filter_leakage ms ts ≡ ms → AllKnown ms
  kept-AllKnown ms e = subst AllKnown e (AllKnown-filter_leakage ms)

  asserted-AllKnown : (ms : List (TradingMemory F)) → assert_no_leakage ms ts ≡ none → AllKnown ms
  unfolding assert_no_leakage
  asserted-AllKnown [] h = tt
  asserted-AllKnown (m ∷ ms) h = ground (arith, asserted-AllKnown ms)

  AllKnown-asserted : (ms : List (TradingMemory F)) → AllKnown ms → assert_no_leakage ms ts ≡ none
  unfolding assert_no_leakage
  AllKnown-asserted [] h = refl
  AllKnown-asserted (m ∷ ms) (h, hs) = ground (arith, AllKnown-asserted ms hs)

  -- The assertion passes exactly for the memories that the filter leaves as they are, and it passes for
  -- what the filter returns, whatever it was given: there every outcome is strictly earlier than
  -- the decision.
  pub assert_no_leakage_iff :
      (ms : List (TradingMemory F))
      → ((assert_no_leakage ms ts ≡ none) ↔ (filter_leakage ms ts ≡ ms))
        × (assert_no_leakage (filter_leakage ms ts) ts ≡ none)
        × AllKnown (filter_leakage ms ts)
  assert_no_leakage_iff ms = (
    (
      λ h. AllKnown-kept ms (asserted-AllKnown ms h),
      λ e. AllKnown-asserted ms (kept-AllKnown ms e),
    ),
    AllKnown-asserted (filter_leakage ms ts) (AllKnown-filter_leakage ms),
    AllKnown-filter_leakage ms,
  )
