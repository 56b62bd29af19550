-- ===== src/Backtest/Causality.antt =====
-- No lookahead in src/application/services/backtest_engine.py.
use self_evaluating_trading.Common.{
  ℕ, ◌≡◌, refl, ◌∙◌, ap, sym, Option, none, some, List, [], ◌∷◌, ◌++◌,
}
use self_evaluating_trading.Floating.{Floating}
use self_evaluating_trading.Market.Candle.{Candle}
use self_evaluating_trading.Portfolio.{Portfolio}
use self_evaluating_trading.Backtest.{
  Plan, Loop, start, settle, observe_candle, observed, bar, go_on, run_from, run_loop,
}

module _ {F S : Type 0} ⦃fl : Floating F⦄ (plan : Plan F S) where
  -- The account at the end, where the loop did not raise.
  abbrev pub account_of : Option (Loop F S) → Option (Portfolio F)
  account_of none = none
  account_of (some l) = some l.portfolio

  go_on-append :
      (cs ds : List (Candle F)) (o : Option (Loop F S))
      → ((l : Loop F S)
          → run_from plan (cs ++ ds) l ≡ go_on plan (run_from plan ds) (run_from plan cs l))
      → go_on plan (run_from plan (cs ++ ds)) o
        ≡ go_on plan (run_from plan ds) (go_on plan (run_from plan cs) o)
  go_on-append cs ds none ih = refl
  go_on-append cs ds (some l) ih = ih l

  pub run_from-append :
      (cs ds : List (Candle F)) (l : Loop F S)
      → run_from plan (cs ++ ds) l ≡ go_on plan (run_from plan ds) (run_from plan cs l)
  unfolding run_from
  run_from-append [] ds l = refl
  run_from-append (c ∷ cs) ds l = go_on-append cs ds (bar plan c l) (run_from-append cs ds)

  account-observed :
      (c : Candle F) (o : Option (Loop F S)) → account_of (observed plan c o) ≡ account_of o
  unfolding observe_candle
  account-observed c none = refl
  account-observed c (some l) = refl

  account-go_on : (o : Option (Loop F S)) → account_of (go_on plan (λ l. some l) o) ≡ account_of o
  account-go_on none = refl
  account-go_on (some l) = refl

  -- The loop up to the last candle, and the execution of the pending signal at its open.
  abbrev settled : F → ℕ → Option (Loop F S) → Option (Loop F S)
  settled price ts = go_on plan (λ l. settle plan price ts l.pending l)

  account-last :
      (c : Candle F) (o : Option (Loop F S))
      → account_of (go_on plan (run_from plan (c ∷ [])) o)
        ≡ account_of (settled c.open_price c.timestamp_ms o)
  unfolding run_from bar
  account-last c none = refl
  account-last c (some l) =
      account-go_on (bar plan c l)
      ∙ account-observed c (settle plan c.open_price c.timestamp_ms l.pending l)

  account_lem :
      (cs : List (Candle F)) (c : Candle F)
      → account_of (run_loop plan (cs ++ (c ∷ [])))
        ≡ account_of (settled c.open_price c.timestamp_ms (run_loop plan cs))
  unfolding run_loop
  account_lem cs c =
      ap account_of (run_from-append cs (c ∷ []) (start plan))
      ∙ account-last c (run_from plan cs (start plan))

  -- The account at the end of a series depends on its last candle by the opening price and the timestamp
  -- only: two series that differ in the rest of their last candle end with the same account, or
  -- both raise.
  pub run_loop_causal :
      (cs : List (Candle F)) (c d : Candle F)
      → c.open_price ≡ d.open_price
      → c.timestamp_ms ≡ d.timestamp_ms
      → account_of (run_loop plan (cs ++ (c ∷ []))) ≡ account_of (run_loop plan (cs ++ (d ∷ [])))
  run_loop_causal cs c d p t =
      account_lem cs c
      ∙ ap (λ q. account_of (settled q c.timestamp_ms (run_loop plan cs))) p
      ∙ ap (λ u. account_of (settled d.open_price u (run_loop plan cs))) t
      ∙ sym (account_lem cs d)
