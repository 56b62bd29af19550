-- ===== src/Backtest/Counts.antt =====
-- What the loop of src/application/services/backtest_engine.py counts, and the ledger of its account.
use self_evaluating_trading.Common.{
  subst, sym, ap, ◌∙◌, ◌⊎◌, true, ◌++◌, Bool-cases, Option-cases, inl, inr, ℕ, ◌+◌, ◌≤◌, ◌≡◌, refl,
  arith, Option, none, some, List, [], ◌∷◌, length, length-append,
}
use self_evaluating_trading.Floating.{Floating, IsOrdered}
use self_evaluating_trading.Trading.{Action, fill_buy, fill_sell}
use self_evaluating_trading.Market.Candle.{Candle}
use self_evaluating_trading.Strategy.{Signal}
use self_evaluating_trading.Portfolio.{Portfolio, apply_buy, equity_at}
use self_evaluating_trading.Backtest.Causality.{run_from-append}
use self_evaluating_trading.Portfolio.Ledger.{
  IsBooked, new_portfolio-IsBooked, apply_buy-IsBooked, apply_sell-IsBooked, or_keep, apply_fills,
}
use self_evaluating_trading.Backtest.{
  Plan, Loop, start, divides_by_zero, execute, note_bars, noted, settle, observe_candle, observed,
  bar, go_on, run_from, run_loop,
}

module _ {F S : Type 0} ⦃fl : Floating F⦄ (laws : IsOrdered F) (plan : Plan F S) where
  -- After `n` candles: one equity for each, no more signals or open bars than candles, and an account
  -- whose realised profit is its ledger's.
  pub record IsCounted (n : ℕ) (l : Loop F S) : Type 0 where
    pub marked : length l.equity ≡ n
    pub signals_le : l.signals ≤ n
    pub open_bars_le : l.open_bars ≤ n
    pub booked : IsBooked l.portfolio

  -- A purchase of all the cash, its fee included, that raises: it divides by zero, or the account refuses it.
  abbrev pub IsRefused : F → ℕ → Portfolio F → Type 0
  IsRefused price ts p =
      (divides_by_zero plan price p.cash ≡ true)
      ⊎ (apply_buy (fill_buy plan.fees plan.slippage ts price p.cash) p ≡ none)

  -- The pending signal of a loop is a purchase that raises at the open of a candle.
  abbrev pub Stops : Candle F → Loop F S → Type 0
  Stops c l =
      (sig : Signal) × (l.pending ≡ some sig)
      × (sig.action ≡ Action.buy)
      × IsRefused c.open_price c.timestamp_ms l.portfolio

  -- The candle of a series at which a loop stops, with the loop before it.
  abbrev pub Refusal : List (Candle F) → Loop F S → Type 0
  Refusal cs l =
      (past : List (Candle F)) × (c : Candle F) × (rest : List (Candle F)) × (k : Loop F S) × (cs
        ≡ past ++ (c ∷ rest))
      × (run_from plan past l ≡ some k)
      × Stops c k

  abbrev pub Counted : ℕ → List (Candle F) → Loop F S → Option (Loop F S) → Type 0
  Counted n cs l none = Refusal cs l
  Counted n cs l (some k) = IsCounted n k

  abbrev Booked : Type 0 → Option (Portfolio F) → Type 0
  Booked R none = R
  Booked R (some p) = IsBooked p

  abbrev Kept : Type 0 → ℕ → Option (Loop F S) → Type 0
  Kept R n none = R
  Kept R n (some l) = IsCounted n l

  apply_buy-Booked :
      (R : Type 0) (price : F) (ts : ℕ) (p : Portfolio F)
      → (apply_buy (fill_buy plan.fees plan.slippage ts price p.cash) p ≡ none → R)
      → IsBooked p
      → Booked R (apply_buy (fill_buy plan.fees plan.slippage ts price p.cash) p)
  apply_buy-Booked R price ts p why h =
      let fill = fill_buy plan.fees plan.slippage ts price p.cash in
      elim (Option-cases (apply_buy fill p)) [
        | inl e ↦ let r = why e in rw e r
        | inr (q, e) ↦ rw e (subst (λ o. IsBooked (or_keep p o)) e (apply_buy-IsBooked fill p h))
      ]

  execute-Booked :
      (R : Type 0) (a : Action) (price : F) (ts : ℕ) (p : Portfolio F)
      → (a ≡ Action.buy → IsRefused price ts p → R)
      → IsBooked p
      → Booked R (execute plan a price ts p)
  unfolding execute
  execute-Booked R Action.buy price ts p why h =
      elim (Bool-cases (divides_by_zero plan price p.cash)) [
        | inl e ↦ let r = why refl (inl e) in rw e r
        | inr e ↦ rw e (apply_buy-Booked R price ts p (λ x. why refl (inr x)) h)
      ]
  execute-Booked R Action.sell price ts p why h =
      let sold =
        apply_sell-IsBooked laws (fill_sell plan.fees plan.slippage ts price p.position) p h in
      elim (Bool-cases (fl.lt (fl.lit 0 0) p.position)) [ inl e ↦ rw e sold | inr e ↦ rw e h ]
  execute-Booked R Action.hold price ts p why h = h

  noted-Kept :
      (R : Type 0) (n : ℕ) (a : Action) (l : Loop F S) (o : Option (Portfolio F))
      → IsCounted n l
      → Booked R o
      → Kept R n (noted plan a l o)
  unfolding note_bars
  noted-Kept R n a l none h b = b
  noted-Kept R n a l (some p) h b = record {
    marked = h.marked;
    signals_le = h.signals_le;
    open_bars_le = h.open_bars_le;
    booked = b;
  }

  settle-Kept :
      (n : ℕ) (c : Candle F) (o : Option Signal) (l : Loop F S)
      → l.pending ≡ o
      → IsCounted n l
      → Kept (Stops c l) n (settle plan c.open_price c.timestamp_ms o l)
  unfolding settle
  settle-Kept n c none l e h = h
  settle-Kept n c (some sig) l e h =
      noted-Kept (Stops c l) n sig.action l
        (execute plan sig.action c.open_price c.timestamp_ms l.portfolio) h
        (execute-Booked (Stops c l) sig.action c.open_price c.timestamp_ms l.portfolio
          (λ b r. (sig, e, b, r)) h.booked)

  observed-Kept :
      (R : Type 0) (n : ℕ) (c : Candle F) (o : Option (Loop F S))
      → Kept R n o
      → Kept R (n + 1) (observed plan c o)
  unfolding observe_candle
  observed-Kept R n c none h = h
  observed-Kept R n c (some l) h =
      let longer = length-append l.equity (equity_at c.close l.portfolio ∷ []) in
      record {
        marked = omega (arith, longer, h.marked);
        signals_le = ground (arith, h.signals_le);
        open_bars_le = ground (arith, h.open_bars_le);
        booked = h.booked;
      }

  -- A stop at the first candle, and one after it.
  raises_here :
      (c : Candle F) (cs : List (Candle F)) (l : Loop F S) → Stops c l → Refusal (c ∷ cs) l
  unfolding run_from
  raises_here c cs l s = ([], c, cs, l, refl, refl, s)

  raises_there :
      (n : ℕ) (c : Candle F) (cs : List (Candle F)) (l k : Loop F S) (o : Option (Loop F S))
      → bar plan c l ≡ some k
      → Counted n cs k o
      → Counted n (c ∷ cs) l o
  unfolding run_from
  raises_there n c cs l k (some z) e h = h
  raises_there n c cs l k none e (past, d, rest, z, split, run, s) =
      (c ∷ past, d, rest, z, ap (λ x. c ∷ x) split, ap (go_on plan (run_from plan past)) e ∙ run, s)

  go_on-Counted :
      (n : ℕ) (c : Candle F) (cs : List (Candle F)) (l : Loop F S) (o : Option (Loop F S))
      → bar plan c l ≡ o
      → ((k : Loop F S)
          → IsCounted (n + 1) k
          → Counted ((n + 1) + length cs) cs k (run_from plan cs k))
      → Kept (Stops c l) (n + 1) o
      → Counted ((n + 1) + length cs) (c ∷ cs) l (go_on plan (run_from plan cs) o)
  go_on-Counted n c cs l none e ih h = raises_here c cs l h
  go_on-Counted n c cs l (some k) e ih h = raises_there _ c cs l k _ e (ih k h)

  run_from-Counted :
      (n : ℕ) (cs : List (Candle F)) (l : Loop F S)
      → IsCounted n l
      → Counted (n + length cs) cs l (run_from plan cs l)
  unfolding run_from bar
  run_from-Counted n [] l h = subst (λ m. IsCounted m l) (omega arith) h
  run_from-Counted n (c ∷ cs) l h =
      let next : Kept (Stops c l) (n + 1) (bar plan c l) =
        observed-Kept (Stops c l) n c (settle plan c.open_price c.timestamp_ms l.pending l)
          (settle-Kept n c l.pending l refl h) in
      subst (λ m. Counted m (c ∷ cs) l (go_on plan (run_from plan cs) (bar plan c l))) (omega arith)
        (go_on-Counted n c cs l (bar plan c l) refl (run_from-Counted (n + 1) cs) next)

  execute-refused :
      (price : F) (ts : ℕ) (p : Portfolio F)
      → IsRefused price ts p
      → execute plan Action.buy price ts p ≡ none
  unfolding execute
  execute-refused price ts p (inl e) = rw e refl
  execute-refused price ts p (inr e) = elim (Bool-cases (divides_by_zero plan price p.cash)) [
    | inl d ↦ rw d refl
    | inr d ↦ rw (d, e) refl
  ]

  bar_raises : (c : Candle F) (k : Loop F S) → Stops c k → bar plan c k ≡ none
  unfolding bar settle
  bar_raises c k (sig, pends, buys, refused) =
      let none_left = execute-refused c.open_price c.timestamp_ms k.portfolio refused in
      rw (pends, buys, none_left) refl

  loop_raises : (cs : List (Candle F)) (l : Loop F S) → Refusal cs l → run_from plan cs l ≡ none
  unfolding run_from
  loop_raises cs l (past, c, rest, k, split, run, s) =
      ap (λ ds. run_from plan ds l) split
      ∙ run_from-append plan past (c ∷ rest) l
      ∙ ap (go_on plan (run_from plan (c ∷ rest))) run
      ∙ ap (go_on plan (run_from plan rest)) (bar_raises c k s)

  -- How the loop over a series ends: it raises at a candle, or there is no such candle and it has counted.
  abbrev pub IsEnded : ℕ → List (Candle F) → Loop F S → Option (Loop F S) → Type 0
  IsEnded n cs l none = Refusal cs l
  IsEnded n cs l (some k) = IsCounted n k × ¬ (Refusal cs l)

  ended :
      (n : ℕ) (cs : List (Candle F)) (l : Loop F S) (o : Option (Loop F S))
      → run_from plan cs l ≡ o
      → Counted n cs l o
      → IsEnded n cs l o
  ended n cs l none e h = h
  ended n cs l (some k) e h =
      (h, λ r. let clash = sym e ∙ loop_raises cs l r in absurd (ground (arith, clash)))

  -- The loop over a series raises exactly at a candle such that the loop over the candles before it ends with a
  -- purchase pending, and this purchase of all the cash of its account at the candle's open divides by zero or is
  -- refused by the account. If there is none, it has marked the equity once for each candle, has counted no more
  -- signals and no more bars with an open position than candles, and its account is in order: its realised profit
  -- is, to the last bit, the sum over the ledger of trades, and the entry is there whenever a position is.
  pub run_loop-Counted :
      (cs : List (Candle F)) → IsEnded (length cs) cs (start plan) (run_loop plan cs)
  unfolding run_loop start apply_fills
  run_loop-Counted cs =
      let add_zero : 0 + length cs ≡ length cs = omega arith in
      ended (length cs) cs (start plan) (run_loop plan cs) refl (
        subst (λ m. Counted m cs (start plan) (run_from plan cs (start plan))) add_zero
          (run_from-Counted 0 cs (start plan) (record {
            marked = refl;
            signals_le = omega arith;
            open_bars_le = omega arith;
            booked = new_portfolio-IsBooked laws plan.initial_cash [];
          })))
