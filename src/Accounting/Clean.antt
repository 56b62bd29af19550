-- ===== src/Accounting/Clean.antt =====
-- Comparisons that find no difference (src/application/services/accounting_reconciliation.py).
use self_evaluating_trading.Common.{
  ◌≡◌, refl, true, Option, none, some, List, [], ◌∷◌, arith, All, ◌↔◌,
}
use self_evaluating_trading.Floating.{Floating}
use self_evaluating_trading.Accounting.{Decimals, IsZero, AccountingLedger, BookState}
use self_evaluating_trading.Accounting.Reconcile.{
  made, add_made, mismatched, verdict, Status, Component, Compared, Attempted,
}

module _ {F D : Type 0} ⦃fl : Floating F⦄ (dec : Decimals F D) where
  open dec use {is_zero, of_float}

  -- Every comparison is made, and none finds a difference.
  abbrev pub NoDelta : List (Attempted D) → Type 0
  NoDelta = All (λ c. IsZero dec c.1)

  -- A list that was made, and whether it has a mismatch.
  abbrev pub IsClean : Option (List (Compared D)) → Type 0
  IsClean none = ⊥
  IsClean (some cs) = mismatched dec cs ≡ []

  add_made-IsClean :
      (c : Component) (d : D) (o : Option (List (Compared D)))
      → IsClean (add_made dec (c, d) o) ↔ ((is_zero d ≡ true) × IsClean o)
  unfolding mismatched
  add_made-IsClean c d none = (λ e. absurd e, λ h. h.1)
  add_made-IsClean c d (some cs) = (λ e. ground (arith, e), λ h. ground (arith, h.0, h.1))

  pub made-IsClean : (xs : List (Attempted D)) → IsClean (made dec xs) ↔ NoDelta xs
  unfolding made mismatched
  made-IsClean [] = (λ e. tt, λ h. refl)
  made-IsClean ((c, none) ∷ xs) = (λ e. absurd e, λ h. h.0)
  made-IsClean ((c, some d) ∷ xs) =
      let ih = made-IsClean xs in
      let step = add_made-IsClean c d (made dec xs) in
      (λ e. let p = step.0 e in (p.0, ih.0 p.1), λ h. step.1 (h.0, ih.1 h.1))

  pub verdict-pass :
      (l : AccountingLedger D) (b : BookState D) (cs : List (Compared D))
      → ((verdict dec l b cs).status ≡ Status.pass) ↔ (mismatched dec cs ≡ [])
  unfolding verdict
  verdict-pass l b cs = (λ e. ground arith, λ e. rw (e, verdict) refl)

  pub found_clean :
      (o : Option (List (Compared D)))
      → IsClean o
      → (cs : List (Compared D)) × (o ≡ some cs) × (mismatched dec cs ≡ [])
  found_clean none h = absurd h
  found_clean (some cs) h = (cs, refl, h)
