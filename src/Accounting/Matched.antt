-- ===== src/Accounting/Matched.antt =====
-- Two reconstructions that are the same (src/application/services/accounting_reconciliation.py).
use self_evaluating_trading.Common.{
  Bool, false, ◌&&◌, if◌then◌else◌, true, Option, none, some, List, [], ◌∷◌, ◌++◌, ◌↔◌,
}
use self_evaluating_trading.Floating.{Floating}
use self_evaluating_trading.Events.{PaperTradeEvent}
use self_evaluating_trading.Accounting.{Decimals, IsZero, AccountingLedger}
use self_evaluating_trading.Accounting.Reconcile.{comparisons, Component, Attempted}
use self_evaluating_trading.Accounting.Clean.{NoDelta}

module _ {F D : Type 0} ⦃fl : Floating F⦄ (dec : Decimals F D) where
  open dec use {is_zero, of_float}

  -- Two decimals whose difference is found and is zero.
  abbrev pub IsSame : D → D → Type 0
  IsSame a b = IsZero dec (dec.delta a b)

  abbrev pub WhereOpen : Bool → Type 0 → Type 0
  WhereOpen true P = P
  WhereOpen false P = Unit

  abbrev pub IsLive : D → Option (PaperTradeEvent F) → Type 0
  IsLive worth none = Unit
  IsLive worth (some e) = IsSame worth (of_float e.equity)

  -- The two reconstructions are the same, and the last event carries their equity.
  pub record IsMatched (full part : AccountingLedger D) (last : Option (PaperTradeEvent F))
      : Type 0 where
    pub cash_same : IsSame full.cash part.cash
    pub position_same : IsSame full.position_qty part.position_qty
    pub entry_same :
        WhereOpen
          (dec.is_positive full.position_qty && dec.is_positive part.position_qty)
          (IsSame full.average_entry part.average_entry)
    pub realized_same : IsSame full.realized_pnl part.realized_pnl
    pub fees_same : IsSame full.fees part.fees
    pub equity_same : IsSame full.reconstructed_equity part.reconstructed_equity
    pub live_same : IsLive full.reconstructed_equity last

  over_entries :
      (b : Bool) (x : Attempted D) (xs : List (Attempted D))
      → NoDelta dec ((if b then x ∷ [] else []) ++ xs)
        ↔ (WhereOpen b (IsZero dec x.1) × NoDelta dec xs)
  over_entries true x xs = (λ h. h, λ h. h)
  over_entries false x xs = (λ h. (tt, h), λ h. h.1)

  at_end :
      (worth : D) (last : Option (PaperTradeEvent F))
      → NoDelta dec (elim last as (λ x. List (Attempted D)) [
        | none ↦ []
        | some e ↦ (Component.equity, dec.delta worth (of_float e.equity)) ∷ []
      ])
        ↔ IsLive worth last
  at_end worth none = (λ h. tt, λ h. tt)
  at_end worth (some e) = (λ h. h.0, λ h. (h, tt))

  pub comparisons-NoDelta :
      (full part : AccountingLedger D) (last : Option (PaperTradeEvent F))
      → NoDelta dec (comparisons dec full part last) ↔ IsMatched full part last
  unfolding comparisons
  comparisons-NoDelta full part last =
      let en =
        over_entries (dec.is_positive full.position_qty && dec.is_positive part.position_qty)
          (Component.average_entry, dec.delta full.average_entry part.average_entry) _ in
      let live = at_end full.reconstructed_equity last in
      (
        λ h.
            let t = en.0 h.1.1 in
            record {
              cash_same = h.0;
              position_same = h.1.0;
              entry_same = t.0;
              realized_same = t.1.0;
              fees_same = t.1.1.0;
              equity_same = t.1.1.1.0;
              live_same = live.0 t.1.1.1.1;
            },
        λ m. (
          m.cash_same,
          (
            m.position_same,
            en.1 (
              m.entry_same,
              (m.realized_same, (m.fees_same, (m.equity_same, live.1 m.live_same))),
            ),
          ),
        ),
      )
