-- ===== src/Accounting/Reconcile.antt =====
-- The conversion of the mirror to a ledger and the three-way comparison of
-- src/application/services/accounting_reconciliation.py.
use self_evaluating_trading.Common.{
  ℕ, not, ◌&&◌, Option, none, some, List, [], ◌∷◌, ◌++◌, if◌then◌else◌, last?,
}
use self_evaluating_trading.Floating.{Floating}
use self_evaluating_trading.Events.{PaperTradeEvent}
use self_evaluating_trading.Accounting.{
  Mirror, mirror_start, advance, sort_events, since, Decimals, AccountingLedger, BookState,
}

pub data Component : Type 0 where
  cash position_qty average_entry realized_pnl fees equity : Component

pub data Status : Type 0 where
  pass fail : Status

pub record ReconciliationResult (D : Type 0) : Type 0 where
  pub status : Status
  pub ledger : AccountingLedger D
  pub book : BookState D
  pub mismatches : List Component
  pub accounting_residual : D

-- A comparison that `_compare` is called for, and one that it has made: the component and the delta.
abbrev pub Attempted : Type 0 → Type 0
Attempted D = Component × Option D

abbrev pub Compared : Type 0 → Type 0
Compared D = Component × D

module _ {F : Type 0} where
  -- The timestamp of the last event.
  abbrev pub last_ts : Option (PaperTradeEvent F) → Option ℕ
  last_ts none = none
  last_ts (some e) = some e.timestamp_ms

module _ {F D : Type 0} ⦃fl : Floating F⦄ (dec : Decimals F D) where
  open fl use {lit, add, mul, eq}
  open dec use {of_float, to_float, delta, is_zero, is_positive, larger}

  abbrev pub entry_decimal : Option F → D
  entry_decimal none = dec.zero
  entry_decimal (some a) = of_float a

  abbrev pub ledger_with : Mirror F → F → AccountingLedger D
  ledger_with m worth = record {
    cash = of_float m.cash;
    position_qty = of_float m.position;
    average_entry = entry_decimal m.avg_entry;
    realized_pnl = of_float m.realized_pnl;
    fees = of_float m.total_fees;
    reconstructed_equity = of_float worth;
  }

  -- `_ledger_from_state`; `none` is the `MissingMarkError`, and later on that or an `InvalidOperation`
  unfoldable pub ledger_from_state : Mirror F → Option F → Option (AccountingLedger D)
  ledger_from_state m none =
      if not (eq m.position (lit 0 0)) then none else some (ledger_with m m.cash)
  ledger_from_state m (some mark) = some (
      ledger_with m
        (if not (eq m.position (lit 0 0)) then add m.cash (mul m.position mark) else m.cash))

  -- `_book_from_ledger`
  unfoldable pub book_from_ledger : AccountingLedger D → F → Option ℕ → BookState D
  book_from_ledger l entry_fees cursor = record {
    cash = l.cash;
    position_qty = l.position_qty;
    average_entry = if is_zero l.position_qty then none else some l.average_entry;
    realized_pnl = l.realized_pnl;
    fees = l.fees;
    equity = l.reconstructed_equity;
    entry_fees = of_float entry_fees;
    last_event_ms = cursor;
  }

  -- The mirror's state that a checkpoint stands for.
  unfoldable pub resume : BookState D → Mirror F
  resume b = record {
    cash = to_float b.cash;
    position = to_float b.position_qty;
    avg_entry = elim b.average_entry [ none ↦ none | some a ↦ some (to_float a) ];
    entry_fees = to_float b.entry_fees;
    entry_slippage = lit 0 0;
    realized_pnl = to_float b.realized_pnl;
    total_fees = to_float b.fees;
    total_slippage = lit 0 0;
  }

  -- The comparisons in the order of the source.
  unfoldable pub comparisons :
      AccountingLedger D → AccountingLedger D → Option (PaperTradeEvent F) → List (Attempted D)
  comparisons full part last =
      let entries : List (Attempted D) =
        if is_positive full.position_qty && is_positive part.position_qty
        then (Component.average_entry, delta full.average_entry part.average_entry) ∷ []
        else [] in
      let live : List (Attempted D) = elim last [
        | none ↦ []
        | some e ↦ (Component.equity, delta full.reconstructed_equity (of_float e.equity)) ∷ []
      ] in
      (Component.cash, delta full.cash part.cash)
      ∷ (Component.position_qty, delta full.position_qty part.position_qty)
      ∷ (entries
          ++ ((Component.realized_pnl, delta full.realized_pnl part.realized_pnl)
              ∷ (Component.fees, delta full.fees part.fees)
              ∷ (Component.equity, delta full.reconstructed_equity part.reconstructed_equity)
              ∷ live))

  -- All of them, unless one raises `InvalidOperation`.
  abbrev pub add_made : Compared D → Option (List (Compared D)) → Option (List (Compared D))
  add_made c none = none
  add_made c (some cs) = some (c ∷ cs)

  unfoldable pub made : List (Attempted D) → Option (List (Compared D))
  made [] = some []
  made ((c, none) ∷ xs) = none
  made ((c, some d) ∷ xs) = add_made (c, d) (made xs)

  -- The components whose delta is not zero.
  unfoldable pub mismatched : List (Compared D) → List Component
  mismatched [] = []
  mismatched ((c, d) ∷ cs) = if is_zero d then mismatched cs else c ∷ mismatched cs

  -- `max(deltas)`
  unfoldable pub largest : List (Compared D) → D
  largest [] = dec.zero
  largest ((c, d) ∷ []) = d
  largest ((c, d) ∷ e ∷ cs) = larger d (largest (e ∷ cs))

  unfoldable pub verdict :
      AccountingLedger D → BookState D → List (Compared D) → ReconciliationResult D
  verdict full book cs = elim (mismatched cs) [
    | [] ↦ record {
      status = Status.pass;
      ledger = full;
      book = book;
      mismatches = [];
      accounting_residual = dec.zero;
    }
    | c ∷ rest ↦ record {
      status = Status.fail;
      ledger = full;
      book = book;
      mismatches = c ∷ rest;
      accounting_residual = largest cs;
    }
  ]

  abbrev pub cursor_of : Option (BookState D) → Option ℕ
  cursor_of none = none
  cursor_of (some b) = b.last_event_ms

  abbrev pub judged :
      AccountingLedger D
      → BookState D
      → Option (List (Compared D))
      → Option (ReconciliationResult D)
  judged full book none = none
  judged full book (some cs) = some (verdict full book cs)

  -- The comparison with the checkpoint, once it has been resumed.
  unfoldable pub judge :
      List (PaperTradeEvent F)
      → AccountingLedger D
      → BookState D
      → Option (AccountingLedger D)
      → Option (ReconciliationResult D)
  judge ordered full book none = none
  judge ordered full book (some part) =
      judged full book (made (comparisons full part (last? ordered)))

  -- With no checkpoint, or one with no cursor, the full reconstruction becomes the checkpoint.
  unfoldable pub against :
      List (PaperTradeEvent F)
      → Option F
      → Option (BookState D)
      → Option ℕ
      → AccountingLedger D
      → BookState D
      → Option (ReconciliationResult D)
  against ordered mark (some b) (some c) full book =
      judge ordered full book (ledger_from_state (advance (resume b) (since c ordered)) mark)
  against ordered mark _ _ full book = some (verdict full book [])

  unfoldable pub reconcile_from :
      List (PaperTradeEvent F)
      → Mirror F
      → Option F
      → Option (BookState D)
      → Option (AccountingLedger D)
      → Option (ReconciliationResult D)
  reconcile_from ordered final mark previous none = none
  reconcile_from ordered final mark previous (some full) =
      against ordered mark previous (cursor_of previous) full
        (book_from_ledger full final.entry_fees (last_ts (last? ordered)))

  -- `reconcile_with_book`, on the checkpoint that `BookState.from_dict` has read
  unfoldable pub reconcile :
      List (PaperTradeEvent F)
      → F
      → Option F
      → Option (BookState D)
      → Option (ReconciliationResult D)
  reconcile events initial_capital mark previous =
      let ordered = sort_events events in
      let final = advance (mirror_start initial_capital) ordered in
      reconcile_from ordered final mark previous (ledger_from_state final mark)
