-- ===== src/Accounting/Resume.antt =====
-- Resuming the mirror of src/application/services/accounting_reconciliation.py from a checkpoint.
use self_evaluating_trading.Common.{
  ℕ, ◌≡◌, refl, ap, not, Option, none, some, List, [], ◌∷◌, ◌++◌, arith, if◌then◌else◌, is_some,
}
use self_evaluating_trading.Floating.{Floating}
use self_evaluating_trading.Trading.{Action}
use self_evaluating_trading.Events.{PaperTradeEvent}
use self_evaluating_trading.Accounting.{
  Mirror, Leg, mirror_start, mirror_buy, mirror_sell, advance, advance_event, advance_leg, leg_of,
  sort_events, since, Decimals, IsExact,
}
use self_evaluating_trading.Accounting.Reconcile.{
  resume, book_from_ledger, ledger_with, entry_decimal,
}
use self_evaluating_trading.Accounting.Sorted.{Before, After, sort_events-append, since-sort_events}

-- Two states agree but for the slippage totals, which no cash flow reads.
pub record Agrees {F : Type 0} (m n : Mirror F) : Type 0 where
  pub cash_same : n.cash ≡ m.cash
  pub position_same : n.position ≡ m.position
  pub entry_same : n.avg_entry ≡ m.avg_entry
  pub fees_same : n.entry_fees ≡ m.entry_fees
  pub realized_same : n.realized_pnl ≡ m.realized_pnl
  pub total_same : n.total_fees ≡ m.total_fees

module _ {F : Type 0} ⦃fl : Floating F⦄ where
  pub advance-append :
      (m : Mirror F) (es ds : List (PaperTradeEvent F))
      → advance m (es ++ ds) ≡ advance (advance m es) ds
  unfolding advance
  advance-append m [] ds = refl
  advance-append m (e ∷ es) ds = advance-append (advance_event e m) es ds

  mirror_buy-Agrees :
      (leg : Leg F) (m n : Mirror F) → Agrees m n → Agrees (mirror_buy leg m) (mirror_buy leg n)
  unfolding mirror_buy
  mirror_buy-Agrees leg m n h = ground arith

  mirror_sell-Agrees :
      (leg : Leg F) (m n : Mirror F) → Agrees m n → Agrees (mirror_sell leg m) (mirror_sell leg n)
  unfolding mirror_sell
  mirror_sell-Agrees leg m n h = ground arith

  advance_leg-Agrees :
      (a : Action) (o : Option (Leg F)) (m n : Mirror F)
      → Agrees m n
      → Agrees (advance_leg a o m) (advance_leg a o n)
  unfolding advance_leg
  advance_leg-Agrees a none m n h = h
  advance_leg-Agrees Action.buy (some leg) m n h = mirror_buy-Agrees leg m n h
  advance_leg-Agrees Action.sell (some leg) m n h = mirror_sell-Agrees leg m n h
  advance_leg-Agrees Action.hold (some leg) m n h = h

  pub advance-Agrees :
      (es : List (PaperTradeEvent F)) (m n : Mirror F)
      → Agrees m n
      → Agrees (advance m es) (advance n es)
  unfolding advance advance_event
  advance-Agrees [] m n h = h
  advance-Agrees (e ∷ es) m n h = advance-Agrees es (advance_event e m) (advance_event e n) (
      advance_leg-Agrees e.action (leg_of e.filled e.exec_price e.quantity e.fee e.slippage_cost) m
        n h)

module _ {F D : Type 0} ⦃fl : Floating F⦄ (dec : Decimals F D) (exact : IsExact dec) where
  -- The decimal of the position is zero exactly when there is no average entry.
  abbrev pub IsFlat : Mirror F → Type 0
  IsFlat m = dec.is_zero (dec.of_float m.position) ≡ not (is_some m.avg_entry)

  resume-Agrees :
      (m : Mirror F) (equity : F) (c : Option ℕ)
      → IsFlat m
      → Agrees m (resume dec (book_from_ledger dec (ledger_with dec m equity) m.entry_fees c))
  unfolding resume book_from_ledger
  resume-Agrees m equity c h = record {
    cash_same = exact.to_float-of_float m.cash;
    position_same = exact.to_float-of_float m.position;
    entry_same = entry m.avg_entry h;
    fees_same = exact.to_float-of_float m.entry_fees;
    realized_same = exact.to_float-of_float m.realized_pnl;
    total_same = exact.to_float-of_float m.total_fees;
  }
    where
      entry :
          (o : Option F)
          → dec.is_zero (dec.of_float m.position) ≡ not (is_some o)
          → (elim (if dec.is_zero (dec.of_float m.position)
                then none
                else some (entry_decimal dec o))
              as (λ x. Option F) [ none ↦ none | some a ↦ some (dec.to_float a) ])
            ≡ o
      entry none e = rw e refl
      entry (some a) e = rw e (ap some (exact.to_float-of_float a))

  -- Resuming from the checkpoint of the earlier events and replaying those after its cursor ends, but for
  -- the slippage totals, where the replay of all events ends, if the events up to the cursor are the
  -- earlier ones and the decimal of the position that these leave is zero exactly when they leave no
  -- average entry, with the documented exactness of `Decimal`. The events after the cursor may come in any order.
  pub resume_lem :
      (capital equity : F) (c : ℕ) (old new : List (PaperTradeEvent F))
      → Before c old
      → After c new
      → IsFlat (advance (mirror_start capital) (sort_events old))
      → let past = advance (mirror_start capital) (sort_events old) in
        Agrees (advance (mirror_start capital) (sort_events (old ++ new))) (
          advance
            (resume dec
              (book_from_ledger dec (ledger_with dec past equity) past.entry_fees (some c)))
            (since c (sort_events (old ++ new))))
  resume_lem capital equity c old new h k flat =
      let past = advance (mirror_start capital) (sort_events old) in
      rw
        (
          since-sort_events c old new h k,
          sort_events-append c old new h k,
          advance-append (mirror_start capital) (sort_events old) (sort_events new),
        )
        (advance-Agrees (sort_events new) past
          (resume dec (book_from_ledger dec (ledger_with dec past equity) past.entry_fees (some c)))
          (resume-Agrees past equity (some c) flat))
