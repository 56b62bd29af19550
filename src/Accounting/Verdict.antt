-- ===== src/Accounting/Verdict.antt =====
-- What the verdict of `reconcile_with_book` in
-- src/application/services/accounting_reconciliation.py means.
use self_evaluating_trading.Common.{
  ℕ, ◌≡◌, refl, ap, ◌∙◌, sym, true, Option, none, some, List, [], ◌++◌, arith, last?, ◌↔◌,
}
use mathlib.Core.Option.{some-injective}
use self_evaluating_trading.Floating.{Floating}
use self_evaluating_trading.Events.{PaperTradeEvent}
use self_evaluating_trading.Accounting.{
  Mirror, mirror_start, advance, sort_events, since, Decimals, IsExact, IsZero, AccountingLedger,
  BookState,
}
use self_evaluating_trading.Accounting.Reconcile.{
  resume, book_from_ledger, ledger_with, entry_decimal, ledger_from_state, reconcile, against,
  reconcile_from, judge, judged, made, comparisons, verdict, ReconciliationResult, Status, Compared,
  last_ts,
}
use self_evaluating_trading.Accounting.Sorted.{Before, After}
use self_evaluating_trading.Accounting.Resume.{Agrees, IsFlat, resume_lem}
use self_evaluating_trading.Accounting.Clean.{
  NoDelta, IsClean, made-IsClean, verdict-pass, found_clean,
}
use self_evaluating_trading.Accounting.Matched.{IsMatched, comparisons-NoDelta}

module _ {F D : Type 0} ⦃fl : Floating F⦄ (dec : Decimals F D) where
  open dec use {is_zero, of_float}

  reconcile_lem :
      (events : List (PaperTradeEvent F)) (capital : F) (mark : Option F) (b : BookState D) (c : ℕ)
      {full part : AccountingLedger D}
      → b.last_event_ms ≡ some c
      → ledger_from_state dec (advance (mirror_start capital) (sort_events events)) mark ≡ some full
      → ledger_from_state dec (advance (resume dec b) (since c (sort_events events))) mark
        ≡ some part
      → let final = advance (mirror_start capital) (sort_events events) in
        let last = last? (sort_events events) in
        reconcile dec events capital mark (some b)
        ≡ judged dec full
            (book_from_ledger dec full final.entry_fees (last_ts last))
            (made dec (comparisons dec full part last))
  unfolding reconcile reconcile_from against judge
  reconcile_lem events capital mark b c hb hf hp = rw (hf, reconcile_from, hb, against, hp, judge)

  status-judged :
      (l : AccountingLedger D) (b : BookState D) (o : Option (List (Compared D)))
      {r : ReconciliationResult D}
      → judged dec l b o ≡ some r
      → (r.status ≡ Status.pass) ↔ IsClean dec o
  status-judged l b none h = absurd (ground arith)
  status-judged l b (some cs) {r} h =
      let e : verdict dec l b cs ≡ r = some-injective _ _ h in
      let v = verdict-pass dec l b cs in
      (λ p. v.0 (ap (λ z. z.status) e ∙ p), λ c. ap (λ z. z.status) (sym e) ∙ v.1 c)

  -- Against a checkpoint with a cursor, where both reconstructions exist and no comparison raises, the verdict is
  -- PASS exactly when the full and the resumed reconstruction have the same cash, position, realised profit,
  -- fees and equity, the same average entry if both positions are above zero, and the last event, if there is
  -- one, carries that equity: every difference is found, and is zero.
  pub reconcile_pass_iff :
      (events : List (PaperTradeEvent F)) (capital : F) (mark : Option F) (b : BookState D) (c : ℕ)
      {full part : AccountingLedger D} {r : ReconciliationResult D}
      → b.last_event_ms ≡ some c
      → ledger_from_state dec (advance (mirror_start capital) (sort_events events)) mark ≡ some full
      → ledger_from_state dec (advance (resume dec b) (since c (sort_events events))) mark
        ≡ some part
      → reconcile dec events capital mark (some b) ≡ some r
      → (r.status ≡ Status.pass) ↔ IsMatched dec full part (last? (sort_events events))
  reconcile_pass_iff events capital mark b c {full} {part} {r} hb hf hp hr =
      let cs = comparisons dec full part (last? (sort_events events)) in
      let final = advance (mirror_start capital) (sort_events events) in
      let book =
        book_from_ledger dec full final.entry_fees (last_ts (last? (sort_events events))) in
      let e : judged dec full book (made dec cs) ≡ some r =
        sym (reconcile_lem events capital mark b c hb hf hp) ∙ hr in
      let v = status-judged full book (made dec cs) e in
      let m = made-IsClean dec cs in
      let n = comparisons-NoDelta dec full part (last? (sort_events events)) in
      (λ h. n.0 (m.0 (v.0 h)), λ h. v.1 (m.1 (n.1 h)))

  abbrev EntryFinite : Option F → Type 0
  EntryFinite none = Unit
  EntryFinite (some a) = dec.finite a ≡ true

  -- The state and its equity are finite.
  pub record IsFinite (m : Mirror F) (worth : F) : Type 0 where
    pub cash_finite : dec.finite m.cash ≡ true
    pub position_finite : dec.finite m.position ≡ true
    pub average_finite : EntryFinite m.avg_entry
    pub realized_finite : dec.finite m.realized_pnl ≡ true
    pub fees_finite : dec.finite m.total_fees ≡ true
    pub worth_finite : dec.finite worth ≡ true

  ledger_from_state-Agrees :
      (m n : Mirror F) (mark : Option F)
      → Agrees m n
      → ledger_from_state dec n mark ≡ ledger_from_state dec m mark
  unfolding ledger_from_state
  ledger_from_state-Agrees m n none h = ground arith
  ledger_from_state-Agrees m n (some a) h = ground arith

  module _ (exact : IsExact dec) where
    open exact use {delta_self, delta_zero}

    entry_delta :
        (o : Option F)
        → EntryFinite o
        → IsZero dec (dec.delta (entry_decimal dec o) (entry_decimal dec o))
    entry_delta none h = delta_zero
    entry_delta (some a) h = delta_self a h

    comparisons_self :
        (m : Mirror F) (worth : F) (e : PaperTradeEvent F)
        → IsFinite m worth
        → of_float e.equity ≡ of_float worth
        → NoDelta dec (comparisons dec (ledger_with dec m worth) (ledger_with dec m worth) (some e))
    unfolding comparisons
    comparisons_self m worth e h live = ground (
      arith,
      delta_self m.cash h.cash_finite,
      delta_self m.position h.position_finite,
      entry_delta m.avg_entry h.average_finite,
      delta_self m.realized_pnl h.realized_finite,
      delta_self m.total_fees h.fees_finite,
      delta_self worth h.worth_finite,
    )

    -- A reconciliation of untouched events against the checkpoint of the earlier ones passes: if the events
    -- after the cursor are added, the state of the earlier ones is flat exactly when it has no entry
    -- price, every compared number is finite and the last event carries the reconstructed equity,
    -- then `reconcile_with_book` returns PASS with no mismatch.
    pub reconcile_passes :
        (capital equity worth : F) (c : ℕ) (old new : List (PaperTradeEvent F)) (mark : Option F)
        (e : PaperTradeEvent F)
        → Before c old
        → After c new
        → IsFlat dec exact (advance (mirror_start capital) (sort_events old))
        → IsFinite (advance (mirror_start capital) (sort_events (old ++ new))) worth
        → ledger_from_state dec (advance (mirror_start capital) (sort_events (old ++ new))) mark
          ≡ some (ledger_with dec (advance (mirror_start capital) (sort_events (old ++ new))) worth)
        → last? (sort_events (old ++ new)) ≡ some e
        → of_float e.equity ≡ of_float worth
        → let past = advance (mirror_start capital) (sort_events old) in
          let book = book_from_ledger dec (ledger_with dec past equity) past.entry_fees (some c) in
          (r : ReconciliationResult D) × (reconcile dec (old ++ new) capital mark (some book)
            ≡ some r)
          × (r.status ≡ Status.pass)
          × (r.mismatches ≡ [])
    unfolding book_from_ledger
    reconcile_passes capital equity worth c old new mark e h k flat fin hf hl live =
        let past = advance (mirror_start capital) (sort_events old) in
        let book = book_from_ledger dec (ledger_with dec past equity) past.entry_fees (some c) in
        let ordered = sort_events (old ++ new) in
        let all = advance (mirror_start capital) ordered in
        let ledger = ledger_with dec all worth in
        let rest = advance (resume dec book) (since c ordered) in
        let same = resume_lem dec exact capital equity c old new h k flat in
        let hp = ledger_from_state-Agrees all rest mark same ∙ hf in
        let cs = comparisons dec ledger ledger (last? ordered) in
        let next = book_from_ledger dec ledger all.entry_fees (last_ts (last? ordered)) in
        let (found, made_all, clean) =
          found_clean dec (made dec cs)
            ((made-IsClean dec cs).1 (rw hl (comparisons_self all worth e fin live))) in
        (
          verdict dec ledger next found,
          reconcile_lem (old ++ new) capital mark book c refl hf hp
              ∙ ap (judged dec ledger next) made_all,
          (verdict-pass dec ledger next found).1 clean,
          unfold verdict in rw (clean, verdict) refl,
        )
