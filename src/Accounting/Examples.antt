-- ===== src/Accounting/Examples.antt =====
-- A concrete ledger of events, on fixed-point numbers, whose decimals are these numbers themselves.
use self_evaluating_trading.Common.{
  ℕ, ◌≡◌, ◌↔◌, refl, arith, Bool, true, false, none, some, List, [], ◌∷◌, ◌++◌, last?,
  if◌then◌else◌,
}
use self_evaluating_trading.Floating.Fixed.{Fixed, fixed_floating}
use self_evaluating_trading.Trading.{Action, Fill}
use self_evaluating_trading.Risk.Engine.{Reason}
use self_evaluating_trading.Portfolio.{Portfolio, apply_buy}
use self_evaluating_trading.Paper.{ExitReason}
use self_evaluating_trading.Events.{PaperTradeEvent}
use self_evaluating_trading.Accounting.{
  Decimals, IsExact, Mirror, AccountingLedger, BookState, mirror_start, mirror_buy, mirror_sell,
  advance, advance_event, advance_leg, sort_events, place, since,
}
use self_evaluating_trading.Accounting.Reconcile.{
  reconcile, reconcile_from, against, judge, verdict, made, comparisons, resume, book_from_ledger,
  ledger_with, ledger_from_state, ReconciliationResult, Status,
}
use self_evaluating_trading.Accounting.Resume.{Agrees, resume_lem, IsFlat}
use self_evaluating_trading.Accounting.Matched.{IsMatched}
use self_evaluating_trading.Accounting.Verdict.{reconcile_pass_iff, reconcile_passes, IsFinite}

abbrev num : ℕ → Fixed
num n = fixed_floating.lit n 0

abbrev is_nil : Fixed → Bool
is_nil a = fixed_floating.eq a (num 0)

abbrev decimals : Decimals Fixed Fixed
decimals = record {
  of_float = λ a. a;
  to_float = λ a. a;
  zero = num 0;
  delta = λ a b. some (fixed_floating.abs (fixed_floating.sub a b));
  is_zero = is_nil;
  is_positive = λ a. fixed_floating.lt (num 0) a;
  larger = λ a b. if fixed_floating.lt a b then b else a;
  finite = λ a. true;
}

decimals-IsExact : IsExact decimals
decimals-IsExact = record {
  to_float-of_float = λ a. refl;
  delta_self = λ a h. ground arith;
  delta_zero = refl;
}

abbrev account : Portfolio Fixed
account = record {
  initial_cash = num 1000;
  cash = num 900;
  position = num 2;
  avg_entry = some (num 50);
  entry_ts = some 1;
  realized_pnl = num 0;
  total_fees = num 0;
  total_slippage = num 0;
  entry_fees = num 0;
  entry_slippage = num 0;
  trades = [];
}

abbrev order : Action → ℕ → Fill Fixed
order a q = record {
  timestamp_ms = 3;
  action = a;
  price = num 60;
  exec_price = num 60;
  quantity = num q;
  notional = fixed_floating.mul (num q) (num 60);
  fee = num 1;
  slippage_cost = num 0;
}

-- One more at 60 for a fee of one: an average of 160 / 3, rounded as the numbers are.
abbrev larger_account : Portfolio Fixed
larger_account = record account {
  cash = num 839;
  position = num 3;
  avg_entry = some (fixed_floating.div (num 160) (num 3));
  total_fees = num 1;
  entry_fees = num 1;
}

bought : apply_buy (order Action.buy 1) account ≡ some larger_account
unfolding apply_buy
bought = refl

-- An event that fills at 50 for a fee of one.
abbrev event : Action → ℕ → ℕ → PaperTradeEvent Fixed
event a ts equity = record {
  session_id = "s";
  strategy_version = "v";
  strategy_hash = "h";
  decision_source = "strategy";
  symbol = "BTCUSDT";
  timeframe = "15m";
  timestamp_ms = ts;
  action = a;
  filled = true;
  risk_reason = Reason.nothing;
  exit_reason = ExitReason.nothing;
  exec_price = some (num 50);
  quantity = some (num 1);
  fee = num 1;
  slippage_cost = num 0;
  equity = num equity;
  kill_switch_active = false;
  decision_context = none;
}

abbrev old : List (PaperTradeEvent Fixed)
old = event Action.buy 2 998 ∷ event Action.buy 1 999 ∷ []

-- They arrive in the wrong order.
abbrev new : List (PaperTradeEvent Fixed)
new = event Action.sell 9 996 ∷ event Action.sell 8 997 ∷ []

abbrev past : Mirror Fixed
past = advance (mirror_start (num 1000)) (sort_events old)

past-IsFlat : IsFlat decimals decimals-IsExact past
unfolding advance advance_event advance_leg sort_events place mirror_start mirror_buy
past-IsFlat = refl

abbrev book : BookState Fixed
book = book_from_ledger decimals (ledger_with decimals past (num 998)) past.entry_fees (some 2)

resume_lem_example :
    Agrees
      (advance (mirror_start (num 1000)) (sort_events (old ++ new)))
      (advance (resume decimals book) (since 2 (sort_events (old ++ new))))
resume_lem_example =
    resume_lem decimals decimals-IsExact (num 1000) (num 998) 2 old new
      (omega arith, (omega arith, tt)) (omega arith, (omega arith, tt)) past-IsFlat

abbrev final : Mirror Fixed
final = advance (mirror_start (num 1000)) (sort_events (old ++ new))

final-IsFinite : IsFinite decimals final (num 996)
unfolding advance advance_event advance_leg sort_events place mirror_start mirror_buy mirror_sell
final-IsFinite = record {
  cash_finite = refl;
  position_finite = refl;
  average_finite = tt;
  realized_finite = refl;
  fees_finite = refl;
  worth_finite = refl;
}

final_ledger : ledger_from_state decimals final none ≡ some (ledger_with decimals final (num 996))
unfolding ledger_from_state advance advance_event advance_leg sort_events place mirror_start
    mirror_buy mirror_sell
final_ledger = refl

final_last : last? (sort_events (old ++ new)) ≡ some (event Action.sell 9 996)
unfolding sort_events place
final_last = refl

reconcile_passes_example :
    (r : ReconciliationResult Fixed) × (reconcile decimals (old ++ new) (num 1000) none (some book)
      ≡ some r)
    × (r.status ≡ Status.pass)
    × (r.mismatches ≡ [])
reconcile_passes_example =
    reconcile_passes decimals decimals-IsExact (num 1000) (num 998) (num 996) 2 old new none
      (event Action.sell 9 996) (omega arith, (omega arith, tt)) (omega arith, (omega arith, tt))
      past-IsFlat final-IsFinite final_ledger final_last refl

-- A checkpoint whose cash is wrong.
abbrev wrong_book : BookState Fixed
wrong_book = record {
  cash = num 890;
  position_qty = num 2;
  average_entry = some (num 50);
  realized_pnl = num 0;
  fees = num 2;
  equity = num 998;
  entry_fees = num 2;
  last_event_ms = some 2;
}

abbrev full_ledger : AccountingLedger Fixed
full_ledger = record {
  cash = num 996;
  position_qty = num 0;
  average_entry = num 0;
  realized_pnl = fixed_floating.neg (num 4);
  fees = num 4;
  reconstructed_equity = num 996;
}

abbrev part_ledger : AccountingLedger Fixed
part_ledger = record full_ledger { cash = num 988; reconstructed_equity = num 988 }

full_eq : ledger_from_state decimals final none ≡ some full_ledger
unfolding ledger_from_state advance advance_event advance_leg sort_events place mirror_start
    mirror_buy mirror_sell
full_eq = refl

part_eq :
    ledger_from_state decimals
      (advance (resume decimals wrong_book) (since 2 (sort_events (old ++ new))))
      none
    ≡ some part_ledger
unfolding ledger_from_state advance advance_event advance_leg sort_events place since resume
    mirror_start mirror_buy mirror_sell
part_eq = refl

abbrev refusal : ReconciliationResult Fixed
refusal =
    verdict decimals full_ledger (book_from_ledger decimals full_ledger final.entry_fees (some 9))
      (elim (made decimals
        (comparisons decimals full_ledger part_ledger (some (event Action.sell 9 996)))) [
          | none ↦ []
          | some cs ↦ cs
        ])

refused : reconcile decimals (old ++ new) (num 1000) none (some wrong_book) ≡ some refusal
unfolding reconcile reconcile_from against judge made comparisons ledger_from_state advance
    advance_event advance_leg sort_events place since resume mirror_start mirror_buy mirror_sell
refused = refl

reconcile_pass_iff_example :
    (refusal.status ≡ Status.pass)
    ↔ IsMatched decimals full_ledger part_ledger (last? (sort_events (old ++ new)))
reconcile_pass_iff_example =
    reconcile_pass_iff decimals (old ++ new) (num 1000) none wrong_book 2 refl full_eq part_eq
      refused
