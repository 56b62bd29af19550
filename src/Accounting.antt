-- ===== src/Accounting.antt =====
-- src/application/services/accounting_reconciliation.py: the account rebuilt from the persisted events
-- alone, in full and from a checkpoint. `Decimal` is no code of the repository: the conversions
-- and the comparison that the module makes with it are an interface. A `none` is the
-- `MissingMarkError`.
pub mod Reconcile
pub mod Sorted
pub mod Replica
pub mod Resume
pub mod Clean
pub mod Matched
pub mod Verdict
mod Examples
use self_evaluating_trading.Common.{
  ℕ, ltb, leb, Bool, true, ◌&&◌, ◌||◌, Option, none, some, List, [], ◌∷◌, ◌≡◌, if◌then◌else◌,
}
use self_evaluating_trading.Floating.{Floating, min}
use self_evaluating_trading.Trading.{Action}
use self_evaluating_trading.Events.{PaperTradeEvent}

-- The state of the mirror, a tuple in the source.
pub record Mirror (F : Type 0) : Type 0 where
  pub cash : F
  pub position : F
  pub avg_entry : Option F
  pub entry_fees : F
  pub entry_slippage : F
  pub realized_pnl : F
  pub total_fees : F
  pub total_slippage : F

-- A fill, as its event has it.
pub record Leg (F : Type 0) : Type 0 where
  pub exec_price : F
  pub quantity : F
  pub fee : F
  pub slippage_cost : F

module _ {F : Type 0} ⦃fl : Floating F⦄ where
  open fl use {lit, add, sub, mul, div, le, lt, eq}

  unfoldable pub mirror_start : F → Mirror F
  mirror_start c = record {
    cash = c;
    position = lit 0 0;
    avg_entry = none;
    entry_fees = lit 0 0;
    entry_slippage = lit 0 0;
    realized_pnl = lit 0 0;
    total_fees = lit 0 0;
    total_slippage = lit 0 0;
  }

  -- `avg_entry if avg_entry is not None else 0.0`
  abbrev pub entry_or_zero : Option F → F
  entry_or_zero none = lit 0 0
  entry_or_zero (some a) = a

  -- `_apply_buy`
  unfoldable pub mirror_buy : Leg F → Mirror F → Mirror F
  mirror_buy e m =
      let average =
        div (add (mul (entry_or_zero m.avg_entry) m.position) (mul e.exec_price e.quantity))
          (add m.position e.quantity) in
      if le e.quantity (lit 0 0) then m else record m {
        cash = sub m.cash (add (mul e.quantity e.exec_price) e.fee);
        position = add m.position e.quantity;
        avg_entry = if eq m.position (lit 0 0) then some e.exec_price else some average;
        entry_fees = add m.entry_fees e.fee;
        entry_slippage = add m.entry_slippage e.slippage_cost;
        total_fees = add m.total_fees e.fee;
        total_slippage = add m.total_slippage e.slippage_cost;
      }

  -- `_apply_sell`
  unfoldable pub mirror_sell : Leg F → Mirror F → Mirror F
  mirror_sell e m =
      let sold = min e.quantity m.position in
      let fraction = div sold m.position in
      let allocated_fees = mul m.entry_fees fraction in
      let allocated_slippage = mul m.entry_slippage fraction in
      let scale = if lt (lit 0 0) e.quantity then div sold e.quantity else lit 0 0 in
      let exit_fee = mul e.fee scale in
      let exit_slippage = mul e.slippage_cost scale in
      let gross = mul (sub e.exec_price (entry_or_zero m.avg_entry)) sold in
      let net = sub gross (add allocated_fees exit_fee) in
      let left = sub m.position sold in
      let closed = le left (lit 1 12) in
      if le e.quantity (lit 0 0) || le m.position (lit 0 0) then m else record m {
        cash = add m.cash (sub (mul (mul e.quantity e.exec_price) scale) exit_fee);
        position = if closed then lit 0 0 else left;
        avg_entry = if closed then none else m.avg_entry;
        entry_fees = sub m.entry_fees allocated_fees;
        entry_slippage = sub m.entry_slippage allocated_slippage;
        realized_pnl = add m.realized_pnl net;
        total_fees = add m.total_fees exit_fee;
        total_slippage = add m.total_slippage exit_slippage;
      }

  -- The fill of an event, if it has one.
  abbrev pub leg_of : Bool → Option F → Option F → F → F → Option (Leg F)
  leg_of true (some e) (some q) f c =
      some (record { exec_price = e; quantity = q; fee = f; slippage_cost = c })
  leg_of _ _ _ f c = none

  unfoldable pub advance_leg : Action → Option (Leg F) → Mirror F → Mirror F
  advance_leg a none m = m
  advance_leg a (some leg) m = elim a [
    | Action.buy ↦ mirror_buy leg m
    | Action.sell ↦ mirror_sell leg m
    | Action.hold ↦ m
  ]

  unfoldable pub advance_event : PaperTradeEvent F → Mirror F → Mirror F
  advance_event e =
      advance_leg e.action (leg_of e.filled e.exec_price e.quantity e.fee e.slippage_cost)

  -- `_advance`
  unfoldable pub advance : Mirror F → List (PaperTradeEvent F) → Mirror F
  advance m [] = m
  advance m (e ∷ es) = advance (advance_event e m) es

-- Python's `sorted` by the timestamp, which is stable.
module _ {F : Type 0} where
  unfoldable pub place : PaperTradeEvent F → List (PaperTradeEvent F) → List (PaperTradeEvent F)
  place e [] = e ∷ []
  place e (d ∷ ds) = if leb e.timestamp_ms d.timestamp_ms then e ∷ d ∷ ds else d ∷ place e ds

  unfoldable pub sort_events : List (PaperTradeEvent F) → List (PaperTradeEvent F)
  sort_events [] = []
  sort_events (e ∷ es) = place e (sort_events es)

  -- The events after the cursor.
  unfoldable pub since : ℕ → List (PaperTradeEvent F) → List (PaperTradeEvent F)
  since cursor [] = []
  since cursor (e ∷ es) = if ltb cursor e.timestamp_ms then e ∷ since cursor es else since cursor es

-- What the module does with `Decimal`: `of_float` is `Decimal(str(x))`, `delta` is `abs(a - b)`. It is `none`
-- where the subtraction raises `InvalidOperation`, and where the difference is a NaN, which is not zero and
-- makes `max(deltas)` raise it.
pub record Decimals (F D : Type 0) : Type 0 where
  pub of_float : F → D
  pub to_float : D → F
  pub zero : D
  pub delta : D → D → Option D
  pub is_zero : D → Bool
  pub is_positive : D → Bool
  pub larger : D → D → D
  pub finite : F → Bool

-- A difference that was found and is zero.
abbrev pub IsZero : {F D : Type 0} → Decimals F D → Option D → Type 0
IsZero dec none = ⊥
IsZero dec (some d) = dec.is_zero d ≡ true

-- The documented behaviour: `str` of a float reads back as that float, and a finite number differs
-- from itself by zero.
pub record IsExact {F D : Type 0} (d : Decimals F D) : Type 0 where
  pub to_float-of_float : (a : F) → d.to_float (d.of_float a) ≡ a
  pub delta_self : (a : F) → d.finite a ≡ true → IsZero d (d.delta (d.of_float a) (d.of_float a))
  pub delta_zero : IsZero d (d.delta d.zero d.zero)

pub record AccountingLedger (D : Type 0) : Type 0 where
  pub cash : D
  pub position_qty : D
  pub average_entry : D
  pub realized_pnl : D
  pub fees : D
  pub reconstructed_equity : D

pub record BookState (D : Type 0) : Type 0 where
  pub cash : D
  pub position_qty : D
  pub average_entry : Option D
  pub realized_pnl : D
  pub fees : D
  pub equity : D
  pub entry_fees : D
  pub last_event_ms : Option ℕ
