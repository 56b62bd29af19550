-- ===== src/Accounting/Replica.antt =====
-- The mirror of src/application/services/accounting_reconciliation.py against the account of
-- src/domain/portfolio/portfolio.py: the same operations on the same operands, so the same bits.
use self_evaluating_trading.Common.{◌≡◌, some, arith}
use self_evaluating_trading.Floating.{Floating, or_zero}
use self_evaluating_trading.Trading.{Fill}
use self_evaluating_trading.Portfolio.{
  Portfolio, apply_buy, apply_sell, sold_quantity, sold_scale, closed_trade,
}
use self_evaluating_trading.Accounting.{Mirror, Leg, mirror_buy, mirror_sell, entry_or_zero}

module _ {F : Type 0} ⦃fl : Floating F⦄ where
  -- The part of the account that the mirror follows.
  unfoldable pub view : Portfolio F → Mirror F
  view p = record {
    cash = p.cash;
    position = p.position;
    avg_entry = p.avg_entry;
    entry_fees = p.entry_fees;
    entry_slippage = p.entry_slippage;
    realized_pnl = p.realized_pnl;
    total_fees = p.total_fees;
    total_slippage = p.total_slippage;
  }

  -- The fields of a fill that its event keeps.
  abbrev pub leg : Fill F → Leg F
  leg f = record {
    exec_price = f.exec_price;
    quantity = f.quantity;
    fee = f.fee;
    slippage_cost = f.slippage_cost;
  }

  -- The notional of a fill is its quantity at its execution price.
  abbrev pub IsPriced : Fill F → Type 0
  IsPriced f = f.notional ≡ fl.mul f.quantity f.exec_price

  -- `or 0.0` does not replace the average entry: it is no zero of negative sign.
  abbrev pub IsPlain : Portfolio F → Type 0
  IsPlain p = or_zero p.avg_entry ≡ entry_or_zero p.avg_entry

  -- A purchase that the account accepts moves its view as the mirror's purchase moves the mirror.
  pub view-apply_buy :
      (f : Fill F) (p : Portfolio F) {q : Portfolio F}
      → IsPriced f
      → IsPlain p
      → apply_buy f p ≡ some q
      → view q ≡ mirror_buy (leg f) (view p)
  unfolding view apply_buy mirror_buy
  view-apply_buy f p h n e = ground (arith, h, n)

  -- A sale moves the view of the account as the mirror's sale moves the mirror.
  pub view-apply_sell :
      (f : Fill F) (p : Portfolio F)
      → IsPriced f
      → IsPlain p
      → view (apply_sell f p) ≡ mirror_sell (leg f) (view p)
  unfolding view apply_sell mirror_sell sold_quantity sold_scale closed_trade
  view-apply_sell f p h n = rw (h, n) (ground arith)
