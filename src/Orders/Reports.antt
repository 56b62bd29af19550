-- ===== src/Orders/Reports.antt =====
-- What any sequence of reports does to an order of src/domain/trading/order.py.
use self_evaluating_trading.Common.{
  ◌≡◌, refl, ◌∙◌, arith, true, ◌||◌, not, Option, none, some, List, [], ◌∷◌, is_some,
}
use self_evaluating_trading.Floating.{Floating, IsOrdered, IsNum}
use self_evaluating_trading.Orders.{OrderStatus, TrackedOrder, is_terminal, update_order}

-- A report of the exchange: the status, the filled quantity and the average price.
abbrev pub Report : Type 0 → Type 0
Report F = OrderStatus × F × Option F

abbrev pub or_same {ℓ} : {A : Type ℓ} → A → Option A → A
or_same a none = a
or_same a (some b) = b

module _ {F : Type 0} ⦃fl : Floating F⦄ where
  -- The caller goes on after the exception of a terminal order.
  unfoldable pub reports : List (Report F) → TrackedOrder F → TrackedOrder F
  reports [] o = o
  reports ((s, q, p) ∷ rs) o = reports rs (or_same o (update_order s q p o))

  update_terminal :
      (s : OrderStatus) (q : F) (p : Option F) (o : TrackedOrder F)
      → is_terminal o ≡ true
      → or_same o (update_order s q p o) ≡ o
  unfolding update_order
  update_terminal s q p o h = ground arith

  -- A terminal order never changes again, whatever is reported.
  pub reports_terminal :
      (rs : List (Report F)) (o : TrackedOrder F) → is_terminal o ≡ true → reports rs o ≡ o
  unfolding reports
  reports_terminal [] o h = refl
  reports_terminal ((s, q, p) ∷ rs) o h =
      let same = update_terminal s q p o h in rw same (reports_terminal rs o h)

  -- What reports keep and what they only raise.
  pub record IsRaised (o n : TrackedOrder F) : Type 0 where
    pub link_kept : n.order_link_id ≡ o.order_link_id
    pub symbol_kept : n.symbol ≡ o.symbol
    pub filled_le : fl.le o.cumulative_qty n.cumulative_qty ≡ true
    pub priced : (not (is_some o.avg_price) || is_some n.avg_price) ≡ true

  update-IsRaised :
      (laws : IsOrdered F) (s : OrderStatus) (q : F) (p : Option F) (o : TrackedOrder F)
      → IsNum o.cumulative_qty
      → IsRaised o (or_same o (update_order s q p o))
  unfolding update_order
  update-IsRaised laws s q p o n = ground (arith, laws.le_of_lt o.cumulative_qty q)

  IsRaised-trans :
      (laws : IsOrdered F) (a b c : TrackedOrder F) → IsRaised a b → IsRaised b c → IsRaised a c
  IsRaised-trans laws a b c p q = record {
    link_kept = q.link_kept ∙ p.link_kept;
    symbol_kept = q.symbol_kept ∙ p.symbol_kept;
    filled_le =
        laws.le_trans a.cumulative_qty b.cumulative_qty c.cumulative_qty p.filled_le q.filled_le;
    priced = ground (arith, p.priced, q.priced);
  }

  -- Along any sequence of reports, in any order, late ones included, the order keeps its key and its symbol,
  -- its filled quantity, if it is a number, never falls, and an average price that is there stays
  -- there.
  pub reports-IsRaised :
      (laws : IsOrdered F) (rs : List (Report F)) (o : TrackedOrder F)
      → IsNum o.cumulative_qty
      → IsRaised o (reports rs o)
  unfolding reports
  reports-IsRaised laws [] o n = record {
    link_kept = refl;
    symbol_kept = refl;
    filled_le = n;
    priced = ground arith;
  }
  reports-IsRaised laws ((s, q, p) ∷ rs) o n =
      let o' = or_same o (update_order s q p o) in
      let one = update-IsRaised laws s q p o n in
      let n' = (laws.num_of_le o.cumulative_qty o'.cumulative_qty one.filled_le).1 in
      IsRaised-trans laws o o' (reports rs o') one (reports-IsRaised laws rs o' n')
