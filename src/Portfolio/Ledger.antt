-- ===== src/Portfolio/Ledger.antt =====
-- The trade ledger of src/domain/portfolio/portfolio.py against the account's totals, over any
-- sequence of fills.
use mathlib.Core.List.{foldl-append}
use self_evaluating_trading.Common.{
  ◌≡◌, refl, true, Option, none, some, List, [], ◌∷◌, ◌++◌, ◌||◌, foldl, arith, is_some,
}
use self_evaluating_trading.Floating.{Floating, IsOrdered}
use self_evaluating_trading.Trading.{Fill, Action}
use self_evaluating_trading.Portfolio.{
  Portfolio, Trade, new_portfolio, apply_buy, apply_sell, closed_trade,
}

module _ {F : Type 0} ⦃fl : Floating F⦄ where
  open fl use {lit, add, eq}

  -- A purchase that raises leaves the account as it is.
  abbrev pub or_keep : Portfolio F → Option (Portfolio F) → Portfolio F
  or_keep p none = p
  or_keep p (some q) = q

  -- A fill is applied by its action.
  unfoldable pub apply_fill : Fill F → Portfolio F → Portfolio F
  apply_fill fill p = elim fill.action [
    | Action.buy ↦ or_keep p (apply_buy fill p)
    | Action.sell ↦ apply_sell fill p
    | Action.hold ↦ p
  ]

  unfoldable pub apply_fills : List (Fill F) → Portfolio F → Portfolio F
  unfolding apply_fill
  apply_fills [] p = p
  apply_fills (f ∷ fs) p = apply_fills fs (apply_fill f p)

  -- The profit of a list of trades, in the order in which they were closed.
  abbrev pub profit : List (Trade F) → F
  profit = foldl (λ acc t. add acc t.net_pnl) (lit 0 0)

  -- The realised profit is the ledger's, to the last bit; an average entry is there exactly when an
  -- entry time is, and both are whenever the position is not zero.
  pub record IsBooked (p : Portfolio F) : Type 0 where
    pub realized : p.realized_pnl ≡ profit p.trades
    pub entered : is_some p.avg_entry ≡ is_some p.entry_ts
    pub held : (eq p.position (lit 0 0) || is_some p.entry_ts) ≡ true

  profit-append :
      (ts : List (Trade F)) (t : Trade F) → profit (ts ++ (t ∷ [])) ≡ add (profit ts) t.net_pnl
  profit-append ts t = foldl-append (λ acc u. add acc u.net_pnl) (lit 0 0) ts (t ∷ [])

  pub apply_buy-IsBooked :
      (fill : Fill F) (p : Portfolio F) → IsBooked p → IsBooked (or_keep p (apply_buy fill p))
  unfolding apply_buy
  apply_buy-IsBooked fill p h = ground arith

  module _ (laws : IsOrdered F) where
    open laws use {lit_le, eq_refl, le_of_eq}

    pub apply_sell-IsBooked :
        (fill : Fill F) (p : Portfolio F) → IsBooked p → IsBooked (apply_sell fill p)
    unfolding apply_sell
    apply_sell-IsBooked fill p h = record {
      realized = ground (arith, h.realized, profit-append p.trades (closed_trade fill p));
      entered = ground arith;
      held = ground (arith, h.held, lit_le 0 0 0, eq_refl (lit 0 0), le_of_eq p.position (lit 0 0));
    }

    apply_fill-IsBooked :
        (fill : Fill F) (p : Portfolio F) → IsBooked p → IsBooked (apply_fill fill p)
    unfolding apply_fill
    apply_fill-IsBooked fill p h =
        elim fill.action
          as (λ a. IsBooked (elim a [
            | Action.buy ↦ or_keep p (apply_buy fill p)
            | Action.sell ↦ apply_sell fill p
            | Action.hold ↦ p
          ])) [
            | Action.buy ↦ apply_buy-IsBooked fill p h
            | Action.sell ↦ apply_sell-IsBooked fill p h
            | Action.hold ↦ h
          ]

    apply_fills-IsBooked :
        (fs : List (Fill F)) (p : Portfolio F) → IsBooked p → IsBooked (apply_fills fs p)
    unfolding apply_fills
    apply_fills-IsBooked [] p h = h
    apply_fills-IsBooked (f ∷ fs) p h =
        apply_fills-IsBooked fs (apply_fill f p) (apply_fill-IsBooked f p h)

    -- From a new account, after any sequence of fills, the realised profit is the sum of the net
    -- profits of the closed trades in their order, to the last bit; an average entry is there
    -- exactly when an entry time is, and both are whenever the position is not zero.
    pub new_portfolio-IsBooked :
        (c : F) (fs : List (Fill F)) → IsBooked (apply_fills fs (new_portfolio c))
    unfolding new_portfolio
    new_portfolio-IsBooked c fs = apply_fills-IsBooked fs (new_portfolio c) (record {
      realized = refl;
      entered = refl;
      held = ground (arith, lit_le 0 0 0, eq_refl (lit 0 0));
    })
