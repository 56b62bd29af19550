-- ===== src/Portfolio.antt =====
-- src/domain/portfolio/portfolio.py: the long-only spot account. A method returns the new account;
-- `none` is the `ValueError` of a purchase that exceeds the cash.
pub mod Ledger
mod Examples
use self_evaluating_trading.Common.{ℕ, ◌||◌, Option, none, some, List, [], ◌∷◌, ◌++◌, if◌then◌else◌}
use self_evaluating_trading.Floating.{Floating, min, or_zero}
use self_evaluating_trading.Trading.{Fill}

pub record Trade (F : Type 0) : Type 0 where
  pub entry_ts : ℕ
  pub exit_ts : ℕ
  pub entry_price : F
  pub exit_price : F
  pub quantity : F
  pub gross_pnl : F
  pub fees : F
  pub slippage : F
  pub net_pnl : F

pub record Portfolio (F : Type 0) : Type 0 where
  pub initial_cash : F
  pub cash : F
  pub position : F
  pub avg_entry : Option F
  pub entry_ts : Option ℕ
  pub realized_pnl : F
  pub total_fees : F
  pub total_slippage : F
  pub entry_fees : F
  pub entry_slippage : F
  pub trades : List (Trade F)

-- `self.entry_ts or 0`
abbrev pub ts_or_zero : Option ℕ → ℕ
ts_or_zero none = 0
ts_or_zero (some t) = t

module _ {F : Type 0} ⦃fl : Floating F⦄ where
  open fl use {lit, add, sub, mul, div, le, lt, eq}

  unfoldable pub new_portfolio : F → Portfolio F
  new_portfolio c = record {
    initial_cash = c;
    cash = c;
    position = lit 0 0;
    avg_entry = none;
    entry_ts = none;
    realized_pnl = lit 0 0;
    total_fees = lit 0 0;
    total_slippage = lit 0 0;
    entry_fees = lit 0 0;
    entry_slippage = lit 0 0;
    trades = [];
  }

  unfoldable pub apply_buy : Fill F → Portfolio F → Option (Portfolio F)
  apply_buy fill p =
      let total_cost = add fill.notional fill.fee in
      let flat = eq p.position (lit 0 0) in
      let average =
        div (add (mul (or_zero p.avg_entry) p.position) (mul fill.exec_price fill.quantity))
          (add p.position fill.quantity) in
      if le fill.quantity (lit 0 0)
      then some p
      else if lt (add p.cash (lit 1 9)) total_cost
      then none
      else some (record p {
        cash = sub p.cash total_cost;
        position = add p.position fill.quantity;
        avg_entry = if flat then some fill.exec_price else some average;
        entry_ts = if flat then some fill.timestamp_ms else p.entry_ts;
        total_fees = add p.total_fees fill.fee;
        total_slippage = add p.total_slippage fill.slippage_cost;
        entry_fees = add p.entry_fees fill.fee;
        entry_slippage = add p.entry_slippage fill.slippage_cost;
      })

  -- The quantity that a sale takes from the position, and the share of the fill that it is.
  unfoldable pub sold_quantity : Fill F → Portfolio F → F
  sold_quantity fill p = min fill.quantity p.position

  unfoldable pub sold_scale : Fill F → Portfolio F → F
  unfolding sold_quantity
  sold_scale fill p =
      if lt (lit 0 0) fill.quantity then div (sold_quantity fill p) fill.quantity else lit 0 0

  -- The trade that a sale closes.
  unfoldable pub closed_trade : Fill F → Portfolio F → Trade F
  unfolding sold_quantity sold_scale
  closed_trade fill p =
      let sold = sold_quantity fill p in
      let fraction = div sold p.position in
      let scale = sold_scale fill p in
      let gross = mul (sub fill.exec_price (or_zero p.avg_entry)) sold in
      let paid = add (mul p.entry_fees fraction) (mul fill.fee scale) in
      record {
        entry_ts = ts_or_zero p.entry_ts;
        exit_ts = fill.timestamp_ms;
        entry_price = or_zero p.avg_entry;
        exit_price = fill.exec_price;
        quantity = sold;
        gross_pnl = gross;
        fees = paid;
        slippage = add (mul p.entry_slippage fraction) (mul fill.slippage_cost scale);
        net_pnl = sub gross paid;
      }

  unfoldable pub apply_sell : Fill F → Portfolio F → Portfolio F
  apply_sell fill p =
      let sold = sold_quantity fill p in
      let fraction = div sold p.position in
      let scale = sold_scale fill p in
      let exit_fee = mul fill.fee scale in
      let left = sub p.position sold in
      let closed = le left (lit 1 12) in
      if le fill.quantity (lit 0 0) || le p.position (lit 0 0) then p else record p {
        cash = add p.cash (sub (mul fill.notional scale) exit_fee);
        position = if closed then lit 0 0 else left;
        avg_entry = if closed then none else p.avg_entry;
        entry_ts = if closed then none else p.entry_ts;
        realized_pnl = add p.realized_pnl (closed_trade fill p).net_pnl;
        total_fees = add p.total_fees exit_fee;
        total_slippage = add p.total_slippage (mul fill.slippage_cost scale);
        entry_fees = sub p.entry_fees (mul p.entry_fees fraction);
        entry_slippage = sub p.entry_slippage (mul p.entry_slippage fraction);
        trades = p.trades ++ (closed_trade fill p ∷ []);
      }

  unfoldable pub equity_at : F → Portfolio F → F
  equity_at price p = add p.cash (mul p.position price)
