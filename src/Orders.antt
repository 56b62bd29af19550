-- ===== src/Orders.antt =====
-- src/domain/trading/order.py: the local state of an order that was sent to the exchange. The random
-- key of a new order request is an argument.
pub mod Reports
use self_evaluating_trading.Common.{Bool, true, false, Option, none, some, String, if◌then◌else◌}
use self_evaluating_trading.Floating.{Floating, max}

pub data OrderStatus : Type 0 where
  new partially_filled filled cancelled rejected : OrderStatus

-- `status in OrderStatus.terminal_states()`
abbrev pub is_terminal_status : OrderStatus → Bool
is_terminal_status OrderStatus.new = false
is_terminal_status OrderStatus.partially_filled = false
is_terminal_status OrderStatus.filled = true
is_terminal_status OrderStatus.cancelled = true
is_terminal_status OrderStatus.rejected = true

pub record TrackedOrder (F : Type 0) : Type 0 where
  pub order_link_id : String
  pub symbol : String
  pub status : OrderStatus
  pub cumulative_qty : F
  pub avg_price : Option F
  pub exchange_order_id : String

abbrev pub or_earlier {ℓ} : {A : Type ℓ} → Option A → Option A → Option A
or_earlier (some a) old = some a
or_earlier none old = old

module _ {F : Type 0} ⦃fl : Floating F⦄ where
  unfoldable pub is_terminal : TrackedOrder F → Bool
  is_terminal o = is_terminal_status o.status

  -- `none` is the `ValueError`.
  unfoldable pub update_order :
      OrderStatus → F → Option F → TrackedOrder F → Option (TrackedOrder F)
  update_order status cumulative_qty avg_price o =
      if is_terminal o
      then none
      else some (record o {
        status = status;
        cumulative_qty = max o.cumulative_qty cumulative_qty;
        avg_price = or_earlier avg_price o.avg_price;
      })

  unfoldable pub replace_status : OrderStatus → TrackedOrder F → TrackedOrder F
  replace_status status o = record o { status = status }
