-- ===== src/Order/Reads.antt =====
-- What orders are read for (modules/billing/services/order.service.ts, getOrder and
-- getUserOrders, with the query of its repository).
use common_api.Base.{ℕ, Bool, true, false, ◌&&◌, List, Option, some, none, ◌==◌, or_default}
use common_api.Base.Pages.{page}
use common_api.Exceptions.{not_found}
use common_api.Action.{Action, or_throw}
use common_api.Order.Entities.{OrderStatus, pending, paid, refunded, Order, Shop}
use common_api.Order.Repository.{find_order}

abbrev pub same_order_status : OrderStatus → OrderStatus → Bool
same_order_status pending pending = true
same_order_status paid paid = true
same_order_status refunded refunded = true
same_order_status _ _ = false

abbrev pub has_order_status : Option OrderStatus → Order → Bool
has_order_status none o = true
has_order_status (some status) o = same_order_status o.status status

-- The `WHERE` of getUserOrders
abbrev pub is_order_of : ℕ → Option OrderStatus → Order → Bool
is_order_of user status o = o.user_id == user && has_order_status status o

-- OrderRepository.getUserOrders, without the products that it joins, under the order of
-- `ORDER BY order.createdAt DESC`.
unfoldable pub get_user_orders :
    (List Order → List Order) → ℕ → Option ℕ → Option ℕ → Option OrderStatus → Shop → List Order × ℕ
get_user_orders newest_orders user limit offset status s =
    page newest_orders (is_order_of user status) s.orders (or_default limit 20)
      (or_default offset 0)

-- OrderService.getOrder
unfoldable pub get_order : ℕ → Action Shop Order
get_order id s = (or_throw (find_order id s.orders) (not_found "Order not found"), s)
