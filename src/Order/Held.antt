-- ===== src/Order/Held.antt =====
-- What a user holds: the balance of the wallet and the paid orders together.
use common_api.Base.{
  ℕ, ◌+◌, ◌≡◌, refl, ◌&&◌, List, [], ◌∷◌, ◌++◌, some, none, ◌==◌, if◌then◌else◌, total,
  total-append, arith,
}
use common_api.Base.Table.{find?, Distinct, Below, total-modify, find?-modify, find?-append_new}
use common_api.Wallet.Repository.{get_user_balance}
use common_api.Wallet.Valid.{IsValid}
use common_api.Wallet.Balance.{share}
use common_api.Order.Entities.{OrderStatus, pending, paid, refunded, Order, Shop}
use common_api.Order.Repository.{order_key, set_status, update_status, find_order}
use common_api.Order.Service.{is_paid}

-- What an order has taken from a user.
abbrev pub paid_amount : ℕ → Order → ℕ
paid_amount v o = if o.user_id == v && is_paid o.status then o.total_amount else 0

abbrev pub held : ℕ → Shop → ℕ
held v s = get_user_balance v s.wallet + total (paid_amount v) s.orders

pub record IsOpen (s : Shop) : Type 0 where
  pub wallet_valid : IsValid s.wallet
  pub orders_distinct : Distinct order_key s.orders
  pub orders_below : Below order_key s.next_order_id s.orders

-- A new order that is then paid adds its total for its user.
pub paid_amount-append_paid :
    (v : ℕ) (o : Order) (orders : List Order)
    → Distinct order_key (orders ++ o ∷ [])
    → find? order_key o.id orders ≡ none
    → o.status ≡ pending
    → total (paid_amount v) (update_status o.id paid (orders ++ o ∷ []))
      ≡ total (paid_amount v) orders + share o.user_id v o.total_amount
unfolding update_status
paid_amount-append_paid v o orders d absent e = ground (
  arith,
  total-append (paid_amount v) orders (o ∷ []),
  find?-append_new order_key o.id orders o,
  total-modify order_key (paid_amount v) o.id (set_status paid) (orders ++ o ∷ []) {r = o} d,
)

-- A paid order that is refunded no longer counts.
pub paid_amount-refunded :
    (v : ℕ) (o : Order) (orders : List Order)
    → Distinct order_key orders
    → find? order_key o.id orders ≡ some o
    → o.status ≡ paid
    → total (paid_amount v) (update_status o.id refunded orders) + share o.user_id v o.total_amount
      ≡ total (paid_amount v) orders
unfolding update_status
paid_amount-refunded v o orders d found e = ground (
  arith,
  total-modify order_key (paid_amount v) o.id (set_status refunded) orders {r = o} d found,
)

-- After the update the order is found with its new status.
pub find_order-update_status :
    (id : ℕ) (status : OrderStatus) (orders : List Order) {o : Order}
    → find_order id orders ≡ some o
    → find_order id (update_status id status orders) ≡ some (set_status status o)
unfolding find_order update_status
find_order-update_status id status orders found =
    ground (arith, find?-modify order_key id id (set_status status) orders (λ r. refl))
