-- ===== src/Order/Repository.antt =====
-- OrderRepository and ProductRepository (modules/billing/repositories).
use common_api.Base.{ℕ, String, List, Option}
use common_api.Base.Table.{find?, modify}
use common_api.Order.Entities.{OrderStatus, Order, Product, Shop}

-- The key of an order, and of a product.
abbrev pub order_key : Order → ℕ
order_key o = o.id

abbrev pub product_key : Product → ℕ
product_key p = p.id

-- OrderRepository.findById
unfoldable pub find_order : ℕ → List Order → Option Order
find_order id orders = find? order_key id orders

-- What OrderRepository.create is given.
pub record NewOrder : Type 0 where
  pub app_id : ℕ
  pub user_id : ℕ
  pub product_id : ℕ
  pub quantity : ℕ
  pub total_amount : ℕ
  pub status : OrderStatus
  pub ref_type : String
  pub ref_id : String

-- The row that OrderRepository.create saves: `id` and `now` are the database's.
unfoldable pub order_of : NewOrder → ℕ → ℕ → Order
order_of d id now = record {
  id = id;
  app_id = d.app_id;
  user_id = d.user_id;
  product_id = d.product_id;
  quantity = d.quantity;
  total_amount = d.total_amount;
  status = d.status;
  ref_type = d.ref_type;
  ref_id = d.ref_id;
  created_at = now;
}

abbrev pub set_status : OrderStatus → Order → Order
set_status status o = record o { status = status }

-- OrderRepository.updateStatus
unfoldable pub update_status : ℕ → OrderStatus → List Order → List Order
update_status id status orders = modify order_key id (set_status status) orders

-- ProductRepository.findById
unfoldable pub find_product : ℕ → Shop → Option Product
find_product id s = find? product_key id s.products
