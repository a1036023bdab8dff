-- ===== src/Order/Entities.antt =====
-- The rows of orders and products (database/entities/order.entity.ts, product.entity.ts), the
-- enums in their columns (common/enums), and what the service reads and writes together.
use common_api.Base.{ℕ, String, Bool, Option, List}
use common_api.Base.Int.{ℤ}
use common_api.Wallet.Entities.{Wallet}

-- `OrderStatus`
pub data OrderStatus : Type 0 where
  pending paid refunded : OrderStatus

-- `ProductType`
pub data ProductType : Type 0 where
  digital subscription physical : ProductType

-- `OrderEntity`, without the rows that it joins
pub record Order : Type 0 where
  pub id : ℕ
  pub app_id : ℕ
  pub user_id : ℕ
  pub product_id : ℕ
  pub quantity : ℕ
  pub total_amount : ℕ
  pub status : OrderStatus
  pub ref_type : String
  pub ref_id : String
  pub created_at : ℕ

-- `ProductEntity`, without its JSON metadata
pub record Product : Type 0 where
  pub id : ℕ
  pub app_id : ℕ
  pub type : ProductType
  pub name : String
  pub default_price : ℕ
  pub is_active : Bool
  pub created_at : ℕ

-- The tables, and the next identifier of an order. An identifier is used up by an order that is
-- rolled back too.
pub record Shop : Type 0 where
  pub wallet : Wallet
  pub orders : List Order
  pub products : List Product
  pub next_order_id : ℕ

-- The arguments of `_createOrder`
pub record OrderRequest : Type 0 where
  pub app_id : ℕ
  pub user_id : ℕ
  pub product_id : ℕ
  pub quantity : ℤ
  pub ref_type : String
  pub ref_id : String
  pub idempotency_key : Option String
