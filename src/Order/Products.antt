-- ===== src/Order/Products.antt =====
-- ProductService (modules/billing/services/product.service.ts) and the writes of its repository.
-- `trim`, what the database takes as a name, and a product's identifier are arguments.
use common_api.Base.{
  ℕ, ◌^◌, suc, zero, String, Bool, true, false, ◌&&◌, List, [], ◌∷◌, ◌++◌, Option, some, none, ltb,
  ◌==◌, if◌then◌else◌, or_default, select, truthy,
}
use common_api.Base.Int.{pos, negsuc}
use common_api.Base.Table.{modify}
use common_api.Base.Pages.{newest_first}
use common_api.Exceptions.{bad_request, not_found, plain_error}
use common_api.Action.{
  Result, ok, err, Action, or_throw, lift, gets, ◌>>=◌, ◌>>◌, pure, modify_state,
}
use common_api.Wallet.Entities.{AmountText, spells, spells_too, unreadable}
use common_api.Order.Entities.{ProductType, Product, Shop}
use common_api.Order.Repository.{product_key, find_product}

-- A price in a request: the empty text is a falsy one.
pub data PriceText : Type 0 where
  empty_text : PriceText
  price_text : AmountText → PriceText

-- `CreateProductDto`, without its metadata
pub record ProductRequest : Type 0 where
  pub type : ProductType
  pub name : Option String
  pub default_price : Option PriceText
  pub is_active : Option Bool

-- The changes of `updateProduct`, without the metadata
pub record ProductUpdate : Type 0 where
  pub name : Option String
  pub default_price : Option PriceText
  pub is_active : Option Bool

pub record ProductPlatform : Type 0 where
  pub trim : String → String
  pub takes_name : String → Bool

abbrev pub product_date : Product → ℕ
product_date x = x.created_at

-- `BigInt(text)`, with `if (price <= 0) throw`
unfoldable pub positive_price : AmountText → Result ℕ
positive_price unreadable = err (plain_error "Cannot convert to a BigInt")
positive_price (spells (negsuc n)) = err (bad_request "Price must be positive")
positive_price (spells (pos zero)) = err (bad_request "Price must be positive")
positive_price (spells (pos (suc n))) = ok (suc n)
positive_price (spells_too t (negsuc n)) = err (bad_request "Price must be positive")
positive_price (spells_too t (pos zero)) = err (bad_request "Price must be positive")
positive_price (spells_too t (pos (suc n))) = ok (suc n)

-- A bigint column takes what it can hold.
unfoldable pub store_price : ℕ → Result ℕ
store_price n = if ltb n (2 ^ 63) then ok n else err (plain_error "bigint out of range")

-- `default_price || '0'`
abbrev pub price_or_zero : Option PriceText → AmountText
price_or_zero none = spells (pos 0)
price_or_zero (some empty_text) = spells (pos 0)
price_or_zero (some (price_text t)) = t

-- ProductRepository.findByApp
unfoldable pub find_by_app : ℕ → Shop → List Product
find_by_app app s =
    newest_first product_date (select (λ x. x.app_id == app && x.is_active) s.products)

-- ProductService.getProduct
unfoldable pub get_product : ℕ → Action Shop Product
get_product id s = (or_throw (find_product id s) (not_found "Product not found"), s)

module _ (p : ProductPlatform) where
  -- `!name || name.trim().length === 0`, with the trimmed name
  unfoldable pub checked_name : Option String → Result String
  checked_name name = elim (truthy name) [
    | none ↦ err (bad_request "Product name cannot be empty")
    | some t ↦ elim (truthy (some (p.trim t))) [
      | none ↦ err (bad_request "Product name cannot be empty")
      | some u ↦ ok u
    ]
  ]

  -- A varchar column takes what is short enough.
  unfoldable pub store_name : String → Result String
  store_name t = if p.takes_name t then ok t else err (plain_error "value too long")

  -- ProductRepository.create
  unfoldable pub insert_product : ℕ → ℕ → ProductType → String → ℕ → Bool → Action Shop Product
  insert_product id app type name price is_active = do
    price ← lift (store_price price)
    name ← lift (store_name name)
    now ← gets (λ (s : Shop). s.wallet.now)
    let x : Product = record {
      id = id;
      app_id = app;
      type = type;
      name = name;
      default_price = price;
      is_active = is_active;
      created_at = now;
    }
    modify_state (λ (s : Shop). record s { products = s.products ++ x ∷ [] })
    pure x

  -- ProductService.createProduct and _createProduct
  unfoldable pub create_product : ℕ → ℕ → ProductRequest → Action Shop Product
  create_product id app r = do
    price ← lift (positive_price (price_or_zero r.default_price))
    name ← lift (checked_name r.name)
    insert_product id app r.type name price (or_default r.is_active true)

  -- The price that an update is checked for, and the one that it writes: an empty text passes the
  -- check, and the column refuses it.
  unfoldable pub checked_price : Option PriceText → Result (Option ℕ)
  unfolding positive_price
  checked_price none = ok none
  checked_price (some empty_text) = ok none
  checked_price (some (price_text t)) = elim (positive_price t) [
    | err e ↦ err e
    | ok n ↦ ok (some n)
  ]

  abbrev pub checked_new_name : Option String → Result (Option String)
  checked_new_name none = ok none
  checked_new_name (some t) = elim (checked_name (some t)) [ err e ↦ err e | ok u ↦ ok (some u) ]

  abbrev pub written_price : Option PriceText → Option ℕ → Result (Option ℕ)
  written_price (some empty_text) price = err (plain_error "invalid input syntax for type bigint")
  written_price _ none = ok none
  written_price _ (some n) = elim (store_price n) [ err e ↦ err e | ok m ↦ ok (some m) ]

  abbrev pub written_name : Option String → Result (Option String)
  written_name none = ok none
  written_name (some t) = elim (store_name t) [ err e ↦ err e | ok u ↦ ok (some u) ]

  abbrev pub with_changes : Option String → Option ℕ → Option Bool → Product → Product
  with_changes name price is_active x = record x {
    name = or_default name x.name;
    default_price = or_default price x.default_price;
    is_active = or_default is_active x.is_active;
  }

  -- ProductRepository.update
  unfoldable pub write_product :
      ℕ → Option String → Option PriceText → Option ℕ → Option Bool → Action Shop (Option Product)
  write_product id name given price is_active = do
    price ← lift (written_price given price)
    name ← lift (written_name name)
    modify_state (λ (s : Shop). record s {
      products = modify product_key id (with_changes name price is_active) s.products;
    })
    gets (find_product id)

  -- ProductService.updateProduct
  unfoldable pub update_product : ℕ → ProductUpdate → Action Shop (Option Product)
  update_product id d = do
    found ← gets (find_product id)
    existing ← lift (or_throw found (not_found "Product not found"))
    price ← lift (checked_price d.default_price)
    name ← lift (checked_new_name d.name)
    write_product id name d.default_price price d.is_active

  -- ProductService.deactivateProduct
  unfoldable pub deactivate_product : ℕ → Action Shop (Option Product)
  deactivate_product id =
      update_product id (record { name = none; default_price = none; is_active = some false })

  -- ProductService.activateProduct
  unfoldable pub activate_product : ℕ → Action Shop (Option Product)
  activate_product id =
      update_product id (record { name = none; default_price = none; is_active = some true })
