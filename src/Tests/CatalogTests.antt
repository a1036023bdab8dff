-- ===== src/Tests/CatalogTests.antt =====
-- Products at concrete inputs (modules/billing/services/product.service.ts).
use common_api.Base.{ℕ, ◌≡◌, refl, String, true, false, [], ◌∷◌, some, none, All}
use common_api.Base.Int.{pos}
use common_api.Exceptions.{Exception, bad_request}
use common_api.Action.{ok, err}
use common_api.Wallet.Entities.{empty_wallet, spells, RequestData}
use common_api.Order.Entities.{digital, Product, Shop, OrderRequest}
use common_api.Order.Repository.{find_product}
use common_api.Order.Service.{create_order}
use common_api.Order.Products.{
  price_text, ProductRequest, ProductPlatform, positive_price, store_price, checked_name,
  store_name, insert_product, create_product, deactivate_product, activate_product,
}
use common_api.Order.Sellable.{IsSellable}
use common_api.Order.Catalog.{
  opened, created, ShopReach-IsSellable, deactivate_product-create_order,
}

abbrev by_ref : RequestData → String
by_ref d = d.ref_id

abbrev id_text : ℕ → String
id_text n = "x"

abbrev platform : ProductPlatform
platform = record { trim = λ t. t; takes_name = λ _. true }

abbrev empty_shop : Shop
empty_shop = record { wallet = empty_wallet; orders = []; products = []; next_order_id = 1 }

abbrev skin : ProductRequest
skin = record {
  type = digital;
  name = some "skin";
  default_price = some (price_text (spells (pos 20)));
  is_active = none;
}

abbrev stocked : Shop
stocked = (create_product platform 3 1 skin empty_shop).1

abbrev stored_skin : Product
stored_skin = record {
  id = 3;
  app_id = 1;
  type = digital;
  name = "skin";
  default_price = 20;
  is_active = true;
  created_at = 0;
}

skin_stored : stocked.products ≡ stored_skin ∷ []
unfolding create_product insert_product positive_price store_price checked_name store_name
skin_stored = refl

priceless :
    (create_product platform 3 1 (record skin { default_price = none }) empty_shop).0
    ≡ err (bad_request "Price must be positive")
unfolding create_product positive_price
priceless = refl

ShopReach-IsSellable_example : All IsSellable stocked.products
ShopReach-IsSellable_example =
    ShopReach-IsSellable platform by_ref id_text
      (created 3 1 skin empty_shop (opened empty_shop refl))

abbrev order : OrderRequest
order = record {
  app_id = 1;
  user_id = 7;
  product_id = 3;
  quantity = pos 2;
  ref_type = "web";
  ref_id = "r1";
  idempotency_key = none;
}

deactivate_product-create_order_example :
    let (done, s') = deactivate_product platform 3 stocked in
    (done ≡ ok (some (record stored_skin { is_active = false })))
    × ((e : Exception) × (create_order by_ref id_text true order s' ≡ (err e, s')))
    × (find_product 3 (activate_product platform 3 s').1
        ≡ some (record stored_skin { is_active = true }))
unfolding find_product create_product insert_product positive_price store_price checked_name
    store_name
deactivate_product-create_order_example =
    deactivate_product-create_order platform by_ref id_text true order stocked {x = stored_skin}
      refl
