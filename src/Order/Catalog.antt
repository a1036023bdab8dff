-- ===== src/Order/Catalog.antt =====
-- What holds of the products in every history of the shop (modules/billing/services).
use mathlib.Core.Path.{subst}
use common_api.Base.{
  ℕ, ◌≡◌, inl, inr, sym, refl, String, Bool, true, false, [], Option, some, none, All, arith,
}
use common_api.Base.Table.{find?-modify, modify}
use common_api.Exceptions.{Exception, bad_request}
use common_api.Action.{Result, ok, err, Result-cases}
use common_api.Wallet.Entities.{AmountText, RequestData}
use common_api.Order.Entities.{Product, Shop, OrderRequest}
use common_api.Order.Repository.{product_key, find_product}
use common_api.Order.Service.{place_order, create_order, give_back, refund_order, positive_quantity}
use common_api.Order.Products.{
  ProductRequest, ProductUpdate, ProductPlatform, create_product, checked_price, with_changes,
  write_product, update_product, deactivate_product, activate_product,
}
use common_api.Order.Sellable.{IsSellable, create_product-Sellable, update_product-Sellable}

module _ (p : ProductPlatform) (hash_request : RequestData → String) (id_text : ℕ → String) where
  create_order_products :
      (commits : Bool) (r : OrderRequest) (s : Shop)
      → (create_order hash_request id_text commits r s).1.products ≡ s.products
  unfolding create_order place_order
  create_order_products commits r s = ground arith

  refund_order_products :
      (commits : Bool) (id : ℕ) (amount : Option AmountText) (a b c : Option String) (s : Shop)
      → (refund_order hash_request id_text commits id amount a b c s).1.products ≡ s.products
  unfolding refund_order give_back
  refund_order_products commits id amount a b c s = ground arith

  -- The histories of a shop that opens without products.
  pub data ShopReach : Shop → Type 0 where
    opened : (s : Shop) → s.products ≡ [] → ShopReach s
    created :
        (id app : ℕ) (r : ProductRequest) (s : Shop)
        → ShopReach s
        → ShopReach (create_product p id app r s).1
    updated :
        (id : ℕ) (d : ProductUpdate) (s : Shop)
        → ShopReach s
        → ShopReach (update_product p id d s).1
    activated : (id : ℕ) (s : Shop) → ShopReach s → ShopReach (activate_product p id s).1
    deactivated : (id : ℕ) (s : Shop) → ShopReach s → ShopReach (deactivate_product p id s).1
    ordered :
        (commits : Bool) (r : OrderRequest) (s : Shop)
        → ShopReach s
        → ShopReach (create_order hash_request id_text commits r s).1
    refunded :
        (commits : Bool) (id : ℕ) (amount : Option AmountText) (a b c : Option String) (s : Shop)
        → ShopReach s
        → ShopReach (refund_order hash_request id_text commits id amount a b c s).1

  -- In every history of products that are made, changed, put on and off sale, and of orders and
  -- refunds, each product has a positive price that its column holds and a name that is not empty.
  pub ShopReach-IsSellable : {s : Shop} → ShopReach s → All IsSellable s.products
  unfolding activate_product deactivate_product
  ShopReach-IsSellable (opened s none_yet) = subst (All IsSellable) (sym none_yet) tt
  ShopReach-IsSellable (created id app r s h) =
      create_product-Sellable p id app r s (ShopReach-IsSellable h)
  ShopReach-IsSellable (updated id d s h) =
      update_product-Sellable p id d s (ShopReach-IsSellable h)
  ShopReach-IsSellable (activated id s h) =
      update_product-Sellable p id _ s (ShopReach-IsSellable h)
  ShopReach-IsSellable (deactivated id s h) =
      update_product-Sellable p id _ s (ShopReach-IsSellable h)
  ShopReach-IsSellable (ordered commits r s h) =
      subst (All IsSellable) (sym (create_order_products commits r s)) (ShopReach-IsSellable h)
  ShopReach-IsSellable (refunded commits id amount a b c s h) =
      subst (All IsSellable) (sym (refund_order_products commits id amount a b c s))
        (ShopReach-IsSellable h)

  -- The shop after a product is put on or off sale.
  abbrev pub switched : Bool → ℕ → Shop → Shop
  switched b id s = record s {
    products = modify product_key id (with_changes p none none (some b)) s.products;
  }

  abbrev sale : Bool → ProductUpdate
  sale b = record { name = none; default_price = none; is_active = some b }

  find_product-switched :
      (b : Bool) (id : ℕ) (s : Shop) {x : Product}
      → find_product id s ≡ some x
      → find_product id (switched b id s) ≡ some (record x { is_active = b })
  unfolding find_product
  find_product-switched b id s found = ground (
    arith,
    found,
    find?-modify product_key id id (with_changes p none none (some b)) s.products (λ r. refl),
  )

  update_product-switched :
      (b : Bool) (id : ℕ) (s : Shop) {x : Product}
      → find_product id s ≡ some x
      → update_product p id (sale b) s ≡ (ok (some (record x { is_active = b })), switched b id s)
  unfolding update_product write_product checked_price
  update_product-switched b id s found = ground (arith, found, find_product-switched b id s found)

  create_order_refused :
      (commits : Bool) (r : OrderRequest) (s : Shop) {x : Product}
      → find_product r.product_id s ≡ some x
      → x.is_active ≡ false
      → (e : Exception) × (create_order hash_request id_text commits r s ≡ (err e, s))
  unfolding create_order
  create_order_refused commits r s found off = elim (Result-cases (positive_quantity r.quantity)) [
    | inr (e, h) ↦ (e, rw h refl)
    | inl (n, h) ↦ (bad_request "Product is not active", ground (arith, h, found, off))
  ]

  -- A product that is found is taken off sale with nothing else of it changed; an order for it then
  -- fails and changes nothing, and putting it back on sale makes it the same product, active.
  pub deactivate_product-create_order :
      (commits : Bool) (r : OrderRequest) (s : Shop) {x : Product}
      → find_product r.product_id s ≡ some x
      → let (done, s') = deactivate_product p r.product_id s in
        (done ≡ ok (some (record x { is_active = false })))
        × ((e : Exception) × (create_order hash_request id_text commits r s' ≡ (err e, s')))
        × (find_product r.product_id (activate_product p r.product_id s').1
            ≡ some (record x { is_active = true }))
  unfolding deactivate_product activate_product
  deactivate_product-create_order commits r s {x} found =
      let id = r.product_id in
      let off = find_product-switched false id s found in
      let done = update_product-switched false id s found in
      let again = update_product-switched true id (switched false id s) off in
      subst
        (λ (t : Result (Option Product) × Shop).
          (t.0 ≡ ok (some (record x { is_active = false })))
          × ((e : Exception) × (create_order hash_request id_text commits r t.1 ≡ (err e, t.1)))
          × (find_product id (update_product p id (sale true) t.1).1
              ≡ some (record x { is_active = true })))
        (sym done)
        (
          refl,
          create_order_refused commits r (switched false id s) off refl,
          subst
              (λ (t : Result (Option Product) × Shop).
                find_product id t.1 ≡ some (record x { is_active = true }))
              (sym again) (find_product-switched true id (switched false id s) off),
        )
