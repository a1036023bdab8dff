-- ===== src/Order/RoundTrip.antt =====
-- Whole calls of the order service: what `_createOrder` has checked, a refund after it, and a
-- second refund.
use common_api.Base.{
  ℕ, ◌*◌, ◌≡◌, refl, Bool, true, Option, some, none, String, arith, inl, inr, Option-cases,
}
use common_api.Exceptions.{bad_request}
use common_api.Action.{ok, err, Result-cases}
use common_api.Wallet.Entities.{AmountText, RequestData}
use common_api.Wallet.Repository.{get_user_balance}
use common_api.Wallet.Service.{look_up_key}
use common_api.Order.Entities.{paid, Order, Product, Shop, OrderRequest}
use common_api.Order.Repository.{find_order, find_product, order_of}
use common_api.Order.Service.{
  positive_quantity, checked_refund, debit_charge, credit_charge, place_order, create_order,
  give_back, refund_order,
}
use common_api.Order.Held.{IsOpen}
use common_api.Order.Placing.{new_order, place_order-Placed}
use common_api.Order.Refunds.{give_back-Refunded}

module _ (hash_request : RequestData → String) (id_text : ℕ → String) where
  -- An order goes through only for a positive quantity of an active product of the same app, and
  -- it is then placed at that product's price.
  create_order-checked :
      (commits : Bool) (r : OrderRequest) (s : Shop) {found : Option Order} {s' : Shop}
      → create_order hash_request id_text commits r s ≡ (ok found, s')
      → (quantity : ℕ) × (product : Product) × (positive_quantity r.quantity ≡ ok quantity)
        × (find_product r.product_id s ≡ some product)
        × (product.is_active ≡ true)
        × (product.app_id ≡ r.app_id)
        × (place_order hash_request id_text commits r quantity product.default_price s
            ≡ (ok found, s'))
  unfolding create_order
  create_order-checked commits r s h = elim (Result-cases (positive_quantity r.quantity)) [
    | inr (e, bad) ↦ ground arith
    | inl (quantity, good) ↦ elim (Option-cases (find_product r.product_id s)) [
      | inl missing ↦ ground arith
      | inr (product, here) ↦
          (quantity, product, good, here, ground arith, ground arith, ground arith)
    ]
  ]

  refund_order-gives_back :
      (commits : Bool) (o : Order) (ref_type ref_id key : Option String) (s : Shop)
      {found : Option Order} {s' : Shop}
      → find_order o.id s.orders ≡ some o
      → refund_order hash_request id_text commits o.id none ref_type ref_id key s ≡ (ok found, s')
      → (o.status ≡ paid)
        × (give_back hash_request id_text commits o o.total_amount ref_type ref_id key s
            ≡ (ok found, s'))
  unfolding refund_order checked_refund
  refund_order-gives_back commits o ref_type ref_id key s here h = ground arith

  -- A full refund of an order that has just been placed gives every user back the balance from
  -- before it, where the wallet has stored neither key.
  pub refund_order_after_place_order :
      (commits commits' : Bool) (r : OrderRequest) (quantity price : ℕ)
      (ref_type ref_id key : Option String) (s : Shop) {found found' : Option Order} {s' s'' : Shop}
      (v : ℕ)
      → let o = record (new_order hash_request id_text r quantity price s) { status = paid } in
        IsOpen s
        → look_up_key hash_request
            (debit_charge hash_request id_text r o.id (price * quantity))
            s.wallet
          ≡ (ok none, s.wallet)
        → place_order hash_request id_text commits r quantity price s ≡ (ok found, s')
        → look_up_key hash_request
            (credit_charge hash_request id_text o o.total_amount ref_type ref_id key)
            s'.wallet
          ≡ (ok none, s'.wallet)
        → refund_order hash_request id_text commits' o.id none ref_type ref_id key s'
          ≡ (ok found', s'')
        → get_user_balance v s''.wallet ≡ get_user_balance v s.wallet
  unfolding order_of
  refund_order_after_place_order commits commits' r quantity price ref_type ref_id key s {s' = s'} v
        valid new h new' h' =
      let o : Order = record (new_order hash_request id_text r quantity price s) {
        status = paid;
      } in
      let p = place_order-Placed hash_request id_text r quantity price s commits valid new h in
      let (_, run) = refund_order-gives_back commits' o ref_type ref_id key s' p.stored h' in
      let q =
        give_back-Refunded hash_request id_text o o.total_amount ref_type ref_id key s' commits'
          p.still_open p.stored refl new' run in
      omega (arith, p.charged v, q.credited v)

  -- An order that has been refunded is not refunded again by a later call, whatever its amount
  -- and key: it is refused, and nothing changes.
  refund_order_again :
      (commits commits' : Bool) (o : Order) (amount : ℕ) (ref_type ref_id key : Option String)
      (s : Shop) (amount' : Option AmountText) (ref_type' ref_id' key' : Option String)
      {found : Option Order} {s' : Shop}
      → IsOpen s
      → find_order o.id s.orders ≡ some o
      → o.status ≡ paid
      → look_up_key hash_request
          (credit_charge hash_request id_text o amount ref_type ref_id key)
          s.wallet
        ≡ (ok none, s.wallet)
      → give_back hash_request id_text commits o amount ref_type ref_id key s ≡ (ok found, s')
      → refund_order hash_request id_text commits' o.id amount' ref_type' ref_id' key' s'
        ≡ (err (bad_request "Cannot refund order. Order must be PAID."), s')
  unfolding refund_order
  refund_order_again commits commits' o amount ref_type ref_id key s amount' ref_type' ref_id' key'
        valid here is_now_paid new h =
      let q =
        give_back-Refunded hash_request id_text o amount ref_type ref_id key s commits valid here
          is_now_paid new h in
      ground (arith, q.stored)
