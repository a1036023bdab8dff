-- ===== src/Order/Placing.antt =====
-- What placing an order does (OrderService._createOrder).
use common_api.Base.{
  ap, ◌∙◌, ℕ, ◌+◌, ◌*◌, ◌≡◌, refl, inl, inr, Bool, true, false, [], ◌∷◌, ◌++◌, Option, some, none,
  String, total, arith,
}
use common_api.Base.Table.{
  append-Distinct, append-Below, modify-Distinct, modify-Below, Below-absent, find?-append_new,
}
use common_api.Exceptions.{Exception, plain_error}
use common_api.Action.{ok, err, Result-cases}
use common_api.Wallet.Entities.{Wallet, RequestData, ResponseBody}
use common_api.Wallet.Repository.{get_user_balance}
use common_api.Wallet.Service.{debit_wallet, look_up_key}
use common_api.Wallet.Valid.{IsValid}
use common_api.Wallet.Balance.{share}
use common_api.Wallet.Calls.{debit_wallet_moves, debit_wallet_atomic}
use common_api.Order.Entities.{paid, Order, Shop, OrderRequest}
use common_api.Order.Repository.{order_key, set_status, find_order, order_of, update_status}
use common_api.Order.Service.{pending_order, debit_charge, place_order}
use common_api.Order.Held.{
  held, IsOpen, paid_amount, paid_amount-append_paid, find_order-update_status,
}

module _ (hash_request : RequestData → String) (id_text : ℕ → String) where
  module _ (r : OrderRequest) (quantity price : ℕ) (s : Shop) where
    abbrev pub new_order : Order
    new_order = order_of (pending_order r quantity price) s.next_order_id s.wallet.now

    place_order-inv :
        (commits : Bool) {found : Option Order} {s' : Shop}
        → place_order hash_request id_text commits r quantity price s ≡ (ok found, s')
        → (body : ResponseBody) × (debit_wallet hash_request
              (debit_charge hash_request id_text r new_order.id new_order.total_amount)
              s.wallet
            ≡ (ok body, s'.wallet))
          × (commits ≡ true)
          × (s'.orders ≡ update_status new_order.id paid (s.orders ++ new_order ∷ []))
          × (s'.next_order_id ≡ s.next_order_id + 1)
          × (found ≡ find_order new_order.id s'.orders)
    unfolding place_order
    place_order-inv commits h =
        elim (Result-cases
          (debit_wallet hash_request
            (debit_charge hash_request id_text r new_order.id new_order.total_amount) s.wallet).0) [
              | inl (body, done) ↦
                  (body, ground arith, ground arith, ground arith, ground arith, ground arith)
              | inr (e, failed) ↦ ground arith
            ]

    -- What an order that goes through has done.
    pub record Placed (found : Option Order) (s' : Shop) : Type 0 where
      pub returned : found ≡ some (record new_order { status = paid })
      pub stored : find_order new_order.id s'.orders ≡ some (record new_order { status = paid })
      pub charged :
          (v : ℕ)
          → get_user_balance v s'.wallet + share r.user_id v (price * quantity)
            ≡ get_user_balance v s.wallet
      pub keeps_held : (v : ℕ) → held v s' ≡ held v s
      pub still_open : IsOpen s'

    placed_orders :
        IsOpen s
        → (v : ℕ)
        → total (paid_amount v) (update_status new_order.id paid (s.orders ++ new_order ∷ []))
          ≡ total (paid_amount v) s.orders + share r.user_id v (price * quantity)
    unfolding order_of
    placed_orders valid v =
        paid_amount-append_paid v new_order s.orders
          (append-Distinct order_key s.next_order_id s.orders new_order valid.orders_below refl
            valid.orders_distinct)
          (Below-absent order_key s.next_order_id s.orders valid.orders_below) refl

    new_order-found :
        IsOpen s → find_order new_order.id (s.orders ++ new_order ∷ []) ≡ some new_order
    unfolding order_of find_order
    new_order-found valid = ground (
      arith,
      find?-append_new order_key s.next_order_id s.orders new_order,
      Below-absent order_key s.next_order_id s.orders valid.orders_below,
    )

    placed-IsOpen :
        {s' : Shop}
        → IsOpen s
        → IsValid s'.wallet
        → s'.orders ≡ update_status new_order.id paid (s.orders ++ new_order ∷ [])
        → s'.next_order_id ≡ s.next_order_id + 1
        → IsOpen s'
    unfolding order_of update_status
    placed-IsOpen valid w same next = record {
      wallet_valid = w;
      orders_distinct = rw same (
          modify-Distinct order_key new_order.id (set_status paid) (s.orders ++ new_order ∷ [])
            (λ o. refl)
            (append-Distinct order_key s.next_order_id s.orders new_order valid.orders_below refl
              valid.orders_distinct));
      orders_below =
          rw (same, next)
            (modify-Below order_key (s.next_order_id + 1) new_order.id (set_status paid)
              (s.orders ++ new_order ∷ []) (λ o. refl)
              (append-Below order_key s.next_order_id s.orders new_order valid.orders_below refl));
    }

    -- An order that goes through, with a key that the wallet has not stored, is stored as PAID and
    -- returned, its user is charged the price times the quantity and nobody else anything, and no
    -- user's balance together with their paid orders changes.
    pub place_order-Placed :
        (commits : Bool) {found : Option Order} {s' : Shop}
        → IsOpen s
        → look_up_key hash_request
            (debit_charge hash_request id_text r new_order.id (price * quantity))
            s.wallet
          ≡ (ok none, s.wallet)
        → place_order hash_request id_text commits r quantity price s ≡ (ok found, s')
        → Placed found s'
    unfolding order_of
    place_order-Placed commits {found} {s'} valid new h =
        let (body, done, yes_commits, same, next, result) = place_order-inv commits h in
        let stored : find_order new_order.id s'.orders ≡ some (record new_order { status = paid }) =
          ap (find_order new_order.id) same
          ∙ find_order-update_status new_order.id paid (s.orders ++ new_order ∷ [])
              (new_order-found valid) in
        let (es, _, d) =
          debit_wallet_moves hash_request
            (debit_charge hash_request id_text r new_order.id (price * quantity)) s.wallet
            (price * quantity) valid.wallet_valid refl new done in
        record {
          returned = result ∙ stored;
          stored = stored;
          charged = d.balances;
          keeps_held = λ v.
              omega (arith, d.balances v, ap (total (paid_amount v)) same, placed_orders valid v);
          still_open = placed-IsOpen valid d.valid same next;
        }

    -- When the debit throws, neither the wallet nor the orders change.
    place_order_atomic :
        (commits : Bool) {e : Exception}
        → (debit_wallet hash_request
            (debit_charge hash_request id_text r new_order.id new_order.total_amount)
            s.wallet).0
          ≡ err e
        → place_order hash_request id_text commits r quantity price s
          ≡ (err e, record s { next_order_id = s.next_order_id + 1 })
    unfolding place_order
    place_order_atomic commits h = ground (
      arith,
      h,
      debit_wallet_atomic hash_request
          (debit_charge hash_request id_text r new_order.id new_order.total_amount) s.wallet h,
    )

    -- When the debit goes through and the order's own transaction does not commit, the user has
    -- been charged for an order that is not stored.
    pub place_order_lost :
        {body : ResponseBody} {w' : Wallet}
        → IsOpen s
        → look_up_key hash_request
            (debit_charge hash_request id_text r new_order.id (price * quantity))
            s.wallet
          ≡ (ok none, s.wallet)
        → debit_wallet hash_request
            (debit_charge hash_request id_text r new_order.id (price * quantity))
            s.wallet
          ≡ (ok body, w')
        → let (result, s') = place_order hash_request id_text false r quantity price s in
          (result ≡ err (plain_error "commit failed"))
          × (s'.orders ≡ s.orders)
          × (get_user_balance r.user_id s'.wallet + price * quantity
              ≡ get_user_balance r.user_id s.wallet)
    unfolding place_order order_of
    place_order_lost {body} {w'} valid new done =
        let (es, _, d) =
          debit_wallet_moves hash_request
            (debit_charge hash_request id_text r new_order.id (price * quantity)) s.wallet
            (price * quantity) valid.wallet_valid refl new done in
        (ground (arith, done), ground (arith, done), ground (arith, done, d.balances r.user_id))
