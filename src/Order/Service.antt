-- ===== src/Order/Service.antt =====
-- OrderService (modules/billing/services/order.service.ts). The transaction of an order runs on a
-- connection of its own: `debitWallet` and `creditWallet` open and commit theirs inside it.
-- Whether the database commits the outer one is an argument, and so is the text of an identifier.
use common_api.Base.{
  ℕ, zero, suc, ◌+◌, ◌*◌, String, Bool, true, false, not, [], ◌∷◌, ◌++◌, Option, some, none, ltb,
  ◌==◌, if◌then◌else◌, truthy, or_default,
}
use Prim.Native.String.{◌++◌ as append}
use common_api.Base.Int.{ℤ, pos, negsuc}
use common_api.Exceptions.{bad_request, not_found, plain_error}
use common_api.Action.{Result, ok, err, Action, gets, lift, or_throw, ◌>>=◌, ◌>>◌, throw_if}
use common_api.Wallet.Entities.{
  buy_item, refund, AmountText, spells, spells_too, unreadable, RequestData, Charge,
}
use common_api.Wallet.Service.{credit_wallet, debit_wallet}
use common_api.Order.Entities.{OrderStatus, pending, paid, refunded, Order, Shop, OrderRequest}
use common_api.Order.Repository.{find_order, NewOrder, order_of, update_status, find_product}

-- `quantity <= 0`
unfoldable pub positive_quantity : ℤ → Result ℕ
positive_quantity (pos zero) = err (bad_request "Quantity must be positive")
positive_quantity (pos (suc n)) = ok (suc n)
positive_quantity (negsuc n) = err (bad_request "Quantity must be positive")

abbrev pub is_paid : OrderStatus → Bool
is_paid paid = true
is_paid _ = false

-- `refundAmount ? BigInt(refundAmount) : BigInt(order.totalAmount)`, and its guards; an empty
-- text is given as no text.
abbrev pub refund_in_range : Order → ℕ → Result ℕ
refund_in_range o n =
    if n == 0
    then err (bad_request "Refund amount must be positive")
    else if ltb o.total_amount n
    then err (bad_request "Refund amount cannot exceed order total amount")
    else ok n

unfoldable pub checked_refund : Order → Option AmountText → Result ℕ
checked_refund o none =
    if o.total_amount == 0
    then err (bad_request "Refund amount must be positive")
    else ok o.total_amount
checked_refund o (some unreadable) = err (plain_error "Cannot convert to a BigInt")
checked_refund o (some (spells (negsuc n))) = err (bad_request "Refund amount must be positive")
checked_refund o (some (spells_too t (negsuc n))) =
    err (bad_request "Refund amount must be positive")
checked_refund o (some (spells (pos n))) = refund_in_range o n
checked_refund o (some (spells_too t (pos n))) = refund_in_range o n

-- The order that `_createOrder` saves first.
abbrev pub pending_order : OrderRequest → ℕ → ℕ → NewOrder
pending_order r quantity price = record {
  app_id = r.app_id;
  user_id = r.user_id;
  product_id = r.product_id;
  quantity = quantity;
  total_amount = price * quantity;
  status = pending;
  ref_type = r.ref_type;
  ref_id = r.ref_id;
}

module _ (hash_request : RequestData → String) (id_text : ℕ → String) where
  -- `order:${id}:debit`
  unfoldable pub derived_key : ℕ → String → Option String → Option String
  derived_key id suffix key = elim (truthy key) [
    | none ↦ none
    | some _ ↦ some (append "order:" (append (id_text id) suffix))
  ]

  abbrev pub debit_charge : OrderRequest → ℕ → ℕ → Charge
  debit_charge r id total = record {
    app_id = r.app_id;
    user_id = r.user_id;
    amount = spells (pos total);
    reason = buy_item;
    ref_type = "order";
    ref_id = id_text id;
    idempotency_key = derived_key id ":debit" r.idempotency_key;
  }

  -- The transaction of `_createOrder`, for a price per unit.
  unfoldable pub place_order : Bool → OrderRequest → ℕ → ℕ → Action Shop (Option Order)
  place_order commits r quantity price s =
      let o = order_of (pending_order r quantity price) s.next_order_id s.wallet.now in
      let (debited, w) = debit_wallet hash_request (debit_charge r o.id o.total_amount) s.wallet in
      let rolled_back = record s { wallet = w; next_order_id = s.next_order_id + 1 } in
      let orders = update_status o.id paid (s.orders ++ o ∷ []) in
      elim debited [
        | err e ↦ (err e, rolled_back)
        | ok _ ↦
            if commits
            then (ok (find_order o.id orders), record rolled_back { orders = orders })
            else (err (plain_error "commit failed"), rolled_back)
      ]

  -- OrderService._createOrder
  unfoldable pub create_order : Bool → OrderRequest → Action Shop (Option Order)
  create_order commits r = do
    quantity ← lift (positive_quantity r.quantity)
    found ← gets (find_product r.product_id)
    product ← lift (or_throw found (not_found "Product not found"))
    throw_if (not product.is_active) (bad_request "Product is not active")
    throw_if (not (product.app_id == r.app_id)) (not_found "Product not found")
    place_order commits r quantity product.default_price

  abbrev pub credit_charge : Order → ℕ → Option String → Option String → Option String → Charge
  credit_charge o amount ref_type ref_id key = record {
    app_id = o.app_id;
    user_id = o.user_id;
    amount = spells (pos amount);
    reason = refund;
    ref_type = or_default (truthy ref_type) "order_refund";
    ref_id = or_default (truthy ref_id) (id_text o.id);
    idempotency_key = derived_key o.id ":refund" key;
  }

  -- The transaction of `_refundOrder`, for the order as it was read before.
  unfoldable pub give_back :
      Bool → Order → ℕ → Option String → Option String → Option String → Action Shop (Option Order)
  give_back commits o amount ref_type ref_id key s =
      let (credited, w) =
        credit_wallet hash_request (credit_charge o amount ref_type ref_id key) none s.wallet in
      let orders = update_status o.id refunded s.orders in
      elim credited [
        | err e ↦ (err e, record s { wallet = w })
        | ok _ ↦
            if commits
            then (ok (find_order o.id orders), record s { wallet = w; orders = orders })
            else (err (plain_error "commit failed"), record s { wallet = w })
      ]

  -- OrderService._refundOrder
  unfoldable pub refund_order :
      Bool
      → ℕ
      → Option AmountText
      → Option String
      → Option String
      → Option String
      → Action Shop (Option Order)
  refund_order commits id refund_amount ref_type ref_id key = do
    found ← gets (λ (s : Shop). find_order id s.orders)
    o ← lift (or_throw found (not_found "Order not found"))
    throw_if (not (is_paid o.status)) (bad_request "Cannot refund order. Order must be PAID.")
    amount ← lift (checked_refund o refund_amount)
    give_back commits o amount ref_type ref_id key
