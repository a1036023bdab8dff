-- ===== src/Order/Refunds.antt =====
-- What refunding an order does (OrderService._refundOrder), once, twice, and after placing it.
use common_api.Base.{
  ap, ◌∙◌, ℕ, zero, suc, ◌+◌, ◌<◌, ◌≡◌, refl, inl, inr, Bool, true, Option, some, none, String,
  total, arith,
}
use common_api.Base.Table.{modify-Distinct, modify-Below}
use common_api.Base.Int.{pos}
use common_api.Action.{ok, Result-cases}
use common_api.Wallet.Entities.{spells, RequestData, ResponseBody}
use common_api.Wallet.Repository.{fits_bigint, get_user_balance}
use common_api.Wallet.Columns.{Fits}
use common_api.Wallet.Service.{credit_wallet, look_up_key, positive_amount}
use common_api.Wallet.Valid.{IsValid}
use common_api.Wallet.Balance.{share}
use common_api.Wallet.Calls.{credit_wallet_moves}
use common_api.Wallet.Coverage.{credit_wallet_new}
use common_api.Order.Entities.{paid, refunded, Order, Shop}
use common_api.Order.Repository.{order_key, set_status, find_order, update_status}
use common_api.Order.Service.{checked_refund, credit_charge, give_back, refund_order}
use common_api.Order.Held.{
  held, IsOpen, paid_amount, paid_amount-refunded, find_order-update_status,
}

pub positive_amount_pos : (n : ℕ) → 0 < n → positive_amount (spells (pos n)) ≡ ok n
unfolding positive_amount
positive_amount_pos zero h = elim h [ ]
positive_amount_pos (suc n) h = refl

module _ (hash_request : RequestData → String) (id_text : ℕ → String) where
  module _ (o : Order) (amount : ℕ) (ref_type ref_id key : Option String) (s : Shop) where
    pub give_back-inv :
        (commits : Bool) {found : Option Order} {s' : Shop}
        → give_back hash_request id_text commits o amount ref_type ref_id key s ≡ (ok found, s')
        → (body : ResponseBody) × (credit_wallet hash_request
              (credit_charge hash_request id_text o amount ref_type ref_id key)
              none
              s.wallet
            ≡ (ok body, s'.wallet))
          × (s'.orders ≡ update_status o.id refunded s.orders)
          × (s'.next_order_id ≡ s.next_order_id)
          × (found ≡ find_order o.id s'.orders)
    unfolding give_back
    give_back-inv commits h =
        elim (Result-cases
          (credit_wallet hash_request
            (credit_charge hash_request id_text o amount ref_type ref_id key) none s.wallet).0) [
              | inl (body, done) ↦ (body, ground arith, ground arith, ground arith, ground arith)
              | inr (e, failed) ↦ ground arith
            ]

    -- What a refund that goes through has done.
    pub record Refunded (found : Option Order) (s' : Shop) : Type 0 where
      pub returned : found ≡ some (record o { status = refunded })
      pub stored : find_order o.id s'.orders ≡ some (record o { status = refunded })
      pub credited :
          (v : ℕ)
          → get_user_balance v s'.wallet ≡ get_user_balance v s.wallet + share o.user_id v amount
      pub keeps_held :
          (v : ℕ)
          → held v s' + share o.user_id v o.total_amount ≡ held v s + share o.user_id v amount
      pub still_open : IsOpen s'

    refunded-IsOpen :
        {s' : Shop}
        → IsOpen s
        → IsValid s'.wallet
        → s'.orders ≡ update_status o.id refunded s.orders
        → s'.next_order_id ≡ s.next_order_id
        → IsOpen s'
    unfolding update_status
    refunded-IsOpen valid w same next = record {
      wallet_valid = w;
      orders_distinct = rw same (
          modify-Distinct order_key o.id (set_status refunded) s.orders (λ x. refl)
            valid.orders_distinct);
      orders_below =
          rw (same, next)
            (modify-Below order_key s.next_order_id o.id (set_status refunded) s.orders (λ x. refl)
              valid.orders_below);
    }

    -- A refund of a PAID order that goes through, under a key that the wallet has not stored,
    -- stores and returns the order as REFUNDED, credits its user with the amount and nobody else
    -- with anything; so a full refund leaves balance and paid orders together as they were.
    pub give_back-Refunded :
        (commits : Bool) {found : Option Order} {s' : Shop}
        → IsOpen s
        → find_order o.id s.orders ≡ some o
        → o.status ≡ paid
        → look_up_key hash_request
            (credit_charge hash_request id_text o amount ref_type ref_id key)
            s.wallet
          ≡ (ok none, s.wallet)
        → give_back hash_request id_text commits o amount ref_type ref_id key s ≡ (ok found, s')
        → Refunded found s'
    give_back-Refunded commits {found} {s'} valid here is_now_paid new h =
        let (body, done, same, next, result) = give_back-inv commits h in
        let stored : find_order o.id s'.orders ≡ some (record o { status = refunded }) =
          ap (find_order o.id) same ∙ find_order-update_status o.id refunded s.orders here in
        let d =
          credit_wallet_moves hash_request
            (credit_charge hash_request id_text o amount ref_type ref_id key) s.wallet none amount
            valid.wallet_valid refl new done in
        record {
          returned = result ∙ stored;
          stored = stored;
          credited = d.balances;
          keeps_held = λ v. omega (
            arith,
            d.balances v,
            ap (total (paid_amount v)) same,
            paid_amount-refunded v o s.orders valid.orders_distinct (unfold find_order in here)
                is_now_paid,
          );
          still_open = refunded-IsOpen valid d.valid same next;
        }

    -- A PAID order of a positive total, under a key that is not stored, is refunded in full where
    -- the columns take the texts of the refund and the new balance, and the commit succeeds.
    pub refund_order_paid :
        IsOpen s
        → find_order o.id s.orders ≡ some o
        → o.status ≡ paid
        → amount ≡ o.total_amount
        → 0 < amount
        → look_up_key hash_request
            (credit_charge hash_request id_text o amount ref_type ref_id key)
            s.wallet
          ≡ (ok none, s.wallet)
        → Fits hash_request (credit_charge hash_request id_text o amount ref_type ref_id key)
        → fits_bigint (get_user_balance o.user_id s.wallet + amount) ≡ true
        → (s' : Shop) × (refund_order hash_request id_text true o.id none ref_type ref_id key s
            ≡ (ok (some (record o { status = refunded })), s'))
          × Refunded (some (record o { status = refunded })) s'
    unfolding refund_order give_back checked_refund
    refund_order_paid valid here is_now_paid all some_points new fits small =
        let c = credit_charge hash_request id_text o amount ref_type ref_id key in
        let (body, w', done) =
          credit_wallet_new hash_request c s.wallet none {amount = amount}
            (positive_amount_pos amount some_points) new fits small in
        let s' : Shop = record s { wallet = w'; orders = update_status o.id refunded s.orders } in
        let found = find_order-update_status o.id refunded s.orders here in
        let run : give_back hash_request id_text true o amount ref_type ref_id key s
            ≡ (ok (some (record o { status = refunded })), s') =
          ground (arith, done, found) in
        (s', ground (arith, run, all), give_back-Refunded true valid here is_now_paid new run)
