-- ===== src/Tests/OrderTests.antt =====
-- Orders at concrete inputs (modules/billing/services/order.service.ts).
use common_api.Base.{
  ◌≤◌, ℕ, ◌+◌, ◌*◌, ◌≡◌, refl, true, false, [], ◌∷◌, Option, some, none, String, arith,
}
use common_api.Base.Int.{pos}
use common_api.Exceptions.{plain_error}
use common_api.Action.{ok, err}
use common_api.Wallet.Entities.{credit, promotion, Wallet, RequestData}
use common_api.Wallet.Columns.{Fits}
use common_api.Wallet.Repository.{
  fits_varchar, fits_bigint, takes_entry, create_lot, create_entry, get_available_lots_for_debit,
  get_user_balance,
}
use common_api.Wallet.Service.{
  all_taken, positive_amount, look_up_key, save_key, consume_lot, consume_lots,
  credit_in_transaction, credit_wallet, debit_in_transaction, debit_wallet,
}
use common_api.Order.Entities.{paid, refunded, digital, Order, Shop, OrderRequest}
use common_api.Order.Repository.{find_order, find_product, order_of, update_status}
use common_api.Order.Service.{
  positive_quantity, checked_refund, derived_key, credit_charge, place_order, create_order,
  give_back, refund_order,
}
use common_api.Order.Held.{IsOpen}
use common_api.Order.Placing.{Placed, place_order-Placed, place_order_lost}
use common_api.Order.Refunds.{Refunded, give_back-Refunded, refund_order_paid}
use common_api.Order.Races.{give_back_twice}
use common_api.Order.RoundTrip.{refund_order_after_place_order}

abbrev by_ref : RequestData → String
by_ref d = d.ref_id

-- Four orders are enough here.
abbrev id_text : ℕ → String
id_text n = "x"

abbrev shop : Shop
shop = record {
  wallet = record {
    lots =
        (record {
          id = 0;
          app_id = 1;
          user_id = 7;
          initial_amount = 90;
          remaining_amount = 90;
          expires_at = none;
          created_at = 5;
        })
        ∷ [];
    ledger =
        (record {
          id = 1;
          app_id = 1;
          user_id = 7;
          lot_id = some 0;
          direction = credit;
          amount = 90;
          reason = promotion;
          ref_type = "event";
          ref_id = "e1";
          balance_snapshot = 90;
          created_at = 5;
        })
        ∷ [];
    keys = [];
    next_id = 2;
    now = 9;
  };
  orders = [];
  products =
      (record {
        id = 3;
        app_id = 1;
        type = digital;
        name = "skin";
        default_price = 20;
        is_active = true;
        created_at = 1;
      })
      ∷ [];
  next_order_id = 4;
}

shop-IsOpen : IsOpen shop
unfolding get_user_balance
shop-IsOpen = record {
  wallet_valid = record { distinct = (refl, tt); below = omega arith; audited = λ v. ground arith };
  orders_distinct = tt;
  orders_below = tt;
}

abbrev request : Option String → OrderRequest
request key = record {
  app_id = 1;
  user_id = 7;
  product_id = 3;
  quantity = pos 2;
  ref_type = "web";
  ref_id = "r1";
  idempotency_key = key;
}

abbrev placed : Shop
placed = (place_order by_ref id_text true (request none) 2 20 shop).1

abbrev paid_order : Order
paid_order = record {
  id = 4;
  app_id = 1;
  user_id = 7;
  product_id = 3;
  quantity = 2;
  total_amount = 40;
  status = paid;
  ref_type = "web";
  ref_id = "r1";
  created_at = 9;
}

place_ran :
    place_order by_ref id_text true (request none) 2 20 shop ≡ (ok (some paid_order), placed)
unfolding place_order order_of find_order update_status derived_key debit_wallet positive_amount
    look_up_key get_user_balance debit_in_transaction get_available_lots_for_debit consume_lots
    consume_lot save_key fits_varchar fits_bigint takes_entry all_taken
place_ran = refl

create_ran : create_order by_ref id_text true (request none) shop ≡ (ok (some paid_order), placed)
unfolding create_order positive_quantity find_product place_order order_of find_order update_status
    derived_key debit_wallet positive_amount look_up_key get_user_balance debit_in_transaction
    get_available_lots_for_debit consume_lots consume_lot save_key fits_varchar fits_bigint
    takes_entry all_taken
create_ran = refl

place_order-Placed_example : Placed by_ref id_text (request none) 2 20 shop (some paid_order) placed
unfolding look_up_key derived_key
place_order-Placed_example =
    place_order-Placed by_ref id_text (request none) 2 20 shop true shop-IsOpen refl place_ran

place_order_lost_example :
    let (result, s') = place_order by_ref id_text false (request none) 2 20 shop in
    (result ≡ err (plain_error "commit failed"))
    × (s'.orders ≡ [])
    × (get_user_balance 7 s'.wallet + 2 * 20 ≡ get_user_balance 7 shop.wallet)
unfolding place_order order_of derived_key debit_wallet positive_amount look_up_key get_user_balance
    debit_in_transaction get_available_lots_for_debit consume_lots consume_lot save_key fits_varchar
    fits_bigint takes_entry all_taken
place_order_lost_example =
    place_order_lost by_ref id_text (request none) 2 20 shop {w' = placed.wallet} shop-IsOpen refl
      refl

placed-IsOpen : IsOpen placed
placed-IsOpen = place_order-Placed_example.still_open

abbrev refunded_order : Order
refunded_order = record paid_order { status = refunded }

abbrev given_back : Shop
given_back = (give_back by_ref id_text true paid_order 40 none none none placed).1

give_back_ran :
    give_back by_ref id_text true paid_order 40 none none none placed
    ≡ (ok (some refunded_order), given_back)
unfolding give_back derived_key credit_wallet credit_in_transaction create_lot create_entry
    place_order order_of find_order update_status debit_wallet positive_amount look_up_key
    get_user_balance debit_in_transaction get_available_lots_for_debit consume_lots consume_lot
    save_key fits_varchar fits_bigint takes_entry all_taken
give_back_ran = refl

paid_order-found : find_order 4 placed.orders ≡ some paid_order
unfolding order_of
paid_order-found = place_order-Placed_example.stored

no_key :
    (w : Wallet)
    → look_up_key by_ref (credit_charge by_ref id_text paid_order 40 none none none) w
      ≡ (ok none, w)
unfolding look_up_key derived_key
no_key w = refl

give_back-Refunded_example :
    Refunded by_ref id_text paid_order 40 none none none placed (some refunded_order) given_back
give_back-Refunded_example =
    give_back-Refunded by_ref id_text paid_order 40 none none none placed true placed-IsOpen
      paid_order-found refl (no_key placed.wallet) give_back_ran

refund-Fits : Fits by_ref (credit_charge by_ref id_text paid_order 40 none none none)
unfolding fits_varchar derived_key
refund-Fits = record { ref_type = refl; ref_id = refl; key = λ k h. cc; hash = refl }

-- The balance after the debit leaves room in a bigint.
placed_fits : (n : ℕ) → n ≤ 80 → fits_bigint (get_user_balance 7 placed.wallet + n) ≡ true
unfolding fits_bigint place_order order_of derived_key debit_wallet positive_amount look_up_key
    get_user_balance debit_in_transaction get_available_lots_for_debit consume_lots consume_lot
    save_key fits_varchar takes_entry all_taken
placed_fits n h = ground arith

refund_order_paid_example :
    (s' : Shop) × (refund_order by_ref id_text true 4 none none none none placed
      ≡ (ok (some refunded_order), s'))
    × Refunded by_ref id_text paid_order 40 none none none placed (some refunded_order) s'
refund_order_paid_example =
    refund_order_paid by_ref id_text paid_order 40 none none none placed placed-IsOpen
      paid_order-found refl refl (omega arith) (no_key placed.wallet) refund-Fits
      (placed_fits 40 (omega arith))

refund_ran :
    refund_order by_ref id_text true 4 none none none none placed
    ≡ (ok (some refunded_order), given_back)
unfolding refund_order checked_refund give_back derived_key credit_wallet credit_in_transaction
    create_lot create_entry place_order order_of find_order update_status debit_wallet
    positive_amount look_up_key get_user_balance debit_in_transaction get_available_lots_for_debit
    consume_lots consume_lot save_key fits_varchar fits_bigint takes_entry all_taken
refund_ran = refl

refund_order_after_place_order_example :
    get_user_balance 7 given_back.wallet ≡ get_user_balance 7 shop.wallet
unfolding order_of look_up_key derived_key
refund_order_after_place_order_example =
    refund_order_after_place_order by_ref id_text true true (request none) 2 20 none none none shop
      7 shop-IsOpen refl place_ran (no_key placed.wallet) refund_ran

give_back_twice_example :
    (first second : Option Order) × (s' s'' : Shop) × (refund_order by_ref id_text true 4 none none
        none none placed
      ≡ (ok first, s'))
    × (give_back by_ref id_text true paid_order 40 none none none s' ≡ (ok second, s''))
    × (get_user_balance 7 s''.wallet ≡ get_user_balance 7 placed.wallet + 40 + 40)
unfolding checked_refund fits_bigint place_order order_of derived_key debit_wallet positive_amount
    look_up_key get_user_balance debit_in_transaction get_available_lots_for_debit consume_lots
    consume_lot save_key fits_varchar takes_entry all_taken
give_back_twice_example =
    give_back_twice by_ref id_text paid_order 40 none none none placed none
      placed-IsOpen.wallet_valid paid_order-found refl refl refl refund-Fits refl
