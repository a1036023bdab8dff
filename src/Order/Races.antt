-- ===== src/Order/Races.antt =====
-- Refunds that race: two calls that both read the order while it was PAID.
use common_api.Base.{ℕ, ◌+◌, ◌<◌, ◌≡◌, refl, true, Option, some, none, String, truthy, arith}
use Prim.Native.String.{◌++◌ as append}
use Prim.Native.String.append
use common_api.Action.{ok}
use common_api.Wallet.Entities.{
  AmountText, spells, spells_too, unreadable, Wallet, RequestData, Charge,
}
use common_api.Base.Int.{pos, negsuc}
use common_api.Wallet.Repository.{fits_bigint, get_user_balance}
use common_api.Wallet.Columns.{Fits, fits_bigint_le}
use common_api.Wallet.Service.{look_up_key}
use common_api.Wallet.Valid.{IsValid}
use common_api.Wallet.Balance.{share}
use common_api.Wallet.Calls.{credit_wallet_moves}
use common_api.Wallet.Coverage.{credit_wallet_new}
use common_api.Wallet.Retries.{credit_wallet-replays}
use common_api.Order.Entities.{paid, refunded, Order, Shop}
use common_api.Order.Repository.{update_status, find_order}
use common_api.Order.Service.{derived_key, credit_charge, give_back, checked_refund, refund_order}
use common_api.Order.Refunds.{give_back-inv, positive_amount_pos}

-- A derived key is never the empty text.
order_prefix : (t : String) → append "order:" t ≡ String.◌∷◌ "o" (append "rder:" t)
order_prefix t = append.cons "o" "rder:" t

truthy_order : (t : String) → truthy (some (append "order:" t)) ≡ some (append "order:" t)
truthy_order t = rw (order_prefix t)

-- An amount that the checks of a refund let through is positive.
checked_refund-positive :
    (o : Order) (refund : Option AmountText) {amount : ℕ}
    → checked_refund o refund ≡ ok amount
    → 0 < amount
unfolding checked_refund
checked_refund-positive o none h = ground arith
checked_refund-positive o (some unreadable) h = ground arith
checked_refund-positive o (some (spells (pos n))) h = ground arith
checked_refund-positive o (some (spells (negsuc n))) h = ground arith
checked_refund-positive o (some (spells_too t (pos n))) h = ground arith
checked_refund-positive o (some (spells_too t (negsuc n))) h = ground arith

module _ (hash_request : RequestData → String) (id_text : ℕ → String) where
  derived_key-truthy :
      (id : ℕ) (suffix : String) (key : Option String) {k : String}
      → truthy key ≡ some k
      → (u : String) × (truthy (derived_key hash_request id_text id suffix key) ≡ some u)
  unfolding derived_key
  derived_key-truthy id suffix key e = (
    append "order:" (append (id_text id) suffix),
    ground (arith, e, truthy_order (append (id_text id) suffix)),
  )

  module _ (o : Order) (amount : ℕ) (ref_type ref_id key : Option String) where
    abbrev charge : Charge
    charge = credit_charge hash_request id_text o amount ref_type ref_id key

    keyless : truthy key ≡ none → (w : Wallet) → look_up_key hash_request charge w ≡ (ok none, w)
    unfolding look_up_key derived_key
    keyless e w = ground (arith, e)

    give_back_ran :
        (s : Shop)
        → IsValid s.wallet
        → 0 < amount
        → truthy key ≡ none
        → Fits hash_request charge
        → fits_bigint (get_user_balance o.user_id s.wallet + amount) ≡ true
        → (found : Option Order) × (s' : Shop) × (give_back hash_request id_text true o amount
              ref_type ref_id key s
            ≡ (ok found, s'))
          × IsValid s'.wallet
          × ((v : ℕ)
              → get_user_balance v s'.wallet
                ≡ get_user_balance v s.wallet + share o.user_id v amount)
    unfolding give_back
    give_back_ran s valid some_points e fits small =
        let (body, w', done) =
          credit_wallet_new hash_request charge s.wallet none {amount = amount}
            (positive_amount_pos amount some_points) (keyless e s.wallet) fits small in
        let d =
          credit_wallet_moves hash_request charge s.wallet none amount valid refl
            (keyless e s.wallet) done in
        let orders = update_status o.id refunded s.orders in
        (
          find_order o.id orders,
          record s { wallet = w'; orders = orders },
          ground (arith, done),
          d.valid,
          d.balances,
        )

    -- Of two refunds without a key that read the order while it was PAID, one runs as a whole and
    -- then the transaction of the other, for the order and the amount that it read and checked
    -- before: both go through and credit the amount twice. Their commits succeed, the columns take
    -- their texts, and the last balance fits a bigint.
    pub give_back_twice :
        (s : Shop) (refund : Option AmountText)
        → IsValid s.wallet
        → find_order o.id s.orders ≡ some o
        → o.status ≡ paid
        → checked_refund o refund ≡ ok amount
        → truthy key ≡ none
        → Fits hash_request charge
        → fits_bigint (get_user_balance o.user_id s.wallet + amount + amount) ≡ true
        → (first second : Option Order) × (s' s'' : Shop) × (refund_order hash_request id_text true
              o.id refund ref_type ref_id key s
            ≡ (ok first, s'))
          × (give_back hash_request id_text true o amount ref_type ref_id key s' ≡ (ok second, s''))
          × (get_user_balance o.user_id s''.wallet
              ≡ get_user_balance o.user_id s.wallet + amount + amount)
    unfolding refund_order
    give_back_twice s refund valid here was_paid checked e fits small =
        let n = get_user_balance o.user_id s.wallet in
        let some_points = checked_refund-positive o refund checked in
        let (first, s', run, valid', moved) =
          give_back_ran s valid some_points e fits
            (fits_bigint_le (n + amount) (n + amount + amount) (omega arith) small) in
        let one : get_user_balance o.user_id s'.wallet ≡ n + amount =
          ground (arith, moved o.user_id) in
        let (second, s'', run', valid'', moved') =
          give_back_ran s' valid' some_points e fits (rw one small) in
        (first, second, s', s'', ground (arith, run), run', ground (arith, one, moved' o.user_id))

    -- Under a key the second of them credits nothing.
    give_back_once :
        (s : Shop) {k : String} {first second : Option Order} {s' s'' : Shop}
        → truthy key ≡ some k
        → give_back hash_request id_text true o amount ref_type ref_id key s ≡ (ok first, s')
        → give_back hash_request id_text true o amount ref_type ref_id key s' ≡ (ok second, s'')
        → s''.wallet ≡ s'.wallet
    give_back_once s {s' = s'} {s'' = s''} e run run' =
        let (body, done, _, _, _) =
          give_back-inv hash_request id_text o amount ref_type ref_id key s true run in
        let (body', done', _, _, _) =
          give_back-inv hash_request id_text o amount ref_type ref_id key s' true run' in
        let (u, t) = derived_key-truthy o.id ":refund" key e in
        cc (done', credit_wallet-replays hash_request charge u s.wallet t none none done)
