-- ===== src/Tests/WalletTests.antt =====
-- The wallet at concrete inputs (modules/point/point.service.ts).
use common_api.Base.{
  ◌≤◌, ◌<◌, true, ℕ, ◌+◌, ◌≡◌, ◌⊎◌, refl, List, [], ◌∷◌, Option, some, none, String, arith,
}
use common_api.Base.Int.{pos}
use common_api.Exceptions.{Exception, bad_request}
use common_api.Action.{ok, err, in_transaction}
use common_api.Wallet.Entities.{
  credit, debit, promotion, buy_item, WalletLot, LedgerEntry, ResponseBody, entry, entries,
  IdempotencyKey, Wallet, empty_wallet, spells, integer_of, RequestData, Charge,
}
use common_api.Wallet.Repository.{
  fits_varchar, fits_bigint, takes_entry, takes_key, create_lot, create_entry,
  get_available_lots_for_debit, get_user_balance, find_by_key, create_key,
}
use common_api.Wallet.Service.{
  all_taken, positive_amount, check_idempotency, save_idempotency, look_up_key, save_key,
  consume_lot, consume_lots, credit_in_transaction, credit_wallet, debit_in_transaction,
  debit_wallet,
}
use common_api.Wallet.Valid.{IsValid, credited, debited}
use common_api.Wallet.Debit.{Debits, debit_in_transaction-Debits}
use common_api.Wallet.Credit.{Credits, credit_entry, credit_in_transaction-Credits}
use common_api.Wallet.Fifo.{Snapshots}
use common_api.Wallet.Queue.{
  TakenInOrder, debit_in_transaction-TakenInOrder, debit_in_transaction-Snapshots,
}
use mathlib.Core.Option.{some_inj}
use mathlib.Core.Path.{subst}
use common_api.Wallet.Columns.{Fits}
use common_api.Wallet.Balance.{share}
use common_api.Wallet.Calls.{debit_wallet-Debited}
use common_api.Wallet.Retries.{debit_wallet-replays, credit_wallet_of_debit, wallet_race}
use common_api.Wallet.Coverage.{debit_wallet_decided}
use common_api.Wallet.Reach.{Step, Reach, Reach-audited}

abbrev by_ref : RequestData → String
by_ref d = d.ref_id

abbrev charge : ℕ → Option String → Charge
charge n key = record {
  app_id = 1;
  user_id = 7;
  amount = spells (pos n);
  reason = buy_item;
  ref_type = "order";
  ref_id = "o1";
  idempotency_key = key;
}

abbrev lot : ℕ → ℕ → ℕ → WalletLot
lot i n t = record {
  id = i;
  app_id = 1;
  user_id = 7;
  initial_amount = n;
  remaining_amount = n;
  expires_at = none;
  created_at = t;
}

abbrev granted : ℕ → ℕ → ℕ → ℕ → LedgerEntry
granted i l n b = record {
  id = i;
  app_id = 1;
  user_id = 7;
  lot_id = some l;
  direction = credit;
  amount = n;
  reason = promotion;
  ref_type = "event";
  ref_id = "e1";
  balance_snapshot = b;
  created_at = 0;
}

-- The second row is the older lot.
abbrev two_lots : Wallet
two_lots = record {
  lots = lot 0 30 5 ∷ lot 2 50 3 ∷ [];
  ledger = granted 1 0 30 30 ∷ granted 3 2 50 80 ∷ [];
  keys = [];
  next_id = 4;
  now = 9;
}

two_lots-IsValid : IsValid two_lots
unfolding get_user_balance
two_lots-IsValid = record {
  distinct = (refl, (refl, tt));
  below = omega arith;
  audited = λ v. ground arith;
}

abbrev keyed_charge : Charge
keyed_charge = charge 60 (some "k1")

abbrev taken_entry : ℕ → ℕ → ℕ → ℕ → LedgerEntry
taken_entry i l n b = record {
  id = i;
  app_id = 1;
  user_id = 7;
  lot_id = some l;
  direction = debit;
  amount = n;
  reason = buy_item;
  ref_type = "order";
  ref_id = "o1";
  balance_snapshot = b;
  created_at = 9;
}

-- The older lot pays first, and whole.
abbrev paid_entries : List LedgerEntry
paid_entries = taken_entry 4 2 50 30 ∷ taken_entry 5 0 10 20 ∷ []

abbrev after_debit : Wallet
after_debit = (debit_in_transaction by_ref keyed_charge 60 80 two_lots).1

debit_ran :
    debit_in_transaction by_ref keyed_charge 60 80 two_lots
    ≡ (ok (entries paid_entries), after_debit)
unfolding debit_in_transaction consume_lots consume_lot get_available_lots_for_debit save_key
    save_idempotency create_key fits_varchar fits_bigint takes_entry takes_key all_taken
debit_ran = refl

wallet_debit_ran :
    debit_wallet by_ref keyed_charge two_lots ≡ (ok (entries paid_entries), after_debit)
unfolding debit_wallet positive_amount look_up_key check_idempotency debit_in_transaction
    consume_lots consume_lot get_available_lots_for_debit get_user_balance save_key save_idempotency
    create_key fits_varchar fits_bigint takes_entry takes_key all_taken
wallet_debit_ran = refl

debit_in_transaction-Debits_example :
    (es : List LedgerEntry) × (entries paid_entries ≡ entries es)
    × Debits by_ref keyed_charge 60 two_lots es after_debit
debit_in_transaction-Debits_example =
    debit_in_transaction-Debits by_ref keyed_charge 60 80 two_lots two_lots-IsValid debit_ran

debit_in_transaction-TakenInOrder_example :
    TakenInOrder (get_available_lots_for_debit 7 two_lots) 60 paid_entries
debit_in_transaction-TakenInOrder_example =
    debit_in_transaction-TakenInOrder by_ref keyed_charge 60 80 two_lots paid_entries debit_ran

debit_in_transaction-Snapshots_example : Snapshots 80 0 paid_entries
debit_in_transaction-Snapshots_example =
    debit_in_transaction-Snapshots by_ref keyed_charge 60 80 two_lots paid_entries debit_ran

abbrev credited_after : Wallet
credited_after = (credit_in_transaction by_ref keyed_charge none 60 80 two_lots).1

abbrev credited_body : ResponseBody
credited_body = entry (credit_entry keyed_charge 60 80 two_lots)

credit_ran :
    credit_in_transaction by_ref keyed_charge none 60 80 two_lots
    ≡ (ok credited_body, credited_after)
unfolding credit_in_transaction create_lot create_entry save_key save_idempotency create_key
    fits_varchar fits_bigint takes_entry takes_key all_taken
credit_ran = refl

credit_in_transaction-Credits_example :
    (credited_body ≡ credited_body) × Credits keyed_charge none 60 80 two_lots credited_after
credit_in_transaction-Credits_example =
    credit_in_transaction-Credits by_ref keyed_charge none 60 80 two_lots two_lots-IsValid
      credit_ran

k1_fits : (k : String) → some "k1" ≡ some k → fits_varchar 255 k ≡ true
unfolding fits_varchar
k1_fits k e = subst (λ t. fits_varchar 255 t ≡ true) (some_inj.0 e) refl

keyed_charge-Fits : Fits by_ref keyed_charge
unfolding fits_varchar
keyed_charge-Fits = record { ref_type = refl; ref_id = refl; key = k1_fits; hash = refl }

debit_wallet_decided_example :
    (60 ≤ get_user_balance 7 two_lots
      → (es : List LedgerEntry) × (w' : Wallet) × (debit_wallet by_ref keyed_charge two_lots
          ≡ (ok (entries es), w'))
        × ((v : ℕ) → get_user_balance v w' + share 7 v 60 ≡ get_user_balance v two_lots))
    × (get_user_balance 7 two_lots < 60
        → debit_wallet by_ref keyed_charge two_lots
          ≡ (err (bad_request "Insufficient balance"), two_lots))
unfolding positive_amount look_up_key get_user_balance fits_bigint
debit_wallet_decided_example =
    debit_wallet_decided by_ref keyed_charge two_lots {amount = 60} two_lots-IsValid refl refl
      keyed_charge-Fits refl

debit_wallet-Debited_example :
    ((debit_wallet by_ref keyed_charge two_lots).1 ≡ two_lots)
    ⊎ ((n : ℕ) × (es : List LedgerEntry) × (integer_of keyed_charge.amount ≡ some (pos n))
        × ((debit_wallet by_ref keyed_charge two_lots).0 ≡ ok (entries es))
        × Debits by_ref keyed_charge n two_lots es (debit_wallet by_ref keyed_charge two_lots).1)
debit_wallet-Debited_example = debit_wallet-Debited by_ref keyed_charge two_lots two_lots-IsValid

debit_wallet-replays_example :
    debit_wallet by_ref keyed_charge after_debit ≡ (ok (entries paid_entries), after_debit)
debit_wallet-replays_example =
    debit_wallet-replays by_ref keyed_charge "k1" two_lots refl wallet_debit_ran

credit_wallet_of_debit_example :
    credit_wallet by_ref keyed_charge none after_debit ≡ (ok (entries paid_entries), after_debit)
credit_wallet_of_debit_example =
    credit_wallet_of_debit by_ref keyed_charge "k1" two_lots refl none wallet_debit_ran

credit_wallet_ran :
    credit_wallet by_ref keyed_charge none two_lots ≡ (ok credited_body, credited_after)
unfolding credit_wallet positive_amount look_up_key check_idempotency credit_in_transaction
    create_lot create_entry get_user_balance save_key save_idempotency create_key fits_varchar
    fits_bigint takes_entry takes_key all_taken
credit_wallet_ran = refl

-- The same key with another reference, so with another hash.
abbrev other_charge : Charge
other_charge = record keyed_charge { ref_id = "o2" }

abbrev stored_key : IdempotencyKey
stored_key = record {
  app_id = 1;
  idempotency_key = "k1";
  request_hash = "o1";
  response_body = entries paid_entries;
  http_status = 200;
}

wallet_race_example :
    ((e : Exception) × (in_transaction (debit_in_transaction by_ref keyed_charge 5 80) after_debit
        ≡ (err e, after_debit)))
    × ((e : Exception) × (in_transaction
            (credit_in_transaction by_ref keyed_charge none 5 80)
            after_debit
          ≡ (err e, after_debit)))
unfolding find_by_key debit_in_transaction consume_lots consume_lot get_available_lots_for_debit
    save_key save_idempotency create_key fits_varchar fits_bigint takes_entry takes_key all_taken
wallet_race_example =
    wallet_race by_ref keyed_charge "k1" after_debit refl none stored_key 5 80 refl

abbrev first_credit : Wallet
first_credit = (credit_in_transaction by_ref keyed_charge none 60 0 empty_wallet).1

first_credit-Reach : Reach by_ref empty_wallet first_credit
unfolding credit_in_transaction create_lot create_entry save_key save_idempotency create_key
    fits_varchar fits_bigint takes_entry takes_key all_taken
first_credit-Reach = Reach.next Reach.here (
    Step.credit_commits keyed_charge none 60 0 (entry (credit_entry keyed_charge 60 0 empty_wallet))
      refl)

Reach-audited_example :
    get_user_balance 7 first_credit + debited 7 first_credit.ledger ≡ credited 7 first_credit.ledger
Reach-audited_example = Reach-audited by_ref 7 first_credit-Reach
