-- ===== src/Wallet/Service.antt =====
-- PointService (modules/point/point.service.ts). A transaction's body is an action of its own,
-- given the balance that was read outside the lock on the rows; the failures of the database are
-- the unique index on idempotency keys.
use common_api.Base.{
  ℕ, zero, suc, String, List, [], ◌∷◌, ◌++◌, Option, none, some, ltb, ◌==◌, str_eq, if◌then◌else◌,
  Bool, true, not, ◌&&◌, truthy, ◌+◌, ◌-◌,
}
use common_api.Base.Int.{pos, negsuc}
use common_api.Exceptions.{bad_request, conflict, plain_error}
use common_api.Action.{
  Result, ok, err, Action, pure, gets, lift, in_transaction, ◌>>=◌, ◌>>◌, throw_if,
}
use common_api.Wallet.Entities.{
  WalletDirection, credit, debit, WalletLot, LedgerEntry, ResponseBody, entry, entries,
  IdempotencyKey, Wallet, AmountText, spells, spells_too, unreadable, RequestData, Charge,
}
use common_api.Wallet.Repository.{
  create_lot, get_available_lots_for_debit, update_remaining_amount, get_user_balance, NewEntry,
  create_entry, entry_of, insert_entry, takes_entry, find_by_key, create_key,
}

-- `BigInt(amount)` and the guard on it
unfoldable pub positive_amount : AmountText → Result ℕ
positive_amount unreadable = err (plain_error "Cannot convert to a BigInt")
positive_amount (spells (pos zero)) = err (bad_request "Amount must be positive")
positive_amount (spells (pos (suc n))) = ok (suc n)
positive_amount (spells (negsuc n)) = err (bad_request "Amount must be positive")
positive_amount (spells_too t (pos zero)) = err (bad_request "Amount must be positive")
positive_amount (spells_too t (pos (suc n))) = ok (suc n)
positive_amount (spells_too t (negsuc n)) = err (bad_request "Amount must be positive")

abbrev pub request_data : Charge → RequestData
request_data c = record {
  amount = c.amount;
  user_id = c.user_id;
  reason = c.reason;
  ref_type = c.ref_type;
  ref_id = c.ref_id;
}

-- The variables of the loop in `debitWallet`, and the tables that it writes.
pub record DebitLoop : Type 0 where
  pub remaining : ℕ
  pub running_balance : ℕ
  pub written : List LedgerEntry
  pub wallet : Wallet

abbrev pub entry_data : Charge → WalletDirection → ℕ → ℕ → ℕ → NewEntry
entry_data c dir lot amount snapshot = record {
  app_id = c.app_id;
  user_id = c.user_id;
  lot_id = some lot;
  direction = dir;
  amount = amount;
  reason = c.reason;
  ref_type = c.ref_type;
  ref_id = c.ref_id;
  balance_snapshot = snapshot;
}

-- One round of the loop. A column that refuses the entry throws out of the loop, which is tested
-- after it: the transaction is rolled back either way.
unfoldable pub consume_lot : Charge → WalletLot → DebitLoop → DebitLoop
unfolding update_remaining_amount
consume_lot c lot s =
    let from_this_lot =
      if ltb s.remaining lot.remaining_amount then s.remaining else lot.remaining_amount in
    let w = update_remaining_amount lot.id (lot.remaining_amount - from_this_lot) s.wallet in
    let balance = s.running_balance - from_this_lot in
    let e = entry_of (entry_data c debit lot.id from_this_lot balance) w in
    record {
      remaining = s.remaining - from_this_lot;
      running_balance = balance;
      written = s.written ++ e ∷ [];
      wallet = insert_entry e w;
    }

-- `for (const lot of lots) { if (remaining === 0) break; … }`
unfoldable pub consume_lots : Charge → List WalletLot → DebitLoop → DebitLoop
consume_lots c [] s = s
consume_lots c (lot ∷ lots) s =
    if s.remaining == 0 then s else consume_lots c lots (consume_lot c lot s)

-- Whether the columns take every entry that the loop writes.
unfoldable pub all_taken : List LedgerEntry → Bool
all_taken [] = true
all_taken (e ∷ es) = takes_entry e && all_taken es

-- `crypto.createHash('sha256')` of the canonical JSON is not code of this repository.
module _ (hash_request : RequestData → String) where
  -- PointService.checkIdempotency
  unfoldable pub check_idempotency : Charge → String → Action Wallet (Option IdempotencyKey)
  unfolding find_by_key
  check_idempotency c key w = elim (find_by_key c.app_id key w) [
    | none ↦ (ok none, w)
    | some existing ↦
        if str_eq existing.request_hash (hash_request (request_data c))
        then (ok (some existing), w)
        else (err (conflict "Idempotency key reused with different request body"), w)
  ]

  -- PointService.saveIdempotency
  unfoldable pub save_idempotency : Charge → String → ResponseBody → Action Wallet (Unit {0})
  unfolding create_key
  save_idempotency c key body = create_key (record {
    app_id = c.app_id;
    idempotency_key = key;
    request_hash = hash_request (request_data c);
    response_body = body;
    http_status = 200;
  })

  -- `if (idempotencyKey) { … }` before and inside the transaction
  unfoldable pub look_up_key : Charge → Action Wallet (Option IdempotencyKey)
  unfolding check_idempotency
  look_up_key c w = elim (truthy c.idempotency_key) [
    | none ↦ (ok none, w)
    | some key ↦ check_idempotency c key w
  ]

  unfoldable pub save_key : Charge → ResponseBody → Action Wallet (Unit {0})
  unfolding save_idempotency
  save_key c body w = elim (truthy c.idempotency_key) [
    | none ↦ (ok tt, w)
    | some key ↦ save_idempotency c key body w
  ]

  -- A cached response, or else the transaction.
  abbrev pub replay_or :
      Action Wallet ResponseBody → Option IdempotencyKey → Action Wallet ResponseBody
  replay_or m (some existing) = pure existing.response_body
  replay_or m none = m

  -- The transaction of `creditWallet`.
  unfoldable pub credit_in_transaction : Charge → Option ℕ → ℕ → ℕ → Action Wallet ResponseBody
  credit_in_transaction c expires amount current_balance = do
    lot ← create_lot c.app_id c.user_id amount expires
    e ← create_entry (entry_data c credit lot.id amount (current_balance + amount))
    save_key c (entry e)
    pure (entry e)

  -- PointService.creditWallet
  unfoldable pub credit_wallet : Charge → Option ℕ → Action Wallet ResponseBody
  credit_wallet c expires = do
    amount ← lift (positive_amount c.amount)
    cached ← look_up_key c
    replay_or
        (in_transaction do
          current_balance ← gets (get_user_balance c.user_id)
          credit_in_transaction c expires amount current_balance)
        cached

  abbrev run_loop : Charge → ℕ → ℕ → List WalletLot → Action Wallet DebitLoop
  run_loop c amount current_balance lots w =
      let s = consume_lots c lots (record {
        remaining = amount;
        running_balance = current_balance;
        written = [];
        wallet = w;
      }) in
      (ok s, s.wallet)

  -- The transaction of `debitWallet`.
  unfoldable pub debit_in_transaction : Charge → ℕ → ℕ → Action Wallet ResponseBody
  debit_in_transaction c amount current_balance = do
    throw_if (ltb current_balance amount) (bad_request "Insufficient balance")
    lots ← gets (get_available_lots_for_debit c.user_id)
    s ← run_loop c amount current_balance lots
    throw_if (not (all_taken s.written)) (plain_error "a column refuses the value")
    throw_if (ltb 0 s.remaining) (bad_request "Failed to debit full amount")
    save_key c (entries s.written)
    pure (entries s.written)

  -- PointService.debitWallet
  unfoldable pub debit_wallet : Charge → Action Wallet ResponseBody
  debit_wallet c = do
    amount ← lift (positive_amount c.amount)
    cached ← look_up_key c
    replay_or
        (in_transaction do
          current_balance ← gets (get_user_balance c.user_id)
          debit_in_transaction c amount current_balance)
        cached
