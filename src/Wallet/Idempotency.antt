-- ===== src/Wallet/Idempotency.antt =====
-- The idempotency keys of the wallet (PointService.checkIdempotency, saveIdempotency and the
-- unique index of IdempotencyKeyEntity).
use common_api.Base.{
  ℕ, ◌≡◌, refl, inl, inr, true, List, ◌∷◌, Option, some, none, String, str_eq, eq_iff, truthy,
  arith,
}
use common_api.Exceptions.{Exception}
use common_api.Action.{Result-cases, lift, ◌>>=◌, Action, ok, err, in_transaction}
use common_api.Wallet.Entities.{ResponseBody, IdempotencyKey, Wallet, RequestData, Charge}
use common_api.Wallet.Repository.{find_key, create_key, create_lot, create_entry}
use common_api.Wallet.Service.{
  request_data, look_up_key, save_key, positive_amount, credit_in_transaction, debit_in_transaction,
  replay_or,
}
use common_api.Wallet.Debit.{finish}
use common_api.Wallet.Credit.{credited_wallet}

str_eq_self : (s : String) → str_eq s s ≡ true
str_eq_self s = (eq_iff s s).1 refl

find_key_head :
    (k : IdempotencyKey) (ks : List IdempotencyKey)
    → find_key k.app_id k.idempotency_key (k ∷ ks) ≡ some k
unfolding find_key
find_key_head k ks = ground (arith, str_eq_self k.idempotency_key)

module _ (hash_request : RequestData → String) where
  abbrev pub key_row : Charge → String → ResponseBody → IdempotencyKey
  key_row c key body = record {
    app_id = c.app_id;
    idempotency_key = key;
    request_hash = hash_request (request_data c);
    response_body = body;
    http_status = 200;
  }

  -- After a save that goes through, the look-up of the same request finds what was saved.
  pub look_up_key-save_key :
      (c : Charge) (body : ResponseBody) (key : String) (w : Wallet) {w' : Wallet}
      → truthy c.idempotency_key ≡ some key
      → save_key hash_request c body w ≡ (ok tt, w')
      → look_up_key hash_request c w' ≡ (ok (some (key_row c key body)), w')
  unfolding look_up_key save_key create_key
  look_up_key-save_key c body key w t h = ground (
    arith,
    t,
    find_key_head (key_row c key body) w.keys,
    str_eq_self (hash_request (request_data c)),
  )

  -- A look-up writes nothing.
  look_up_key-keeps : (c : Charge) (w : Wallet) → (look_up_key hash_request c w).1 ≡ w
  unfolding look_up_key
  look_up_key-keeps c w = ground arith

  -- A transaction that commits has saved its response.
  pub debit_in_transaction-saves :
      (c : Charge) (amount balance : ℕ) (w : Wallet) {body : ResponseBody} {w' : Wallet}
      → debit_in_transaction hash_request c amount balance w ≡ (ok body, w')
      → save_key hash_request c body (finish c amount balance w).wallet ≡ (ok tt, w')
  unfolding debit_in_transaction
  debit_in_transaction-saves c amount balance w h = ground arith

  pub credit_in_transaction-saves :
      (c : Charge) (expires : Option ℕ) (amount balance : ℕ) (w : Wallet) {body : ResponseBody}
      {w' : Wallet}
      → credit_in_transaction hash_request c expires amount balance w ≡ (ok body, w')
      → (v : Wallet) × (save_key hash_request c body v ≡ (ok tt, w')) × (v.keys ≡ w.keys)
  unfolding credit_in_transaction create_lot create_entry
  credit_in_transaction-saves c expires amount balance w h =
      (credited_wallet c expires amount balance w, ground arith, refl)

  -- The shape that `creditWallet` and `debitWallet` share: the guard on the amount, the look-up,
  -- the transaction.
  abbrev pub keyed : Charge → (ℕ → Action Wallet ResponseBody) → Action Wallet ResponseBody
  keyed c m = do
    amount ← lift (positive_amount c.amount)
    cached ← look_up_key hash_request c
    replay_or hash_request (in_transaction (m amount)) cached

  -- How a call returns: it found the key and wrote nothing, or its transaction committed.
  pub data Returns (c : Charge) (m : ℕ → Action Wallet ResponseBody) (w : Wallet)
      (body : ResponseBody) (w' : Wallet) : Type 0 where
    cached :
        (k : IdempotencyKey)
        → look_up_key hash_request c w ≡ (ok (some k), w)
        → body ≡ k.response_body
        → w' ≡ w
        → Returns c m w body w'
    committed :
        (amount : ℕ)
        → positive_amount c.amount ≡ ok amount
        → look_up_key hash_request c w ≡ (ok none, w)
        → m amount w ≡ (ok body, w')
        → Returns c m w body w'

  module _ (c : Charge) (m : ℕ → Action Wallet ResponseBody) (w : Wallet) where
    pub keyed-Returns :
        {body : ResponseBody} {w' : Wallet} → keyed c m w ≡ (ok body, w') → Returns c m w body w'
    keyed-Returns h = elim (Result-cases (positive_amount c.amount)) [
      | inr (e, bad) ↦ ground (arith)
      | inl (amount, good) ↦ elim (Result-cases (look_up_key hash_request c w).0) [
        | inr (e, bad) ↦ ground (arith, look_up_key-keeps c w)
        | inl (none, new) ↦
            committed amount good (ground (arith, look_up_key-keeps c w))
              (ground (arith, look_up_key-keeps c w))
        | inl (some k, old) ↦
            cached k (ground (arith, look_up_key-keeps c w)) (ground (arith, look_up_key-keeps c w))
              (ground (arith, look_up_key-keeps c w))
      ]
    ]

    -- A call that fails leaves the tables as they were.
    pub keyed_atomic : {e : Exception} → (keyed c m w).0 ≡ err e → (keyed c m w).1 ≡ w
    keyed_atomic h = ground (arith, look_up_key-keeps c w)

    -- A call that returns has passed the guard on the amount.
    pub keyed-positive :
        {body : ResponseBody} {w' : Wallet}
        → keyed c m w ≡ (ok body, w')
        → (amount : ℕ) × (positive_amount c.amount ≡ ok amount)
    keyed-positive h = elim (Result-cases (positive_amount c.amount)) [
      | inl good ↦ good
      | inr (e, bad) ↦ ground arith
    ]
