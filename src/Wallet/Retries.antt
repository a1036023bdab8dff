-- ===== src/Wallet/Retries.antt =====
-- Calls that are repeated, and calls that race, under one idempotency key.
use common_api.Base.{inl, inr, ap, ℕ, ◌≡◌, ◌≢◌, refl, Option, some, String, eq_iff, truthy, arith}
use common_api.Exceptions.{Exception, conflict}
use common_api.Action.{Result-cases, Action, ok, err, in_transaction, gets, ◌>>=◌}
use common_api.Wallet.Entities.{ResponseBody, IdempotencyKey, Wallet, RequestData, Charge}
use common_api.Wallet.Repository.{
  find_key, get_available_lots_for_debit, find_by_key, create_key, get_user_balance,
}
use common_api.Wallet.Service.{
  request_data, save_idempotency, check_idempotency, look_up_key, save_key, positive_amount,
  credit_in_transaction, credit_wallet, debit_in_transaction, debit_wallet,
}
use common_api.Wallet.Loop.{consume_lots-Keeps}
use common_api.Wallet.Debit.{start, finish}
use common_api.Wallet.Idempotency.{
  keyed, Returns, keyed-Returns, keyed-positive, look_up_key-save_key, debit_in_transaction-saves,
  credit_in_transaction-saves,
}

module _ (hash_request : RequestData → String) where
  -- The transactions of the two calls, each with the balance that it reads.
  abbrev pub debit_body : Charge → ℕ → Action Wallet ResponseBody
  debit_body c amount = do
    balance ← gets (get_user_balance c.user_id)
    debit_in_transaction hash_request c amount balance

  abbrev pub credit_body : Charge → Option ℕ → ℕ → Action Wallet ResponseBody
  credit_body c expires amount = do
    balance ← gets (get_user_balance c.user_id)
    credit_in_transaction hash_request c expires amount balance

  debit_wallet-keyed :
      (c : Charge) (w : Wallet)
      → debit_wallet hash_request c w ≡ keyed hash_request c (debit_body c) w
  unfolding debit_wallet
  debit_wallet-keyed c w = refl

  credit_wallet-keyed :
      (c : Charge) (expires : Option ℕ) (w : Wallet)
      → credit_wallet hash_request c expires w ≡ keyed hash_request c (credit_body c expires) w
  unfolding credit_wallet
  credit_wallet-keyed c expires w = refl

  -- A transaction whose commit has stored the response.
  abbrev Saves : Charge → (ℕ → Action Wallet ResponseBody) → Type 0
  Saves c m =
      (amount : ℕ) (v : Wallet) (body : ResponseBody) (w' : Wallet)
      → m amount v ≡ (ok body, w')
      → (u : Wallet) × (save_key hash_request c body u ≡ (ok tt, w'))

  debit_body-Saves : (c : Charge) → Saves c (debit_body c)
  debit_body-Saves c amount v body w' h = (
    (finish c amount (get_user_balance c.user_id v) v).wallet,
    debit_in_transaction-saves hash_request c amount (get_user_balance c.user_id v) v h,
  )

  credit_body-Saves : (c : Charge) (expires : Option ℕ) → Saves c (credit_body c expires)
  credit_body-Saves c expires amount v body w' h =
      let (u, saved, same) =
        credit_in_transaction-saves hash_request c expires amount (get_user_balance c.user_id v) v
          h in
      (u, saved)

  found-replays :
      (c : Charge) (m : ℕ → Action Wallet ResponseBody) (w : Wallet) (k : IdempotencyKey)
      {amount : ℕ}
      → positive_amount c.amount ≡ ok amount
      → look_up_key hash_request c w ≡ (ok (some k), w)
      → keyed hash_request c m w ≡ (ok k.response_body, w)
  found-replays c m w k good found = ground arith

  Returns-replays :
      (c : Charge) (m m' : ℕ → Action Wallet ResponseBody) (key : String) (w : Wallet)
      {body : ResponseBody} {w' : Wallet} {amount : ℕ}
      → Saves c m
      → truthy c.idempotency_key ≡ some key
      → positive_amount c.amount ≡ ok amount
      → Returns hash_request c m w body w'
      → keyed hash_request c m' w' ≡ (ok body, w')
  Returns-replays c m m' key w saves t good (Returns.cached k found same stay) =
      ground (arith, found-replays c m' w k good found)
  Returns-replays c m m' key w {body} {w'} saves t good (Returns.committed amount good' new done) =
      let (u, saved) = saves amount w body w' done in
      found-replays c m' w' _ good (look_up_key-save_key hash_request c body key u t saved)

  keyed-replays :
      (c : Charge) (m m' : ℕ → Action Wallet ResponseBody) (key : String) (w : Wallet)
      {body : ResponseBody} {w' : Wallet}
      → Saves c m
      → truthy c.idempotency_key ≡ some key
      → keyed hash_request c m w ≡ (ok body, w')
      → keyed hash_request c m' w' ≡ (ok body, w')
  keyed-replays c m m' key w saves t h =
      let (amount, good) = keyed-positive hash_request c m w h in
      Returns-replays c m m' key w saves t good (keyed-Returns hash_request c m w h)

  rolled_back :
      (m : Action Wallet ResponseBody) (w : Wallet)
      → ((body : ResponseBody) (w' : Wallet) → m w ≡ (ok body, w') → ⊥)
      → (e : Exception) × (in_transaction m w ≡ (err e, w))
  rolled_back m w never = elim (Result-cases (m w).0) [
    | inl (body, done) ↦ absurd (never body (m w).1 (ground (arith, done)))
    | inr (e, failed) ↦ (e, ground (arith, failed))
  ]

  stored_refuses :
      (c : Charge) (key : String) (body : ResponseBody) (w v : Wallet) {k : IdempotencyKey}
      {w' : Wallet}
      → truthy c.idempotency_key ≡ some key
      → v.keys ≡ w.keys
      → find_by_key c.app_id key w ≡ some k
      → save_key hash_request c body v ≡ (ok tt, w')
      → ⊥
  unfolding save_key find_by_key create_key save_idempotency
  stored_refuses c key body w v t same stored saved =
      ground (arith, ap (find_key c.app_id key) same)

  module _ (c : Charge) (key : String) (w : Wallet)
      (has_key : truthy c.idempotency_key ≡ some key) where
    -- A debit that is sent again under its key returns what it returned, and debits nothing.
    pub debit_wallet-replays :
        {body : ResponseBody} {w' : Wallet}
        → debit_wallet hash_request c w ≡ (ok body, w')
        → debit_wallet hash_request c w' ≡ (ok body, w')
    unfolding debit_wallet
    debit_wallet-replays h =
        keyed-replays c (debit_body c) (debit_body c) key w (debit_body-Saves c) has_key h

    -- So does a credit, also with another date of expiry.
    pub credit_wallet-replays :
        (expires expires' : Option ℕ) {body : ResponseBody} {w' : Wallet}
        → credit_wallet hash_request c expires w ≡ (ok body, w')
        → credit_wallet hash_request c expires' w' ≡ (ok body, w')
    unfolding credit_wallet
    credit_wallet-replays expires expires' h =
        keyed-replays c (credit_body c expires) (credit_body c expires') key w
          (credit_body-Saves c expires) has_key h

    -- A credit under the key and the data of an earlier debit returns the debit's response and
    -- credits nothing: the request that is hashed does not name the operation.
    pub credit_wallet_of_debit :
        (expires : Option ℕ) {body : ResponseBody} {w' : Wallet}
        → debit_wallet hash_request c w ≡ (ok body, w')
        → credit_wallet hash_request c expires w' ≡ (ok body, w')
    unfolding debit_wallet credit_wallet
    credit_wallet_of_debit expires h =
        keyed-replays c (debit_body c) (credit_body c expires) key w (debit_body-Saves c) has_key h

    -- A request of a positive amount whose key is stored with the hash of other data is refused,
    -- as a debit and as a credit, and changes nothing.
    wallet_conflict :
        (expires : Option ℕ) (k : IdempotencyKey) {amount : ℕ}
        → positive_amount c.amount ≡ ok amount
        → find_by_key c.app_id key w ≡ some k
        → k.request_hash ≢ hash_request (request_data c)
        → (debit_wallet hash_request c w
            ≡ (err (conflict "Idempotency key reused with different request body"), w))
          × (credit_wallet hash_request c expires w
              ≡ (err (conflict "Idempotency key reused with different request body"), w))
    unfolding debit_wallet credit_wallet look_up_key check_idempotency
    wallet_conflict expires k good found other =
        ground (arith, eq_iff k.request_hash (hash_request (request_data c)))

    -- A transaction that began before the key was stored fails once it is, whatever balance it
    -- read, and is rolled back: of two racing calls at most one commits.
    pub wallet_race :
        (expires : Option ℕ) (k : IdempotencyKey) (amount balance : ℕ)
        → find_by_key c.app_id key w ≡ some k
        → ((e : Exception) × (in_transaction (debit_in_transaction hash_request c amount balance) w
              ≡ (err e, w)))
          × ((e : Exception) × (in_transaction
                  (credit_in_transaction hash_request c expires amount balance)
                  w
                ≡ (err e, w)))
    wallet_race expires k amount balance stored = (
      rolled_back (debit_in_transaction hash_request c amount balance) w (λ body w' h.
          let s = finish c amount balance w in
          stored_refuses c key body w s.wallet has_key
            (consume_lots-Keeps w.ledger c (get_available_lots_for_debit c.user_id w)
              (start amount balance w)).same_keys
            stored (debit_in_transaction-saves hash_request c amount balance w h)),
      rolled_back (credit_in_transaction hash_request c expires amount balance) w (λ body w' h.
          let (u, saved, same) =
            credit_in_transaction-saves hash_request c expires amount balance w h in
          stored_refuses c key body w u has_key same stored saved),
    )
