-- ===== src/Wallet/Calls.antt =====
-- The calls that other services make (PointService.debitWallet, creditWallet).
use mathlib.Core.Path.{subst}
use common_api.Base.{
  ℕ, zero, suc, ◌≡◌, ◌⊎◌, inl, inr, ap, ◌∙◌, List, Option, none, some, String, arith,
}
use common_api.Exceptions.{Exception}
use common_api.Action.{ok, err, Result-cases}
use common_api.Base.Int.{pos, negsuc}
use common_api.Wallet.Entities.{
  AmountText, integer_of, spells, spells_too, unreadable, LedgerEntry, ResponseBody, entry, entries,
  Wallet, RequestData, Charge,
}
use common_api.Wallet.Repository.{get_user_balance}
use common_api.Wallet.Service.{look_up_key, positive_amount, credit_wallet, debit_wallet}
use common_api.Wallet.Valid.{IsValid}
use common_api.Wallet.Debit.{Debits, debit_in_transaction-Debits}
use common_api.Wallet.Credit.{Credits, credit_entry, credit_in_transaction-Credits}
use common_api.Wallet.Idempotency.{Returns, keyed-Returns, keyed_atomic, keyed-positive}
use common_api.Wallet.Retries.{debit_body, credit_body}

-- The guard passes on the number that a text spells.
positive_amount-integer_of :
    (t : AmountText) (n : ℕ) {amount : ℕ}
    → integer_of t ≡ some (pos n)
    → positive_amount t ≡ ok amount
    → amount ≡ n
unfolding positive_amount
positive_amount-integer_of unreadable n e h = cc
positive_amount-integer_of (spells (pos zero)) n e h = cc
positive_amount-integer_of (spells (pos (suc k))) n e h = ground arith
positive_amount-integer_of (spells (negsuc k)) n e h = cc
positive_amount-integer_of (spells_too t (pos zero)) n e h = cc
positive_amount-integer_of (spells_too t (pos (suc k))) n e h = ground arith
positive_amount-integer_of (spells_too t (negsuc k)) n e h = cc

integer_of-positive_amount :
    (t : AmountText) {amount : ℕ} → positive_amount t ≡ ok amount → integer_of t ≡ some (pos amount)
unfolding positive_amount
integer_of-positive_amount unreadable h = ground arith
integer_of-positive_amount (spells (pos zero)) h = ground arith
integer_of-positive_amount (spells (pos (suc k))) h = ground arith
integer_of-positive_amount (spells (negsuc k)) h = ground arith
integer_of-positive_amount (spells_too t (pos zero)) h = ground arith
integer_of-positive_amount (spells_too t (pos (suc k))) h = ground arith
integer_of-positive_amount (spells_too t (negsuc k)) h = ground arith

module _ (hash_request : RequestData → String) (c : Charge) (w : Wallet) where
  -- A debit under a key that is not stored is a debit that commits.
  pub debit_wallet-Debits :
      {amount : ℕ} {body : ResponseBody} {w' : Wallet}
      → IsValid w
      → positive_amount c.amount ≡ ok amount
      → look_up_key hash_request c w ≡ (ok none, w)
      → debit_wallet hash_request c w ≡ (ok body, w')
      → (es : List LedgerEntry) × (body ≡ entries es) × Debits hash_request c amount w es w'
  unfolding debit_wallet
  debit_wallet-Debits {amount} {body} {w'} valid good new h =
      debit_in_transaction-Debits hash_request c amount (get_user_balance c.user_id w) w valid
        (ground arith)

  credit_wallet-Credits :
      (expires : Option ℕ) {amount : ℕ} {body : ResponseBody} {w' : Wallet}
      → IsValid w
      → positive_amount c.amount ≡ ok amount
      → look_up_key hash_request c w ≡ (ok none, w)
      → credit_wallet hash_request c expires w ≡ (ok body, w')
      → (body ≡ entry (credit_entry c amount (get_user_balance c.user_id w) w))
        × Credits c expires amount (get_user_balance c.user_id w) w w'
  unfolding credit_wallet
  credit_wallet-Credits expires {amount} {body} {w'} valid good new h =
      credit_in_transaction-Credits hash_request c expires amount (get_user_balance c.user_id w) w
        valid (ground arith)

  -- A call that throws writes nothing.
  pub debit_wallet_atomic :
      {e : Exception}
      → (debit_wallet hash_request c w).0 ≡ err e
      → (debit_wallet hash_request c w).1 ≡ w
  unfolding debit_wallet
  debit_wallet_atomic h = keyed_atomic hash_request c (debit_body hash_request c) w h

  credit_wallet_atomic :
      (expires : Option ℕ) {e : Exception}
      → (credit_wallet hash_request c expires w).0 ≡ err e
      → (credit_wallet hash_request c expires w).1 ≡ w
  unfolding credit_wallet
  credit_wallet_atomic expires h =
      keyed_atomic hash_request c (credit_body hash_request c expires) w h

  -- A call that returns moves the number that its amount spells.
  pub debit_wallet_moves :
      (n : ℕ) {body : ResponseBody} {w' : Wallet}
      → IsValid w
      → integer_of c.amount ≡ some (pos n)
      → look_up_key hash_request c w ≡ (ok none, w)
      → debit_wallet hash_request c w ≡ (ok body, w')
      → (es : List LedgerEntry) × (body ≡ entries es) × Debits hash_request c n w es w'
  unfolding debit_wallet
  debit_wallet_moves n {body} {w'} valid e new h =
      let (amount, good) = keyed-positive hash_request c (debit_body hash_request c) w h in
      let (es, same, done) = debit_wallet-Debits valid good new h in
      (
        es,
        same,
        subst (λ k. Debits hash_request c k w es w') (positive_amount-integer_of c.amount n e good)
            done,
      )

  pub credit_wallet_moves :
      (expires : Option ℕ) (n : ℕ) {body : ResponseBody} {w' : Wallet}
      → IsValid w
      → integer_of c.amount ≡ some (pos n)
      → look_up_key hash_request c w ≡ (ok none, w)
      → credit_wallet hash_request c expires w ≡ (ok body, w')
      → Credits c expires n (get_user_balance c.user_id w) w w'
  unfolding credit_wallet
  credit_wallet_moves expires n {body} {w'} valid e new h =
      let (amount, good) = keyed-positive hash_request c (credit_body hash_request c expires) w h in
      let (same, done) = credit_wallet-Credits expires valid good new h in
      subst (λ k. Credits c expires k (get_user_balance c.user_id w) w w')
        (positive_amount-integer_of c.amount n e good) done

  -- What the transaction of a call does, where it commits.
  Returns-Debited :
      {body : ResponseBody} {w' : Wallet}
      → IsValid w
      → debit_wallet hash_request c w ≡ (ok body, w')
      → Returns hash_request c (debit_body hash_request c) w body w'
      → (w' ≡ w)
        ⊎ ((n : ℕ) × (es : List LedgerEntry) × (integer_of c.amount ≡ some (pos n))
            × (body ≡ entries es)
            × Debits hash_request c n w es w')
  Returns-Debited valid h (Returns.cached k found same stay) = inl stay
  Returns-Debited valid h (Returns.committed n good new done) =
      let (es, same, d) = debit_wallet-Debits valid good new h in
      inr (n, es, integer_of-positive_amount c.amount good, same, d)

  -- A call on valid tables leaves them as they were, as it does whenever it throws or finds a
  -- response under its key, or else it returns entries that debit the integer which its amount
  -- spells from its user, and nothing from any other.
  pub debit_wallet-Debited :
      IsValid w
      → ((debit_wallet hash_request c w).1 ≡ w)
        ⊎ ((n : ℕ) × (es : List LedgerEntry) × (integer_of c.amount ≡ some (pos n))
            × ((debit_wallet hash_request c w).0 ≡ ok (entries es))
            × Debits hash_request c n w es (debit_wallet hash_request c w).1)
  debit_wallet-Debited valid = elim (Result-cases (debit_wallet hash_request c w).0) [
    | inr (e, failed) ↦ inl (debit_wallet_atomic failed)
    | inl (body, done) ↦
        let run : debit_wallet hash_request c w ≡ (ok body, (debit_wallet hash_request c w).1) =
          ground (arith, done) in
        elim (Returns-Debited valid run (
          keyed-Returns hash_request c (debit_body hash_request c) w
            (unfold debit_wallet in run))) [
              | inl same ↦ inl same
              | inr (n, es, e, same, d) ↦ inr (n, es, e, done ∙ ap ok same, d)
            ]
  ]
