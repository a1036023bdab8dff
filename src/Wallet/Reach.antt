-- ===== src/Wallet/Reach.antt =====
-- Every history of the wallet: transactions of credits and debits that commit in any order, each
-- with a balance that it may have read long before, and the clock.
use common_api.Base.{ℕ, ◌+◌, ◌≡◌, refl, Option, String, arith}
use common_api.Action.{ok}
use common_api.Wallet.Entities.{ResponseBody, Wallet, empty_wallet, RequestData, Charge}
use common_api.Wallet.Repository.{get_user_balance}
use common_api.Wallet.Service.{credit_in_transaction, debit_in_transaction}
use common_api.Wallet.Valid.{IsValid, credited, debited, empty_wallet-IsValid, balance_of_lots}
use common_api.Wallet.Debit.{debit_in_transaction-Debits}
use common_api.Wallet.Credit.{credit_in_transaction-Credits}

module _ (hash_request : RequestData → String) where
  pub data Step (w : Wallet) : Wallet → Type 0 where
    credit_commits :
        (c : Charge) (expires : Option ℕ) (amount balance : ℕ) (body : ResponseBody) {w' : Wallet}
        → credit_in_transaction hash_request c expires amount balance w ≡ (ok body, w')
        → Step w w'
    debit_commits :
        (c : Charge) (amount balance : ℕ) (body : ResponseBody) {w' : Wallet}
        → debit_in_transaction hash_request c amount balance w ≡ (ok body, w')
        → Step w w'
    time_passes : (d : ℕ) → Step w (record w { now = w.now + d })

  pub data Reach (w : Wallet) : Wallet → Type 0 where
    here : Reach w w
    next : {v u : Wallet} → Reach w v → Step v u → Reach w u

  Step-IsValid : {w w' : Wallet} → IsValid w → Step w w' → IsValid w'
  Step-IsValid {w} valid (credit_commits c expires amount balance body h) =
      (credit_in_transaction-Credits hash_request c expires amount balance w valid h).1.valid
  Step-IsValid {w} valid (debit_commits c amount balance body h) =
      (debit_in_transaction-Debits hash_request c amount balance w valid h).2.valid
  Step-IsValid {w} valid (time_passes d) = record {
    distinct = valid.distinct;
    below = valid.below;
    audited = λ v.
        omega (arith, valid.audited v, balance_of_lots v w (record w { now = w.now + d }) refl);
  }

  Reach-IsValid : {w w' : Wallet} → IsValid w → Reach w w' → IsValid w'
  Reach-IsValid valid Reach.here = valid
  Reach-IsValid valid (Reach.next r s) = Step-IsValid (Reach-IsValid valid r) s

  -- In every wallet that any history reaches from the empty one, each user's balance is the sum
  -- of the credits in the ledger less the sum of the debits.
  pub Reach-audited :
      {w : Wallet} (v : ℕ)
      → Reach empty_wallet w
      → get_user_balance v w + debited v w.ledger ≡ credited v w.ledger
  Reach-audited v r = (Reach-IsValid empty_wallet-IsValid r).audited v
