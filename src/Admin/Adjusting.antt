-- ===== src/Admin/Adjusting.antt =====
-- AdminService.adjustWallet (modules/admin/admin.service.ts) over the point wallet. The user is
-- looked up among the accounts; `reason`, which the method is given, is not read.
use Prim.Native.String.{◌++◌ as append}
use common_api.Base.{
  ℕ, zero, suc, ◌+◌, ◌≡◌, refl, String, some, none, Option-cases, inl, inr, arith,
}
use common_api.Base.Int.{ℤ, pos, negsuc}
use common_api.Exceptions.{bad_request, not_found, plain_error}
use common_api.Action.{ok, err, Action}
use common_api.Wallet.Entities.{
  admin_adjust, AmountText, integer_of, spells, spells_too, unreadable, RequestData, Charge,
  ResponseBody, Wallet,
}
use common_api.Wallet.Repository.{get_user_balance}
use common_api.Wallet.Service.{credit_wallet, debit_wallet, look_up_key}
use common_api.Wallet.Valid.{IsValid}
use common_api.Wallet.Balance.{share}
use common_api.Wallet.Calls.{credit_wallet_moves, debit_wallet_moves}
use common_api.Auth.Entities.{User, Accounts}
use common_api.Auth.Repository.{find_user}

-- The arguments that either direction passes on.
abbrev pub adjustment : ℕ → ℕ → AmountText → String → Charge
adjustment app_id user_id amount key = record {
  app_id = app_id;
  user_id = user_id;
  amount = amount;
  reason = admin_adjust;
  ref_type = "admin_adjustment";
  ref_id = append "admin_adj_" key;
  idempotency_key = some key;
}

-- The text that is passed on: the amount, or the amount without its sign.
abbrev pub absolute_amount : AmountText → AmountText
absolute_amount unreadable = unreadable
absolute_amount (spells (pos n)) = spells (pos n)
absolute_amount (spells (negsuc n)) = spells (pos (suc n))
absolute_amount (spells_too t (pos n)) = spells_too t (pos n)
absolute_amount (spells_too t (negsuc n)) = spells (pos (suc n))

-- How a signed number that is given to one user changes the balance of a user.
abbrev pub ChangedBy : ℕ → ℕ → ℤ → ℕ → ℕ → Type 0
ChangedBy user_id v (pos n) before after = after ≡ before + share user_id v n
ChangedBy user_id v (negsuc n) before after = after + share user_id v (suc n) ≡ before

module _ (hash_request : RequestData → String) where
  -- The end of adjustWallet, once the user is found.
  unfoldable pub adjust_found : ℕ → ℕ → AmountText → String → Action Wallet ResponseBody
  adjust_found app_id user_id unreadable key w = (err (plain_error "Cannot convert to a BigInt"), w)
  adjust_found app_id user_id (spells (pos zero)) key w =
      (err (bad_request "Amount cannot be zero"), w)
  adjust_found app_id user_id (spells (pos (suc n))) key w =
      credit_wallet hash_request (adjustment app_id user_id (spells (pos (suc n))) key) none w
  adjust_found app_id user_id (spells (negsuc n)) key w =
      debit_wallet hash_request (adjustment app_id user_id (spells (pos (suc n))) key) w
  adjust_found app_id user_id (spells_too t (pos zero)) key w =
      (err (bad_request "Amount cannot be zero"), w)
  adjust_found app_id user_id (spells_too t (pos (suc n))) key w =
      credit_wallet hash_request (adjustment app_id user_id (spells_too t (pos (suc n))) key) none w
  adjust_found app_id user_id (spells_too t (negsuc n)) key w =
      debit_wallet hash_request (adjustment app_id user_id (spells (pos (suc n))) key) w

  -- adjustWallet
  unfoldable pub adjust_wallet : Accounts → ℕ → ℕ → AmountText → String → Action Wallet ResponseBody
  adjust_wallet accounts app_id user_id amount key w = elim (find_user user_id accounts) [
    | none ↦ (err (not_found "User not found"), w)
    | some _ ↦ adjust_found app_id user_id amount key w
  ]

  -- A call that returns, for a text that spells `z`.
  abbrev Changed : ℕ → ℤ → Wallet → Wallet → Type 0
  Changed user_id z w w' =
      IsValid w' × ((v : ℕ) → ChangedBy user_id v z (get_user_balance v w) (get_user_balance v w'))

  module _ (app_id user_id : ℕ) (key : String) (w : Wallet) {body : ResponseBody} {w' : Wallet}
      (valid : IsValid w) where
    credited-Changed :
        (t : AmountText) (n : ℕ)
        → integer_of t ≡ some (pos n)
        → look_up_key hash_request (adjustment app_id user_id t key) w ≡ (ok none, w)
        → credit_wallet hash_request (adjustment app_id user_id t key) none w ≡ (ok body, w')
        → Changed user_id (pos n) w w'
    credited-Changed t n e new h =
        let c = adjustment app_id user_id t key in
        let done = credit_wallet_moves hash_request c w none n valid e new h in
        (done.valid, λ v. done.balances v)

    debited-Changed :
        (n : ℕ)
        → let c = adjustment app_id user_id (spells (pos (suc n))) key in
          look_up_key hash_request c w ≡ (ok none, w)
          → debit_wallet hash_request c w ≡ (ok body, w')
          → Changed user_id (negsuc n) w w'
    debited-Changed n new h =
        let c = adjustment app_id user_id (spells (pos (suc n))) key in
        let (es, _, done) = debit_wallet_moves hash_request c w (suc n) valid refl new h in
        (done.valid, λ v. done.balances v)

    adjust_found-Changed :
        (t : AmountText)
        → look_up_key hash_request (adjustment app_id user_id (absolute_amount t) key) w
          ≡ (ok none, w)
        → adjust_found app_id user_id t key w ≡ (ok body, w')
        → (z : ℤ) × (integer_of t ≡ some z) × Changed user_id z w w'
    unfolding adjust_found
    adjust_found-Changed unreadable new h = ground arith
    adjust_found-Changed (spells (pos zero)) new h = ground arith
    adjust_found-Changed (spells (pos (suc n))) new h =
        (pos (suc n), refl, credited-Changed (spells (pos (suc n))) (suc n) refl new h)
    adjust_found-Changed (spells (negsuc n)) new h = (negsuc n, refl, debited-Changed n new h)
    adjust_found-Changed (spells_too t (pos zero)) new h = ground arith
    adjust_found-Changed (spells_too t (pos (suc n))) new h =
        (pos (suc n), refl, credited-Changed (spells_too t (pos (suc n))) (suc n) refl new h)
    adjust_found-Changed (spells_too t (negsuc n)) new h = (negsuc n, refl, debited-Changed n new h)

  -- An adjustment of a valid wallet that returns, under a key that is not stored yet, has found the
  -- user and read an integer, and changes the balance of that user by this signed integer and no
  -- other balance; the wallet stays valid.
  pub adjust_wallet-ChangedBy :
      (accounts : Accounts) (app_id user_id : ℕ) (t : AmountText) (key : String) (w : Wallet)
      {body : ResponseBody} {w' : Wallet}
      → IsValid w
      → look_up_key hash_request (adjustment app_id user_id (absolute_amount t) key) w
        ≡ (ok none, w)
      → adjust_wallet accounts app_id user_id t key w ≡ (ok body, w')
      → ((u : User) × (find_user user_id accounts ≡ some u))
        × (z : ℤ) × (integer_of t ≡ some z)
        × IsValid w'
        × ((v : ℕ) → ChangedBy user_id v z (get_user_balance v w) (get_user_balance v w'))
  unfolding adjust_wallet
  adjust_wallet-ChangedBy accounts app_id user_id t key w {body} {w'} valid new h =
      let done = λ (u : User) (found : find_user user_id accounts ≡ some u).
        adjust_found-Changed app_id user_id key w {body = body} {w' = w'} valid t new
          (ground (arith, found, h)) in
      elim (Option-cases (find_user user_id accounts)) [
        | inl gone ↦ ground (arith, gone, h)
        | inr (u, found) ↦
            let (z, e, changed) = done u found in ((u, found), z, e, changed.0, changed.1)
      ]
