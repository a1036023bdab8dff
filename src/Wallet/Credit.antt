-- ===== src/Wallet/Credit.antt =====
-- What a credit does (PointService.creditWallet): one new lot of the amount, one entry.
use mathlib.Core.Path.{subst}
use common_api.Base.{ℕ, ◌+◌, ◌≡◌, refl, sym, ap, [], ◌∷◌, ◌++◌, Option, String, total-append, arith}
use common_api.Base.Table.{append-Distinct, append-Below, Below-mono}
use common_api.Action.{ok}
use common_api.Wallet.Entities.{
  WalletLot, LedgerEntry, ResponseBody, entry, Wallet, RequestData, Charge, credit, debit,
}
use common_api.Wallet.Repository.{get_user_balance, create_lot, create_entry, entry_of}
use common_api.Wallet.Service.{save_key, credit_in_transaction, entry_data}
use common_api.Wallet.Balance.{lot_key, share, balance-append, get_user_balance-total}
use common_api.Wallet.Valid.{IsValid, moved, credited, debited, balance_of_lots}
use common_api.Wallet.Debit.{save_key-keeps}

abbrev pub new_lot : Charge → Option ℕ → ℕ → Wallet → WalletLot
new_lot c expires amount w = record {
  id = w.next_id;
  app_id = c.app_id;
  user_id = c.user_id;
  initial_amount = amount;
  remaining_amount = amount;
  expires_at = expires;
  created_at = w.now;
}

-- The entry of a credit: its identifier follows that of the lot.
abbrev pub credit_entry : Charge → ℕ → ℕ → Wallet → LedgerEntry
credit_entry c amount balance w =
    entry_of (entry_data c credit w.next_id amount (balance + amount))
      (record w { next_id = w.next_id + 1 })

-- The tables behind the key's.
abbrev pub credited_wallet : Charge → Option ℕ → ℕ → ℕ → Wallet → Wallet
credited_wallet c expires amount balance w = record w {
  lots = w.lots ++ new_lot c expires amount w ∷ [];
  ledger = w.ledger ++ credit_entry c amount balance w ∷ [];
  next_id = w.next_id + 1 + 1;
}

-- What a credit that goes through has done.
pub record Credits (c : Charge) (expires : Option ℕ) (amount balance : ℕ) (w w' : Wallet)
    : Type 0 where
  pub new_lot_last : w'.lots ≡ w.lots ++ new_lot c expires amount w ∷ []
  pub logged : w'.ledger ≡ w.ledger ++ credit_entry c amount balance w ∷ []
  pub balances : (v : ℕ) → get_user_balance v w' ≡ get_user_balance v w + share c.user_id v amount
  pub valid : IsValid w'

module _ (hash_request : RequestData → String) (c : Charge) (expires : Option ℕ)
    (amount balance : ℕ) (w : Wallet) where
  credit_in_transaction-inv :
      {body : ResponseBody} {w' : Wallet}
      → credit_in_transaction hash_request c expires amount balance w ≡ (ok body, w')
      → (body ≡ entry (credit_entry c amount balance w))
        × (w' ≡ (save_key hash_request c body (credited_wallet c expires amount balance w)).1)
  unfolding credit_in_transaction create_lot create_entry
  credit_in_transaction-inv h = ground arith

  module _ (body : ResponseBody) (valid : IsValid w) where
    after : Wallet
    after = (save_key hash_request c body (credited_wallet c expires amount balance w)).1

    after-balances :
        (v : ℕ) → get_user_balance v after ≡ get_user_balance v w + share c.user_id v amount
    unfolding after
    after-balances v = omega (
      arith,
      balance_of_lots v (credited_wallet c expires amount balance w) after
          (save_key-keeps hash_request c body (credited_wallet c expires amount balance w)).0,
      get_user_balance-total v (credited_wallet c expires amount balance w),
      get_user_balance-total v w,
      balance-append v w.lots (new_lot c expires amount w),
    )

    after-logged : after.ledger ≡ w.ledger ++ credit_entry c amount balance w ∷ []
    unfolding after
    after-logged =
        (save_key-keeps hash_request c body (credited_wallet c expires amount balance w)).1

    after-audited :
        (v : ℕ) → get_user_balance v after + debited v after.ledger ≡ credited v after.ledger
    after-audited v =
        let e = credit_entry c amount balance w in
        ground (
          arith,
          after-balances v,
          valid.audited v,
          ap (debited v) after-logged,
          ap (credited v) after-logged,
          total-append (moved debit v) w.ledger (e ∷ []),
          total-append (moved credit v) w.ledger (e ∷ []),
        )

    after-Credits : Credits c expires amount balance w after
    unfolding after
    after-Credits =
        let kept =
          save_key-keeps hash_request c body (credited_wallet c expires amount balance w) in
        record {
          new_lot_last = kept.0;
          logged = kept.1;
          balances = after-balances;
          valid = record {
            distinct = rw kept.0 (
                append-Distinct lot_key w.next_id w.lots (new_lot c expires amount w) valid.below
                  refl valid.distinct);
            below =
                rw (kept.0, kept.2)
                  (Below-mono lot_key (w.next_id + 1) (w.next_id + 1 + 1)
                    (w.lots ++ new_lot c expires amount w ∷ []) (omega arith)
                    (append-Below lot_key w.next_id w.lots (new_lot c expires amount w) valid.below
                      refl));
            audited = after-audited;
          };
        }

  -- A credit adds one lot of its amount, which raises its user's balance by the amount and no
  -- other balance, adds the entry that it returns, and keeps the tables valid.
  pub credit_in_transaction-Credits :
      {body : ResponseBody} {w' : Wallet}
      → IsValid w
      → credit_in_transaction hash_request c expires amount balance w ≡ (ok body, w')
      → (body ≡ entry (credit_entry c amount balance w)) × Credits c expires amount balance w w'
  unfolding after
  credit_in_transaction-Credits {body} valid h =
      let (same, final) = credit_in_transaction-inv h in
      (same, subst (Credits c expires amount balance w) (sym final) (after-Credits body valid))
