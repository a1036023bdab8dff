-- ===== src/Wallet/Facade.antt =====
-- WalletService (modules/wallet/wallet.service.ts), which passes its requests on to PointService.
use common_api.Base.{ℕ, zero, suc, String, List, Option, none, some}
use common_api.Base.Int.{ℤ}
use common_api.Action.{Action}
use common_api.Wallet.Entities.{
  WalletReason, LedgerEntry, ResponseBody, Wallet, spells, RequestData, Charge,
}
use common_api.Wallet.Service.{credit_wallet, debit_wallet}
use common_api.Wallet.Reads.{get_balance, get_ledger}

-- `CreditWalletDto` and `DebitWalletDto`, with the date that `new Date(expires_at)` is.
pub record WalletRequest : Type 0 where
  pub user_id : ℕ
  pub amount : ℤ
  pub reason : WalletReason
  pub ref_type : String
  pub ref_id : String
  pub expires_at : Option ℕ
  pub idempotency_key : Option String

abbrev pub charge_of : ℕ → WalletRequest → Charge
charge_of app_id r = record {
  app_id = app_id;
  user_id = r.user_id;
  amount = spells r.amount;
  reason = r.reason;
  ref_type = r.ref_type;
  ref_id = r.ref_id;
  idempotency_key = r.idempotency_key;
}

-- WalletService.credit
unfoldable pub wallet_credit :
    (RequestData → String) → ℕ → WalletRequest → Action Wallet ResponseBody
wallet_credit hash_request app_id r = credit_wallet hash_request (charge_of app_id r) r.expires_at

-- WalletService.debit
unfoldable pub wallet_debit :
    (RequestData → String) → ℕ → WalletRequest → Action Wallet ResponseBody
wallet_debit hash_request app_id r = debit_wallet hash_request (charge_of app_id r)

-- WalletService.getBalance
unfoldable pub wallet_balance : ℕ → Wallet → ℕ
wallet_balance user w = get_balance user w

-- `limit || 20`
abbrev pub limit_or_20 : Option ℕ → ℕ
limit_or_20 none = 20
limit_or_20 (some zero) = 20
limit_or_20 (some (suc n)) = suc n

-- WalletService.getLedger: the first page only.
unfoldable pub wallet_ledger :
    (List LedgerEntry → List LedgerEntry) → ℕ → Option ℕ → Wallet → List LedgerEntry × ℕ
wallet_ledger newest_entries user limit w =
    get_ledger newest_entries user (some (limit_or_20 limit)) (some 0) w
