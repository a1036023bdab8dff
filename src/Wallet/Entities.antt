-- ===== src/Wallet/Entities.antt =====
-- The rows that the wallet keeps (database/entities/wallet-lot.entity.ts,
-- wallet-ledger.entity.ts, idempotency-key.entity.ts, core/database/base.entity.ts), the enums in
-- their columns (common/enums), and the three tables together.
-- Identifiers are only compared, so they are numbers. Dates are milliseconds.
use common_api.Base.{ℕ, String, Option, none, some, List, []}
use common_api.Base.Int.{ℤ}

-- `WalletDirection`
pub data WalletDirection : Type 0 where
  credit debit : WalletDirection

-- `WalletReason`
pub data WalletReason : Type 0 where
  attendance admin_adjust refund referral buy_item promotion : WalletReason
  signup_bonus compensation expiration other : WalletReason

-- `WalletLotEntity`; a bigint column is the number that its text spells.
pub record WalletLot : Type 0 where
  pub id : ℕ
  pub app_id : ℕ
  pub user_id : ℕ
  pub initial_amount : ℕ
  pub remaining_amount : ℕ
  pub expires_at : Option ℕ
  pub created_at : ℕ

-- `WalletLedgerEntity`
pub record LedgerEntry : Type 0 where
  pub id : ℕ
  pub app_id : ℕ
  pub user_id : ℕ
  pub lot_id : Option ℕ
  pub direction : WalletDirection
  pub amount : ℕ
  pub reason : WalletReason
  pub ref_type : String
  pub ref_id : String
  pub balance_snapshot : ℕ
  pub created_at : ℕ

-- The `responseBody` that is cached for a key: one entry of a credit, or the entries of a debit.
pub data ResponseBody : Type 0 where
  entry : LedgerEntry → ResponseBody
  entries : List LedgerEntry → ResponseBody

-- `IdempotencyKeyEntity`
pub record IdempotencyKey : Type 0 where
  pub app_id : ℕ
  pub idempotency_key : String
  pub request_hash : String
  pub response_body : ResponseBody
  pub http_status : ℕ

-- The tables, the next identifier that the database hands out, and its clock.
pub record Wallet : Type 0 where
  pub lots : List WalletLot
  pub ledger : List LedgerEntry
  pub keys : List IdempotencyKey
  pub next_id : ℕ
  pub now : ℕ

-- A text as `BigInt` reads it: the decimal text of an integer, another text that spells one, as
-- "05" does, or a SyntaxError.
pub data AmountText : Type 0 where
  spells : ℤ → AmountText
  spells_too : String → ℤ → AmountText
  unreadable : AmountText

-- The integer that `BigInt` reads.
abbrev pub integer_of : AmountText → Option ℤ
integer_of (spells z) = some z
integer_of (spells_too t z) = some z
integer_of unreadable = none

-- The object that `hashRequest` is given.
pub record RequestData : Type 0 where
  pub amount : AmountText
  pub user_id : ℕ
  pub reason : WalletReason
  pub ref_type : String
  pub ref_id : String

-- The arguments that `creditWallet` and `debitWallet` share.
pub record Charge : Type 0 where
  pub app_id : ℕ
  pub user_id : ℕ
  pub amount : AmountText
  pub reason : WalletReason
  pub ref_type : String
  pub ref_id : String
  pub idempotency_key : Option String

abbrev pub empty_wallet : Wallet
empty_wallet = record { lots = []; ledger = []; keys = []; next_id = 0; now = 0 }
