-- ===== src/Wallet/Repository.antt =====
-- WalletLotRepository, WalletLedgerRepository and IdempotencyKeyRepository
-- (modules/point/repositories, common/repositories), each query over the rows of its table.
-- Rows of equal dates stay in the order of their insertion, which a database may do.
use common_api.Base.{
  ◌^◌, ℕ, zero, suc, String, Bool, ◌&&◌, true, false, List, [], ◌∷◌, ◌++◌, Option, none, some, ltb,
  ◌==◌, str_eq, if◌then◌else◌, select, total, ◌+◌,
}
use common_api.Base.Table.{find?, modify}
use common_api.Base.Sort.{sort_rows}
use common_api.Exceptions.{plain_error}
use common_api.Action.{ok, err, Action}
use common_api.Wallet.Entities.{
  WalletDirection, credit, debit, WalletReason, WalletLot, LedgerEntry, IdempotencyKey, Wallet,
}

-- A varchar(n) column refuses a longer text.
unfoldable pub fits_varchar : ℕ → String → Bool
fits_varchar n String.[] = true
fits_varchar zero (String.◌∷◌ c s) = false
fits_varchar (suc n) (String.◌∷◌ c s) = fits_varchar n s

-- A bigint column refuses 2 ^ 63 and more.
unfoldable pub fits_bigint : ℕ → Bool
fits_bigint n = ltb n (2 ^ 63)

-- The columns of WalletLedgerEntity and of IdempotencyKeyEntity.
unfoldable pub takes_entry : LedgerEntry → Bool
takes_entry e =
    (fits_varchar 100 e.ref_type && fits_varchar 255 e.ref_id)
    && (fits_bigint e.amount && fits_bigint e.balance_snapshot)

unfoldable pub takes_key : IdempotencyKey → Bool
takes_key k = fits_varchar 255 k.idempotency_key && fits_varchar 255 k.request_hash

-- WalletLotRepository.create
unfoldable pub create_lot : ℕ → ℕ → ℕ → Option ℕ → Action Wallet WalletLot
create_lot app user amount expires w =
    let lot : WalletLot = record {
      id = w.next_id;
      app_id = app;
      user_id = user;
      initial_amount = amount;
      remaining_amount = amount;
      expires_at = expires;
      created_at = w.now;
    } in
    if fits_bigint amount
    then (ok lot, record w { lots = w.lots ++ lot ∷ []; next_id = w.next_id + 1 })
    else (err (plain_error "out of range for type bigint"), w)

-- The `WHERE` of the queries on a user's balance.
abbrev pub is_available : ℕ → WalletLot → Bool
is_available user lot = lot.user_id == user && ltb 0 lot.remaining_amount

-- WalletLotRepository.getAvailableLotsForDebit
unfoldable pub get_available_lots_for_debit : ℕ → Wallet → List WalletLot
get_available_lots_for_debit user w =
    sort_rows (λ l. l.created_at) (select (is_available user) w.lots)

abbrev pub set_remaining : ℕ → WalletLot → WalletLot
set_remaining amount lot = record lot { remaining_amount = amount }

-- WalletLotRepository.updateRemainingAmount
unfoldable pub update_remaining_amount : ℕ → ℕ → Wallet → Wallet
update_remaining_amount lot amount w = record w {
  lots = modify (λ l. l.id) lot (set_remaining amount) w.lots;
}

-- WalletLotRepository.getUserBalance; the sum over no rows is NULL, which becomes '0'.
unfoldable pub get_user_balance : ℕ → Wallet → ℕ
get_user_balance user w = total (λ l. l.remaining_amount) (select (is_available user) w.lots)

-- WalletLotRepository.findById
unfoldable pub find_lot : ℕ → Wallet → Option WalletLot
find_lot lot w = find? (λ l. l.id) lot w.lots

-- What WalletLedgerRepository.create is given.
pub record NewEntry : Type 0 where
  pub app_id : ℕ
  pub user_id : ℕ
  pub lot_id : Option ℕ
  pub direction : WalletDirection
  pub amount : ℕ
  pub reason : WalletReason
  pub ref_type : String
  pub ref_id : String
  pub balance_snapshot : ℕ

abbrev pub entry_of : NewEntry → Wallet → LedgerEntry
entry_of d w = record {
  id = w.next_id;
  app_id = d.app_id;
  user_id = d.user_id;
  lot_id = d.lot_id;
  direction = d.direction;
  amount = d.amount;
  reason = d.reason;
  ref_type = d.ref_type;
  ref_id = d.ref_id;
  balance_snapshot = d.balance_snapshot;
  created_at = w.now;
}

abbrev pub insert_entry : LedgerEntry → Wallet → Wallet
insert_entry e w = record w { ledger = w.ledger ++ e ∷ []; next_id = w.next_id + 1 }

-- WalletLedgerRepository.create
unfoldable pub create_entry : NewEntry → Action Wallet LedgerEntry
create_entry d w =
    let e = entry_of d w in
    if takes_entry e
    then (ok e, insert_entry e w)
    else (err (plain_error "a column refuses the value"), w)

abbrev pub same_direction : WalletDirection → WalletDirection → Bool
same_direction credit credit = true
same_direction debit debit = true
same_direction _ _ = false

-- IdempotencyKeyRepository.findByKey, on the rows
unfoldable pub find_key : ℕ → String → List IdempotencyKey → Option IdempotencyKey
find_key app key [] = none
find_key app key (k ∷ ks) =
    if k.app_id == app && str_eq k.idempotency_key key then some k else find_key app key ks

-- IdempotencyKeyRepository.findByKey
unfoldable pub find_by_key : ℕ → String → Wallet → Option IdempotencyKey
unfolding find_key
find_by_key app key w = find_key app key w.keys

-- IdempotencyKeyRepository.create; the unique index on (appId, idempotencyKey) refuses a second
-- row of one key, and the columns a text that is too long.
unfoldable pub create_key : IdempotencyKey → Action Wallet (Unit {0})
unfolding find_by_key
create_key k w = elim (find_by_key k.app_id k.idempotency_key w) [
  | some _ ↦ (err (plain_error "duplicate key value violates unique constraint"), w)
  | none ↦
      if takes_key k
      then (ok tt, record w { keys = k ∷ w.keys })
      else (err (plain_error "value too long for type character varying(255)"), w)
]
