-- ===== src/Wallet/Reads.antt =====
-- What the wallet is read for (modules/point/point.service.ts, getBalance and getLedger, with the
-- queries of modules/point/repositories). Entries of one debit share their date, so the order in
-- which the database returns entries is an argument.
use common_api.Base.{
  ℕ, ◌≡◌, Bool, true, false, String, ◌&&◌, List, Option, some, none, ◌==◌, str_eq, or_default,
  select, total, then_map, [], ◌∷◌,
}
use common_api.Base.Sort.{sort_rows, total-sort_rows}
use common_api.Base.Pages.{page}
use common_api.Wallet.Entities.{WalletDirection, credit, debit, WalletLot, LedgerEntry, Wallet}
use common_api.Wallet.Repository.{is_available, get_user_balance}

abbrev pub same_direction : WalletDirection → WalletDirection → Bool
same_direction credit credit = true
same_direction debit debit = true
same_direction _ _ = false

abbrev pub in_direction : Option WalletDirection → LedgerEntry → Bool
in_direction none e = true
in_direction (some d) e = same_direction e.direction d

-- The `WHERE` of getUserLedger
abbrev pub in_ledger : ℕ → Option WalletDirection → LedgerEntry → Bool
in_ledger user direction e = e.user_id == user && in_direction direction e

abbrev pub of_lot : ℕ → Option ℕ → Bool
of_lot lot none = false
of_lot lot (some l) = l == lot

abbrev pub first_of : {A : Type 0} → List A → Option A
first_of [] = none
first_of (x ∷ xs) = some x

-- The order of `ORDER BY ledger.createdAt DESC`.
module _ (newest_entries : List LedgerEntry → List LedgerEntry) where
  -- WalletLedgerRepository.getUserLedger
  unfoldable pub get_user_ledger :
      ℕ → Option ℕ → Option ℕ → Option WalletDirection → Wallet → List LedgerEntry × ℕ
  get_user_ledger user limit offset direction w =
      page newest_entries (in_ledger user direction) w.ledger (or_default limit 20)
        (or_default offset 0)

  -- WalletLedgerRepository.getByReference
  unfoldable pub get_by_reference : String → String → Wallet → List LedgerEntry
  get_by_reference ref_type ref_id w =
      newest_entries (select (λ e. str_eq e.ref_type ref_type && str_eq e.ref_id ref_id) w.ledger)

  -- WalletLedgerRepository.getByLot
  unfoldable pub get_by_lot : ℕ → Wallet → List LedgerEntry
  get_by_lot lot w = newest_entries (select (λ e. of_lot lot e.lot_id) w.ledger)

  -- WalletLedgerRepository.getLastBalanceSnapshot; a snapshot is a text, and "0" is no empty one.
  unfoldable pub get_last_balance_snapshot : ℕ → Wallet → Option ℕ
  get_last_balance_snapshot user w =
      then_map (λ e. e.balance_snapshot)
        (first_of (newest_entries (select (λ e. e.user_id == user) w.ledger)))

  -- PointService.getLedger
  unfoldable pub get_ledger : ℕ → Option ℕ → Option ℕ → Wallet → List LedgerEntry × ℕ
  get_ledger user limit offset w =
      get_user_ledger user (some (or_default limit 20)) (some (or_default offset 0)) none w

-- WalletLotRepository.getUserLots
unfoldable pub get_user_lots : ℕ → Wallet → List WalletLot
get_user_lots user w = sort_rows (λ l. l.created_at) (select (is_available user) w.lots)

-- PointService.getBalance, whose second number is the same one.
unfoldable pub get_balance : ℕ → Wallet → ℕ
get_balance user w = get_user_balance user w

-- The lots that are listed for a user add up to the balance that is reported.
get_user_lots-get_balance :
    (user : ℕ) (w : Wallet)
    → total (λ l. l.remaining_amount) (get_user_lots user w) ≡ get_balance user w
unfolding get_user_lots get_balance get_user_balance
get_user_lots-get_balance user w =
    total-sort_rows (λ l. l.created_at) (λ l. l.remaining_amount)
      (select (is_available user) w.lots)
