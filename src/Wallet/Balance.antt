-- ===== src/Wallet/Balance.antt =====
-- The balance of a user under each write to the table of lots.
use common_api.Base.{
  ℕ, ◌+◌, ◌-◌, ◌≤◌, ◌≡◌, List, [], ◌∷◌, ◌++◌, some, ◌==◌, if◌then◌else◌, total, total-select,
  total-append, arith,
}
use common_api.Base.Table.{find?, Distinct, total-modify}
use common_api.Wallet.Entities.{WalletLot, Wallet}
use common_api.Wallet.Repository.{
  is_available, set_remaining, update_remaining_amount, get_user_balance,
}

-- The key of a lot.
abbrev pub lot_key : WalletLot → ℕ
lot_key l = l.id

-- `n` for one user, nothing for any other.
abbrev pub share : ℕ → ℕ → ℕ → ℕ
share user v n = if user == v then n else 0

-- What a lot adds to the balance of a user.
abbrev pub weight : ℕ → WalletLot → ℕ
weight v lot = if is_available v lot then lot.remaining_amount else 0

pub get_user_balance-total : (v : ℕ) (w : Wallet) → get_user_balance v w ≡ total (weight v) w.lots
unfolding get_user_balance
get_user_balance-total v w = total-select (is_available v) (λ l. l.remaining_amount) w.lots

weight-set_remaining :
    (v : ℕ) (lot : WalletLot) (taken : ℕ)
    → taken ≤ lot.remaining_amount
    → weight v (set_remaining (lot.remaining_amount - taken) lot) + share lot.user_id v taken
      ≡ weight v lot
weight-set_remaining v lot taken h = ground arith

-- Taking from one lot lowers its owner's balance by as much, and no other balance.
pub balance-update :
    (v : ℕ) (lot : WalletLot) (taken : ℕ) (w : Wallet)
    → Distinct lot_key w.lots
    → find? lot_key lot.id w.lots ≡ some lot
    → taken ≤ lot.remaining_amount
    → get_user_balance v (update_remaining_amount lot.id (lot.remaining_amount - taken) w)
        + share lot.user_id v taken
      ≡ get_user_balance v w
unfolding update_remaining_amount
balance-update v lot taken w d e h = omega (
  arith,
  get_user_balance-total v (update_remaining_amount lot.id (lot.remaining_amount - taken) w),
  get_user_balance-total v w,
  weight-set_remaining v lot taken h,
  total-modify lot_key (weight v) lot.id (set_remaining (lot.remaining_amount - taken)) w.lots d e,
)

-- A new lot raises its owner's balance by its amount.
pub balance-append :
    (v : ℕ) (lots : List WalletLot) (lot : WalletLot)
    → total (weight v) (lots ++ lot ∷ [])
      ≡ total (weight v) lots + share lot.user_id v lot.remaining_amount
balance-append v lots lot = ground (arith, total-append (weight v) lots (lot ∷ []))
