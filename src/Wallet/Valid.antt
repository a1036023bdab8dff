-- ===== src/Wallet/Valid.antt =====
-- The invariant of the wallet's tables: identifiers are unique and already handed out, and the
-- ledger accounts for every balance.
use common_api.Base.{ℕ, ◌+◌, ◌≡◌, refl, ◌&&◌, List, [], ◌∷◌, ◌==◌, if◌then◌else◌, total, All, arith}
use common_api.Base.Table.{Distinct, Below}
use common_api.Wallet.Entities.{WalletDirection, credit, debit, LedgerEntry, Wallet, empty_wallet}
use common_api.Wallet.Repository.{same_direction, get_user_balance}
use common_api.Wallet.Balance.{lot_key, share}
use common_api.Wallet.Loop.{amount_of, IsDebitOf}

-- What an entry adds to the sum of one direction for one user.
abbrev pub moved : WalletDirection → ℕ → LedgerEntry → ℕ
moved dir v e = if e.user_id == v && same_direction e.direction dir then e.amount else 0

abbrev pub credited : ℕ → List LedgerEntry → ℕ
credited v = total (moved credit v)

abbrev pub debited : ℕ → List LedgerEntry → ℕ
debited v = total (moved debit v)

pub record IsValid (w : Wallet) : Type 0 where
  pub distinct : Distinct lot_key w.lots
  pub below : Below lot_key w.next_id w.lots
  pub audited : (v : ℕ) → get_user_balance v w + debited v w.ledger ≡ credited v w.ledger

pub empty_wallet-IsValid : IsValid empty_wallet
unfolding get_user_balance
empty_wallet-IsValid = record { distinct = tt; below = tt; audited = λ v. refl }

-- The entries of a debit add up to the amount among the user's debits, and add no credit.
pub debited_of_debits :
    (user v : ℕ) (es : List LedgerEntry)
    → All (IsDebitOf user) es
    → (debited v es ≡ share user v (total amount_of es)) × (credited v es ≡ 0)
debited_of_debits user v [] h = ground arith
debited_of_debits user v (e ∷ es) h =
    ground (arith, h.0.of_user, h.0.is_debit, debited_of_debits user v es h.1)

-- The balance depends on the lots alone.
pub balance_of_lots :
    (v : ℕ) (w w' : Wallet) → w'.lots ≡ w.lots → get_user_balance v w' ≡ get_user_balance v w
unfolding get_user_balance
balance_of_lots v w w' e = rw e
