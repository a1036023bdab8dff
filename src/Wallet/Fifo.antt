-- ===== src/Wallet/Fifo.antt =====
-- The entries that the loop of `debitWallet` writes, against the description of a queue of lots:
-- the first k lots pay together what they hold, and no more than is asked.
use common_api.Base.{
  ap, ◌∙◌, ℕ, zero, suc, ◌+◌, ◌≤◌, min, ◌≡◌, refl, inl, inr, List, [], ◌∷◌, ◌++◌, some, Option,
  ◌==◌, if◌then◌else◌, Bool-cases, total, take, length, map, arith,
}
use mathlib.Core.List.{append_assoc, append-nil}
use common_api.Wallet.Entities.{WalletLot, LedgerEntry, Charge}
use common_api.Wallet.Service.{DebitLoop, consume_lot, consume_lots}
use common_api.Wallet.Loop.{amount_of, remaining_of, new_entry}

-- The entries of the rounds that are left.
pub entries_from : Charge → List WalletLot → DebitLoop → List LedgerEntry
entries_from c [] s = []
entries_from c (lot ∷ lots) s =
    if s.remaining == 0 then [] else new_entry c lot s ∷ entries_from c lots (consume_lot c lot s)

pub consume_lots-written :
    (c : Charge) (lots : List WalletLot) (s : DebitLoop)
    → (consume_lots c lots s).written ≡ s.written ++ entries_from c lots s
unfolding consume_lots entries_from
consume_lots-written c [] s = rw append-nil
consume_lots-written c (lot ∷ lots) s = elim (Bool-cases (s.remaining == 0)) [
  | inl done ↦ rw (done, append-nil)
  | inr more ↦ rw more (
      consume_lots-written c lots (consume_lot c lot s)
      ∙ (unfold consume_lot in
          append_assoc s.written (new_entry c lot s ∷ [])
            (entries_from c lots (consume_lot c lot s))))
]

-- The first k lots pay what they hold, up to the amount.
pub entries_from-fifo :
    (c : Charge) (lots : List WalletLot) (s : DebitLoop) (k : ℕ)
    → total amount_of (take k (entries_from c lots s))
      ≡ min s.remaining (total remaining_of (take k lots))
unfolding entries_from consume_lot
entries_from-fifo c lots s zero = ground arith
entries_from-fifo c [] s (suc k) = omega arith
entries_from-fifo c (lot ∷ lots) s (suc k) =
    ground (arith, entries_from-fifo c lots (consume_lot c lot s) k)

abbrev pub lot_of : LedgerEntry → Option ℕ
lot_of e = e.lot_id

abbrev pub id_of : WalletLot → Option ℕ
id_of l = some l.id

-- The k-th entry is of the k-th lot.
pub entries_from-lots :
    (c : Charge) (lots : List WalletLot) (s : DebitLoop)
    → map lot_of (entries_from c lots s) ≡ map id_of (take (length (entries_from c lots s)) lots)
unfolding entries_from
entries_from-lots c [] s = refl
entries_from-lots c (lot ∷ lots) s = elim (Bool-cases (s.remaining == 0)) [
  | inl done ↦ rw done
  | inr more ↦ rw more (ap (λ r. some lot.id ∷ r) (entries_from-lots c lots (consume_lot c lot s)))
]

-- Every snapshot is the balance that was read less all that has been taken so far.
abbrev pub Snapshots : ℕ → ℕ → List LedgerEntry → Type 0
Snapshots balance spent [] = Unit
Snapshots balance spent (e ∷ es) =
    (e.balance_snapshot + (spent + e.amount) ≡ balance) × Snapshots balance (spent + e.amount) es

pub entries_from-Snapshots :
    (c : Charge) (lots : List WalletLot) (s : DebitLoop) (balance spent : ℕ)
    → s.remaining ≤ s.running_balance
    → s.running_balance + spent ≡ balance
    → Snapshots balance spent (entries_from c lots s)
unfolding entries_from
entries_from-Snapshots c [] s balance spent h e = tt
entries_from-Snapshots c (lot ∷ lots) s balance spent h e = elim (Bool-cases (s.remaining == 0)) [
  | inl done ↦ rw done tt
  | inr more ↦ rw more (
    ground arith,
    entries_from-Snapshots c lots (consume_lot c lot s) balance (spent + (new_entry c lot s).amount)
        (unfold consume_lot in ground arith) (unfold consume_lot in ground arith),
  )
]
