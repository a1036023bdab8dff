-- ===== src/Wallet/Queue.antt =====
-- A debit consumes the user's lots as a queue (PointService.debitWallet), and its entries record
-- the balance as it falls.
use common_api.Base.{ℕ, min, ◌≡◌, List, String, total, take, select, map, length, arith}
use common_api.Base.Sort.{IsSorted, sort_rows-IsSorted}
use common_api.Action.{ok}
use common_api.Wallet.Entities.{WalletLot, LedgerEntry, entries, Wallet, RequestData, Charge}
use common_api.Wallet.Repository.{get_available_lots_for_debit, is_available}
use common_api.Wallet.Service.{debit_in_transaction}
use common_api.Wallet.Loop.{amount_of, remaining_of}
use common_api.Wallet.Fifo.{
  entries_from, consume_lots-written, entries_from-fifo, entries_from-lots, entries_from-Snapshots,
  lot_of, id_of, Snapshots,
}
use common_api.Wallet.Debit.{start, debit_in_transaction-inv}

abbrev pub created_at_of : WalletLot → ℕ
created_at_of l = l.created_at

available_lots-IsSorted :
    (user : ℕ) (w : Wallet) → IsSorted created_at_of (get_available_lots_for_debit user w)
unfolding get_available_lots_for_debit
available_lots-IsSorted user w =
    sort_rows-IsSorted created_at_of (select (is_available user) w.lots)

-- The entries `es` take from the lots of a queue, in its order, each lot whole before the next.
pub record TakenInOrder (lots : List WalletLot) (amount : ℕ) (es : List LedgerEntry) : Type 0 where
  pub oldest_first : IsSorted created_at_of lots
  pub same_lots : map lot_of es ≡ map id_of (take (length es) lots)
  pub prefix_paid :
      (k : ℕ) → total amount_of (take k es) ≡ min amount (total remaining_of (take k lots))

module _ (hash_request : RequestData → String) (c : Charge) (amount balance : ℕ) (w : Wallet) where
  finish-written :
      (es : List LedgerEntry) {w' : Wallet}
      → debit_in_transaction hash_request c amount balance w ≡ (ok (entries es), w')
      → es ≡ entries_from c (get_available_lots_for_debit c.user_id w) (start amount balance w)
  finish-written es h = cc (
    (debit_in_transaction-inv hash_request c amount balance w h).2,
    consume_lots-written c (get_available_lots_for_debit c.user_id w) (start amount balance w),
  )

  -- The available lots stand oldest first; the entries of a debit name them in that order; and
  -- for every k the first k entries take what the first k lots hold, up to the amount.
  pub debit_in_transaction-TakenInOrder :
      (es : List LedgerEntry) {w' : Wallet}
      → debit_in_transaction hash_request c amount balance w ≡ (ok (entries es), w')
      → TakenInOrder (get_available_lots_for_debit c.user_id w) amount es
  debit_in_transaction-TakenInOrder es h =
      let lots = get_available_lots_for_debit c.user_id w in
      rw (finish-written es h) (record {
        oldest_first = available_lots-IsSorted c.user_id w;
        same_lots = entries_from-lots c lots (start amount balance w);
        prefix_paid = λ k. entries_from-fifo c lots (start amount balance w) k;
      })

  -- The snapshot of each entry is the balance that the debit read less what this entry and those
  -- before it have taken.
  pub debit_in_transaction-Snapshots :
      (es : List LedgerEntry) {w' : Wallet}
      → debit_in_transaction hash_request c amount balance w ≡ (ok (entries es), w')
      → Snapshots balance 0 es
  debit_in_transaction-Snapshots es h = rw (finish-written es h) (
      entries_from-Snapshots c (get_available_lots_for_debit c.user_id w) (start amount balance w)
        balance 0 (debit_in_transaction-inv hash_request c amount balance w h).0 (omega arith))
