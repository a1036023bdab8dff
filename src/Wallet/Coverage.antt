-- ===== src/Wallet/Coverage.antt =====
-- When a debit succeeds (PointService.debitWallet): where the columns take it, exactly when the
-- balance covers the amount.
use common_api.Base.{
  [], ◌∷◌, ◌++◌, refl, Option, Option-cases, ℕ, ◌≤◌, ◌<◌, ◌+◌, true, ◌≡◌, inl, inr, List, none,
  String, truthy, arith, ap,
}
use common_api.Exceptions.{bad_request}
use common_api.Action.{ok, err}
use common_api.Wallet.Entities.{
  credit, entry, LedgerEntry, ResponseBody, entries, Wallet, RequestData, Charge,
}
use common_api.Wallet.Columns.{Fits, fits_bigint_le, consume_lots-all_taken}
use common_api.Wallet.Valid.{IsValid}
use common_api.Wallet.Balance.{share}
use common_api.Wallet.Calls.{debit_wallet-Debits}
use common_api.Wallet.Repository.{
  fits_bigint, takes_entry, takes_key, create_lot, create_entry, entry_of, insert_entry, find_key,
  find_by_key, create_key, get_user_balance, get_available_lots_for_debit,
}
use common_api.Wallet.Service.{
  all_taken, entry_data, credit_in_transaction, credit_wallet, look_up_key, save_idempotency,
  save_key, positive_amount, debit_in_transaction, debit_wallet,
}
use common_api.Wallet.Loop.{consume_lots-Keeps, consume_lots-remaining}
use common_api.Wallet.Credit.{credited_wallet, new_lot, credit_entry}
use common_api.Wallet.Debit.{start, finish, available_lots-total}

module _ (hash_request : RequestData → String) (c : Charge) (w : Wallet) where
  save_key_new :
      (body : ResponseBody) (v : Wallet)
      → v.keys ≡ w.keys
      → Fits hash_request c
      → look_up_key hash_request c w ≡ (ok none, w)
      → (save_key hash_request c body v).0 ≡ ok tt
  unfolding look_up_key save_key create_key save_idempotency find_by_key takes_key
  save_key_new body v same fits h = elim (Option-cases (truthy c.idempotency_key)) [
    | inl e ↦ ground arith
    | inr (key, e) ↦ ground (arith, ap (find_key c.app_id key) same, fits.key key e, fits.hash)
  ]

  debit_in_transaction-commits :
      (amount balance : ℕ)
      → amount ≤ balance
      → all_taken (finish c amount balance w).written ≡ true
      → (finish c amount balance w).remaining ≡ 0
      → (save_key hash_request c
          (entries (finish c amount balance w).written)
          (finish c amount balance w).wallet).0
        ≡ ok tt
      → (w' : Wallet) × (debit_in_transaction hash_request c amount balance w
          ≡ (ok (entries (finish c amount balance w).written), w'))
  unfolding debit_in_transaction
  debit_in_transaction-commits amount balance covered taken done saved = (
    (save_key hash_request c (entries (finish c amount balance w).written)
        (finish c amount balance w).wallet).1,
    ground arith,
  )

  finish-remaining :
      (amount : ℕ)
      → amount ≤ get_user_balance c.user_id w
      → (finish c amount (get_user_balance c.user_id w) w).remaining ≡ 0
  finish-remaining amount covered = omega (
    arith,
    consume_lots-remaining c (get_available_lots_for_debit c.user_id w)
        (start amount (get_user_balance c.user_id w) w),
    available_lots-total c.user_id w,
  )

  finish-all_taken :
      (amount balance : ℕ)
      → Fits hash_request c
      → fits_bigint balance ≡ true
      → amount ≤ balance
      → all_taken (finish c amount balance w).written ≡ true
  unfolding all_taken
  finish-all_taken amount balance fits small covered =
      consume_lots-all_taken hash_request c fits (get_available_lots_for_debit c.user_id w)
        (start amount balance w) (fits_bigint_le amount balance covered small) small refl

  debit_wallet_covered :
      {amount : ℕ}
      → positive_amount c.amount ≡ ok amount
      → look_up_key hash_request c w ≡ (ok none, w)
      → Fits hash_request c
      → fits_bigint (get_user_balance c.user_id w) ≡ true
      → amount ≤ get_user_balance c.user_id w
      → (es : List LedgerEntry) × (w' : Wallet) × (debit_wallet hash_request c w
          ≡ (ok (entries es), w'))
  unfolding debit_wallet
  debit_wallet_covered {amount} good new fits small covered =
      let balance = get_user_balance c.user_id w in
      let s = finish c amount balance w in
      let kept =
        (consume_lots-Keeps w.ledger c (get_available_lots_for_debit c.user_id w)
          (start amount balance w)).same_keys in
      let (w', done) =
        debit_in_transaction-commits amount balance covered
          (finish-all_taken amount balance fits small covered) (finish-remaining amount covered)
          (save_key_new (entries s.written) s.wallet kept fits new) in
      (s.written, w', ground (arith, done))

  debit_wallet_short :
      {amount : ℕ}
      → positive_amount c.amount ≡ ok amount
      → look_up_key hash_request c w ≡ (ok none, w)
      → get_user_balance c.user_id w < amount
      → debit_wallet hash_request c w ≡ (err (bad_request "Insufficient balance"), w)
  unfolding debit_wallet debit_in_transaction
  debit_wallet_short good new short = ground arith

  -- A debit of a positive amount under no stored key returns its entries and debits exactly the
  -- amount if the balance covers the amount; otherwise it is refused and changes nothing. The
  -- tables are valid, the texts of the request fit their columns, and the balance fits a bigint.
  pub debit_wallet_decided :
      {amount : ℕ}
      → IsValid w
      → positive_amount c.amount ≡ ok amount
      → look_up_key hash_request c w ≡ (ok none, w)
      → Fits hash_request c
      → fits_bigint (get_user_balance c.user_id w) ≡ true
      → (amount ≤ get_user_balance c.user_id w
          → (es : List LedgerEntry) × (w' : Wallet) × (debit_wallet hash_request c w
              ≡ (ok (entries es), w'))
            × ((v : ℕ) → get_user_balance v w' + share c.user_id v amount ≡ get_user_balance v w))
        × (get_user_balance c.user_id w < amount
            → debit_wallet hash_request c w ≡ (err (bad_request "Insufficient balance"), w))
  debit_wallet_decided {amount} valid good new fits small = (
    λ covered.
        let (es, w', done) = debit_wallet_covered good new fits small covered in
        let (es', same, d) = debit_wallet-Debits hash_request c w valid good new done in
        (es, w', done, d.balances),
    λ short. debit_wallet_short good new short,
  )

  module _ (expires : Option ℕ) (amount balance : ℕ) where
    create_lot_taken :
        fits_bigint amount ≡ true
        → create_lot c.app_id c.user_id amount expires w ≡ (
          ok (new_lot c expires amount w),
          record w { lots = w.lots ++ new_lot c expires amount w ∷ []; next_id = w.next_id + 1 },
        )
    unfolding create_lot
    create_lot_taken h = rw h refl

    create_entry_taken :
        (v : Wallet)
        → Fits hash_request c
        → fits_bigint amount ≡ true
        → fits_bigint (balance + amount) ≡ true
        → let d = entry_data c credit w.next_id amount (balance + amount) in
          create_entry d v ≡ (ok (entry_of d v), insert_entry (entry_of d v) v)
    unfolding create_entry takes_entry
    create_entry_taken v fits h h' = rw (fits.ref_type, fits.ref_id, h, h') refl

  -- A credit of a positive amount under no stored key goes through, where the columns take it.
  pub credit_wallet_new :
      (expires : Option ℕ) {amount : ℕ}
      → positive_amount c.amount ≡ ok amount
      → look_up_key hash_request c w ≡ (ok none, w)
      → Fits hash_request c
      → fits_bigint (get_user_balance c.user_id w + amount) ≡ true
      → (body : ResponseBody) × (w' : Wallet) × (credit_wallet hash_request c expires w
          ≡ (ok body, w'))
  unfolding credit_wallet credit_in_transaction
  credit_wallet_new expires {amount} good new fits small =
      let balance = get_user_balance c.user_id w in
      let v = credited_wallet c expires amount balance w in
      let body = entry (credit_entry c amount balance w) in
      let fine = fits_bigint_le amount (balance + amount) (omega arith) small in
      (
        body,
        (save_key hash_request c body v).1,
        ground (
          arith,
          create_lot_taken expires amount balance fine,
          create_entry_taken expires amount balance
              (record w {
                lots = w.lots ++ new_lot c expires amount w ∷ [];
                next_id = w.next_id + 1;
              })
              fits fine small,
          save_key_new body v refl fits new,
        ),
      )
