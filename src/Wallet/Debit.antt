-- ===== src/Wallet/Debit.antt =====
-- What a debit does (PointService.debitWallet): success takes exactly the amount, oldest lots
-- first, and writes it down; a failure changes nothing; it succeeds exactly when the balance
-- covers the amount.
use mathlib.Core.List.{append-nil}
use mathlib.Core.Path.{subst}
use common_api.Base.{
  ℕ, ◌+◌, ◌≤◌, ◌≡◌, sym, ◌∙◌, ap, true, List, [], ◌++◌, String, total, total-append, All,
  All-select, All-map, select, select-passes, arith,
}
use common_api.Base.Table.{Distinct, Below, Below-mono, find?_self}
use common_api.Base.Sort.{All-sort_rows, total-sort_rows}
use common_api.Base.Query.{select-Distinct, sort_rows-Distinct}
use common_api.Action.{ok}
use common_api.Wallet.Entities.{
  WalletLot, LedgerEntry, ResponseBody, entries, Wallet, RequestData, Charge, credit, debit,
}
use common_api.Wallet.Repository.{is_available, get_available_lots_for_debit, get_user_balance}
use common_api.Wallet.Service.{DebitLoop, consume_lots, save_key, debit_in_transaction}
use common_api.Wallet.Balance.{lot_key, share}
use common_api.Wallet.Loop.{
  amount_of, remaining_of, Ready, Moves, consume_lots-Moves, Keeps, consume_lots-Keeps, IsDebitOf,
}
use common_api.Wallet.Valid.{IsValid, moved, credited, debited, debited_of_debits, balance_of_lots}

-- The loop as a transaction starts it.
abbrev pub start : ℕ → ℕ → Wallet → DebitLoop
start amount balance w = record {
  remaining = amount;
  running_balance = balance;
  written = [];
  wallet = w;
}

abbrev pub finish : Charge → ℕ → ℕ → Wallet → DebitLoop
finish c amount balance w =
    consume_lots c (get_available_lots_for_debit c.user_id w) (start amount balance w)

owned_lots :
    (user : ℕ) (lots : List WalletLot)
    → All (λ (l : WalletLot). l.user_id ≡ user) (select (is_available user) lots)
owned_lots user lots =
    All-map (λ l. is_available user l ≡ true) (λ l. l.user_id ≡ user) _ (λ l h. ground arith)
      (select-passes (is_available user) lots)

available_lots-Ready :
    (user amount balance : ℕ) (w : Wallet)
    → Distinct lot_key w.lots
    → Ready user (get_available_lots_for_debit user w) (start amount balance w)
unfolding get_available_lots_for_debit
available_lots-Ready user amount balance w d = record {
  distinct = d;
  found =
      All-sort_rows (λ (l : WalletLot). l.created_at) _ _
        (All-select _ (is_available user) w.lots (find?_self lot_key w.lots d));
  apart =
      sort_rows-Distinct lot_key (λ l. l.created_at) _
        (select-Distinct lot_key (λ l. l.created_at) (is_available user) w.lots d);
  owned = All-sort_rows (λ (l : WalletLot). l.created_at) _ _ (owned_lots user w.lots);
}

-- The available lots hold the balance together.
pub available_lots-total :
    (user : ℕ) (w : Wallet)
    → total remaining_of (get_available_lots_for_debit user w) ≡ get_user_balance user w
unfolding get_available_lots_for_debit get_user_balance
available_lots-total user w = total-sort_rows (λ l. l.created_at) remaining_of _

share_zero : (user v : ℕ) → share user v 0 ≡ 0
share_zero user v = ground arith

module _ (hash_request : RequestData → String) where
  -- Storing a key writes nothing but the table of keys.
  pub save_key-keeps :
      (c : Charge) (body : ResponseBody) (w : Wallet)
      → ((save_key hash_request c body w).1.lots ≡ w.lots)
        × ((save_key hash_request c body w).1.ledger ≡ w.ledger)
        × ((save_key hash_request c body w).1.next_id ≡ w.next_id)
        × ((save_key hash_request c body w).1.now ≡ w.now)
  unfolding save_key
  save_key-keeps c body w = ground arith

  -- A debit that goes through has passed both guards.
  pub debit_in_transaction-inv :
      (c : Charge) (amount balance : ℕ) (w : Wallet) {body : ResponseBody} {w' : Wallet}
      → debit_in_transaction hash_request c amount balance w ≡ (ok body, w')
      → (amount ≤ balance)
        × ((finish c amount balance w).remaining ≡ 0)
        × (body ≡ entries (finish c amount balance w).written)
        × (w' ≡ (save_key hash_request c body (finish c amount balance w).wallet).1)
  unfolding debit_in_transaction
  debit_in_transaction-inv c amount balance w h = ground arith

  -- What a debit that goes through has done.
  pub record Debits (c : Charge) (amount : ℕ) (w : Wallet) (es : List LedgerEntry) (w' : Wallet)
      : Type 0 where
    pub paid : total amount_of es ≡ amount
    pub logged : w'.ledger ≡ w.ledger ++ es
    pub of_user : All (IsDebitOf c.user_id) es
    pub balances : (v : ℕ) → get_user_balance v w' + share c.user_id v amount ≡ get_user_balance v w
    pub valid : IsValid w'

  module _ (c : Charge) (amount balance : ℕ) (w : Wallet) (body : ResponseBody)
      (valid : IsValid w) where
    loop-Moves : Moves c.user_id (start amount balance w) (finish c amount balance w)
    loop-Moves =
        consume_lots-Moves c (get_available_lots_for_debit c.user_id w) (start amount balance w)
          (available_lots-Ready c.user_id amount balance w valid.distinct)

    loop-Keeps : Keeps c.user_id w.ledger (start amount balance w) (finish c amount balance w)
    loop-Keeps =
        consume_lots-Keeps w.ledger c (get_available_lots_for_debit c.user_id w)
          (start amount balance w)

    after : Wallet
    after = (save_key hash_request c body (finish c amount balance w).wallet).1

    finish-paid :
        (finish c amount balance w).remaining ≡ 0
        → total amount_of (finish c amount balance w).written ≡ amount
    finish-paid done = omega (arith, loop-Moves.pays, done)

    finish-balances :
        (finish c amount balance w).remaining ≡ 0
        → (v : ℕ) → get_user_balance v after + share c.user_id v amount ≡ get_user_balance v w
    unfolding after
    finish-balances done v = omega (
      arith,
      loop-Moves.balances v,
      ap (share c.user_id v) done,
      share_zero c.user_id v,
      balance_of_lots v (finish c amount balance w).wallet after
          (save_key-keeps c body (finish c amount balance w).wallet).0,
    )

    finish-logged : after.ledger ≡ w.ledger ++ (finish c amount balance w).written
    unfolding after
    finish-logged =
        (save_key-keeps c body (finish c amount balance w).wallet).1
        ∙ loop-Keeps.logged (sym (append-nil w.ledger))

    finish-audited :
        (finish c amount balance w).remaining ≡ 0
        → (v : ℕ) → get_user_balance v after + debited v after.ledger ≡ credited v after.ledger
    finish-audited done v =
        let es = (finish c amount balance w).written in
        omega (
          arith,
          finish-balances done v,
          valid.audited v,
          ap (debited v) finish-logged,
          ap (credited v) finish-logged,
          total-append (moved debit v) w.ledger es,
          total-append (moved credit v) w.ledger es,
          debited_of_debits c.user_id v es (loop-Keeps.marked tt),
          ap (share c.user_id v) (finish-paid done),
        )

    finish-Below : Below lot_key after.next_id after.lots
    unfolding after
    finish-Below =
        let kept = save_key-keeps c body (finish c amount balance w).wallet in
        rw (kept.0, kept.2)
          (Below-mono lot_key w.next_id (finish c amount balance w).wallet.next_id
            (finish c amount balance w).wallet.lots loop-Keeps.ids_grow
            (loop-Keeps.lots_below w.next_id valid.below))

    finish-Debits :
        (finish c amount balance w).remaining ≡ 0
        → Debits c amount w (finish c amount balance w).written after
    unfolding after
    finish-Debits done = record {
      paid = finish-paid done;
      logged = finish-logged;
      of_user = loop-Keeps.marked tt;
      balances = finish-balances done;
      valid = record {
        distinct =
            rw (save_key-keeps c body (finish c amount balance w).wallet).0
              (loop-Keeps.lots_distinct valid.distinct);
        below = finish-Below;
        audited = finish-audited done;
      };
    }

  -- A debit takes exactly its amount from its user and from nobody else, whatever balance it has
  -- read before it locked the lots, and the ledger grows by the entries that it returns.
  pub debit_in_transaction-Debits :
      (c : Charge) (amount balance : ℕ) (w : Wallet) {body : ResponseBody} {w' : Wallet}
      → IsValid w
      → debit_in_transaction hash_request c amount balance w ≡ (ok body, w')
      → (es : List LedgerEntry) × (body ≡ entries es) × Debits c amount w es w'
  unfolding after
  debit_in_transaction-Debits c amount balance w {body} {w'} valid h =
      let (covered, done, same, final) = debit_in_transaction-inv c amount balance w h in
      (
        (finish c amount balance w).written,
        same,
        subst (Debits c amount w _) (sym final) (finish-Debits c amount balance w body valid done),
      )
