-- ===== src/Wallet/Loop.antt =====
-- The loop of `debitWallet`: what one round and all rounds do to the amount that remains, the
-- balances, the tables and the entries.
use common_api.Base.{
  All-append, ap, ◌∙◌, ℕ, ◌+◌, ◌-◌, ◌≤◌, ◌≡◌, refl, inl, inr, List, [], ◌∷◌, ◌++◌, some, none, ltb,
  ◌==◌, if◌then◌else◌, Bool-cases, total, total-append, All, arith,
}
use mathlib.Core.List.{append_assoc}
use common_api.Base.Table.{
  find?, modify, Distinct, Below, find?-modify, modify-Distinct, modify-Below,
}
use common_api.Wallet.Entities.{debit, WalletLot, LedgerEntry, Charge}
use common_api.Wallet.Repository.{
  entry_of, set_remaining, get_user_balance, update_remaining_amount,
}
use common_api.Wallet.Service.{entry_data, DebitLoop, consume_lot, consume_lots}
use common_api.Wallet.Balance.{lot_key, share, balance-update}

abbrev pub amount_of : LedgerEntry → ℕ
amount_of e = e.amount

-- What the loop may rely on before the lots that are left.
pub record Ready (user : ℕ) (lots : List WalletLot) (s : DebitLoop) : Type 0 where
  pub distinct : Distinct lot_key s.wallet.lots
  pub found : All (λ l. find? lot_key l.id s.wallet.lots ≡ some l) lots
  pub apart : Distinct lot_key lots
  pub owned : All (λ (l : WalletLot). l.user_id ≡ user) lots

-- The quantities that a round moves, the same before and after.
pub record Moves (user : ℕ) (s s' : DebitLoop) : Type 0 where
  pub shrinks : s'.remaining ≤ s.remaining
  pub pays : total amount_of s'.written + s'.remaining ≡ total amount_of s.written + s.remaining
  pub tracks :
      s.remaining ≤ s.running_balance
      → s'.running_balance + s.remaining ≡ s.running_balance + s'.remaining
  pub balances :
      (v : ℕ)
      → get_user_balance v s'.wallet + share user v s.remaining
        ≡ get_user_balance v s.wallet + share user v s'.remaining

abbrev pub taken : WalletLot → DebitLoop → ℕ
taken lot s = if ltb s.remaining lot.remaining_amount then s.remaining else lot.remaining_amount

still_found :
    (lot : WalletLot) (amount : ℕ) (lots rest : List WalletLot)
    → find? lot_key lot.id rest ≡ none
    → All (λ l. find? lot_key l.id lots ≡ some l) rest
    → All
        (λ l. find? lot_key l.id (modify lot_key lot.id (set_remaining amount) lots) ≡ some l)
        rest
still_found lot amount lots [] h f = tt
still_found lot amount lots (l ∷ rest) h f = (
  ground (arith, f.0, find?-modify lot_key l.id lot.id (set_remaining amount) lots (λ r. refl)),
  still_found lot amount lots rest (ground arith) f.1,
)

-- The entry that a round writes.
abbrev pub new_entry : Charge → WalletLot → DebitLoop → LedgerEntry
new_entry c lot s =
    entry_of (entry_data c debit lot.id (taken lot s) (s.running_balance - taken lot s))
      (update_remaining_amount lot.id (lot.remaining_amount - taken lot s) s.wallet)

module _ (c : Charge) (lot : WalletLot) (s : DebitLoop) where
  consume_lot-Ready :
      (rest : List WalletLot)
      → Ready c.user_id (lot ∷ rest) s
      → Ready c.user_id rest (consume_lot c lot s)
  unfolding consume_lot
  consume_lot-Ready rest h = record {
    distinct =
        modify-Distinct lot_key lot.id (set_remaining (lot.remaining_amount - taken lot s))
          s.wallet.lots (λ r. refl) h.distinct;
    found =
        still_found lot (lot.remaining_amount - taken lot s) s.wallet.lots rest h.apart.0 h.found.1;
    apart = h.apart.1;
    owned = h.owned.1;
  }

  consume_lot-balances :
      (v : ℕ)
      → Distinct lot_key s.wallet.lots
      → find? lot_key lot.id s.wallet.lots ≡ some lot
      → lot.user_id ≡ c.user_id
      → get_user_balance v (consume_lot c lot s).wallet + share c.user_id v s.remaining
        ≡ get_user_balance v s.wallet + share c.user_id v (consume_lot c lot s).remaining
  unfolding consume_lot get_user_balance
  consume_lot-balances v d e u = ground (arith, balance-update v lot (taken lot s) s.wallet d e)

  consume_lot-Moves :
      (rest : List WalletLot)
      → Ready c.user_id (lot ∷ rest) s
      → Moves c.user_id s (consume_lot c lot s)
  unfolding consume_lot
  consume_lot-Moves rest h = record {
    shrinks = ground arith;
    pays = ground (arith, total-append amount_of s.written (new_entry c lot s ∷ []));
    tracks = λ k. ground arith;
    balances = λ v. consume_lot-balances v h.distinct h.found.0 h.owned.0;
  }

stay : (user : ℕ) (s : DebitLoop) → Moves user s s
stay user s = record {
  shrinks = omega arith;
  pays = refl;
  tracks = λ k. refl;
  balances = λ v. refl;
}

chain : (user : ℕ) (s t u : DebitLoop) → Moves user s t → Moves user t u → Moves user s u
chain user s t u m n = record {
  shrinks = omega (arith, m.shrinks, n.shrinks);
  pays = omega (arith, m.pays, n.pays);
  tracks = λ k.
      omega
        (arith, m.shrinks, n.shrinks, m.tracks k, n.tracks (omega (arith, m.shrinks, m.tracks k)));
  balances = λ v. balances_chain v;
}
  where
    balances_chain :
        (v : ℕ)
        → get_user_balance v u.wallet + share user v s.remaining
          ≡ get_user_balance v s.wallet + share user v u.remaining
    balances_chain v = omega (arith, m.balances v, n.balances v)

-- All rounds together conserve what one round conserves.
pub consume_lots-Moves :
    (c : Charge) (lots : List WalletLot) (s : DebitLoop)
    → Ready c.user_id lots s
    → Moves c.user_id s (consume_lots c lots s)
unfolding consume_lots
consume_lots-Moves c [] s h = stay c.user_id s
consume_lots-Moves c (lot ∷ lots) s h = elim (Bool-cases (s.remaining == 0)) [
  | inl done ↦ rw done (stay c.user_id s)
  | inr more ↦ rw more (
      chain c.user_id s (consume_lot c lot s) (consume_lots c lots (consume_lot c lot s))
        (consume_lot-Moves c lot s lots h)
        (consume_lots-Moves c lots (consume_lot c lot s) (consume_lot-Ready c lot s lots h)))
]

abbrev pub remaining_of : WalletLot → ℕ
remaining_of l = l.remaining_amount

consume_lot-remaining :
    (c : Charge) (lot : WalletLot) (s : DebitLoop)
    → (consume_lot c lot s).remaining ≡ s.remaining - lot.remaining_amount
unfolding consume_lot
consume_lot-remaining c lot s = ground arith

-- What the lots cannot cover is left over.
pub consume_lots-remaining :
    (c : Charge) (lots : List WalletLot) (s : DebitLoop)
    → (consume_lots c lots s).remaining ≡ s.remaining - total remaining_of lots
unfolding consume_lots
consume_lots-remaining c [] s = omega arith
consume_lots-remaining c (lot ∷ lots) s =
    ground
      (arith, consume_lot-remaining c lot s, consume_lots-remaining c lots (consume_lot c lot s))

-- An entry of a debit of one user.
pub record IsDebitOf (user : ℕ) (e : LedgerEntry) : Type 0 where
  pub of_user : e.user_id ≡ user
  pub is_debit : e.direction ≡ debit

-- What the loop keeps of the other tables: the ledger grows by the entries that are written.
pub record Keeps (user : ℕ) (base : List LedgerEntry) (s : DebitLoop) (s' : DebitLoop)
    : Type 0 where
  pub logged : s.wallet.ledger ≡ base ++ s.written → s'.wallet.ledger ≡ base ++ s'.written
  pub marked : All (IsDebitOf user) s.written → All (IsDebitOf user) s'.written
  pub same_keys : s'.wallet.keys ≡ s.wallet.keys
  pub same_clock : s'.wallet.now ≡ s.wallet.now
  pub ids_grow : s.wallet.next_id ≤ s'.wallet.next_id
  pub lots_distinct : Distinct lot_key s.wallet.lots → Distinct lot_key s'.wallet.lots
  pub lots_below : (n : ℕ) → Below lot_key n s.wallet.lots → Below lot_key n s'.wallet.lots

Keeps-self : (user : ℕ) (base : List LedgerEntry) (s : DebitLoop) → Keeps user base s s
Keeps-self user base s = record {
  logged = λ h. h;
  marked = λ h. h;
  same_keys = refl;
  same_clock = refl;
  ids_grow = omega arith;
  lots_distinct = λ d. d;
  lots_below = λ n b. b;
}

Keeps-trans :
    (user : ℕ) (base : List LedgerEntry) (s t u : DebitLoop)
    → Keeps user base s t
    → Keeps user base t u
    → Keeps user base s u
Keeps-trans user base s t u h k = record {
  logged = λ e. k.logged (h.logged e);
  marked = λ a. k.marked (h.marked a);
  same_keys = k.same_keys ∙ h.same_keys;
  same_clock = k.same_clock ∙ h.same_clock;
  ids_grow = omega (arith, h.ids_grow, k.ids_grow);
  lots_distinct = λ d. k.lots_distinct (h.lots_distinct d);
  lots_below = λ n b. k.lots_below n (h.lots_below n b);
}

consume_lot-Keeps :
    (base : List LedgerEntry) (c : Charge) (lot : WalletLot) (s : DebitLoop)
    → Keeps c.user_id base s (consume_lot c lot s)
unfolding consume_lot
consume_lot-Keeps base c lot s = record {
  logged = λ h.
      ap (λ l. l ++ new_entry c lot s ∷ []) h
      ∙ append_assoc base s.written (new_entry c lot s ∷ []);
  marked = λ h.
      All-append (IsDebitOf c.user_id) s.written (new_entry c lot s ∷ []) h
        (record { of_user = refl; is_debit = refl }, tt);
  same_keys = refl;
  same_clock = refl;
  ids_grow = omega arith;
  lots_distinct =
      modify-Distinct lot_key lot.id (set_remaining (lot.remaining_amount - taken lot s))
        s.wallet.lots (λ r. refl);
  lots_below = λ n.
      modify-Below lot_key n lot.id (set_remaining (lot.remaining_amount - taken lot s))
        s.wallet.lots (λ r. refl);
}

pub consume_lots-Keeps :
    (base : List LedgerEntry) (c : Charge) (lots : List WalletLot) (s : DebitLoop)
    → Keeps c.user_id base s (consume_lots c lots s)
unfolding consume_lots
consume_lots-Keeps base c [] s = Keeps-self c.user_id base s
consume_lots-Keeps base c (lot ∷ lots) s = elim (Bool-cases (s.remaining == 0)) [
  | inl done ↦ rw done (Keeps-self c.user_id base s)
  | inr more ↦ rw more (
      Keeps-trans c.user_id base s (consume_lot c lot s) (consume_lots c lots (consume_lot c lot s))
        (consume_lot-Keeps base c lot s) (consume_lots-Keeps base c lots (consume_lot c lot s)))
]
