-- ===== src/Wallet/Columns.antt =====
-- What the columns take of a request (wallet-ledger.entity.ts, wallet-lot.entity.ts,
-- idempotency-key.entity.ts), and that they then take every row of its debit.
use common_api.Base.{
  ℕ, ◌≤◌, ◌-◌, ◌≡◌, true, inl, inr, Bool-cases, List, [], ◌∷◌, ◌++◌, ◌==◌, some, String, truthy,
  arith,
}
use common_api.Wallet.Entities.{WalletLot, LedgerEntry, RequestData, Charge}
use common_api.Wallet.Repository.{fits_varchar, fits_bigint, takes_entry}
use common_api.Wallet.Service.{request_data, DebitLoop, consume_lot, consume_lots, all_taken}
use common_api.Wallet.Loop.{taken}

pub fits_bigint_le : (m n : ℕ) → m ≤ n → fits_bigint n ≡ true → fits_bigint m ≡ true
unfolding fits_bigint
fits_bigint_le m n le h = ground arith

-- The texts of a request fit the columns that they are written to.
pub record Fits (hash_request : RequestData → String) (c : Charge) : Type 0 where
  pub ref_type : fits_varchar 100 c.ref_type ≡ true
  pub ref_id : fits_varchar 255 c.ref_id ≡ true
  pub key : (key : String) → truthy c.idempotency_key ≡ some key → fits_varchar 255 key ≡ true
  pub hash : fits_varchar 255 (hash_request (request_data c)) ≡ true

all_taken-append :
    (es : List LedgerEntry) (e : LedgerEntry)
    → all_taken es ≡ true
    → takes_entry e ≡ true
    → all_taken (es ++ e ∷ []) ≡ true
unfolding all_taken
all_taken-append [] e h t = ground (arith, t)
all_taken-append (x ∷ es) e h t = ground (arith, all_taken-append es e (ground (arith, h)) t, h)

module _ (hash_request : RequestData → String) (c : Charge) (fits : Fits hash_request c) where
  -- What the loop has written fits, and so will what is left.
  record Fitting (s : DebitLoop) : Type 0 where
    remaining : fits_bigint s.remaining ≡ true
    balance : fits_bigint s.running_balance ≡ true
    written : all_taken s.written ≡ true

  consume_lot-Fitting :
      (lot : WalletLot) (s : DebitLoop) → Fitting s → Fitting (consume_lot c lot s)
  unfolding consume_lot takes_entry
  consume_lot-Fitting lot s h = record {
    remaining = fits_bigint_le (s.remaining - taken lot s) s.remaining (omega arith) h.remaining;
    balance =
        fits_bigint_le (s.running_balance - taken lot s) s.running_balance (omega arith) h.balance;
    written = all_taken-append s.written _ h.written (
        ground (
          arith,
          fits.ref_type,
          fits.ref_id,
          fits_bigint_le (taken lot s) s.remaining (ground arith) h.remaining,
          fits_bigint_le (s.running_balance - taken lot s) s.running_balance (omega arith)
              h.balance,
        ));
  }

  consume_lots-Fitting :
      (lots : List WalletLot) (s : DebitLoop) → Fitting s → Fitting (consume_lots c lots s)
  unfolding consume_lots
  consume_lots-Fitting [] s h = h
  consume_lots-Fitting (lot ∷ lots) s h = elim (Bool-cases (s.remaining == 0)) [
    | inl done ↦ rw done h
    | inr more ↦
        rw more (consume_lots-Fitting lots (consume_lot c lot s) (consume_lot-Fitting lot s h))
  ]

  -- The columns take every entry of a debit of numbers that fit.
  pub consume_lots-all_taken :
      (lots : List WalletLot) (s : DebitLoop)
      → fits_bigint s.remaining ≡ true
      → fits_bigint s.running_balance ≡ true
      → all_taken s.written ≡ true
      → all_taken (consume_lots c lots s).written ≡ true
  consume_lots-all_taken lots s r b w =
      (consume_lots-Fitting lots s (record { remaining = r; balance = b; written = w })).written
