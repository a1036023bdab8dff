-- ===== src/Wallet/Expiry.antt =====
-- What the time to expire of a lot is used for by the balance and the debit
-- (modules/point/repositories/wallet-lot.repository.ts).
use common_api.Base.{
  ℕ, ◌≡◌, ◌∙◌, refl, ap, Bool-cases, List, [], ◌∷◌, map, Option, inl, inr, leb, select, total,
  arith,
}
use common_api.Base.Sort.{sort_rows, insert_row}
use common_api.Wallet.Entities.{WalletLot, Wallet}
use common_api.Wallet.Repository.{is_available, get_available_lots_for_debit, get_user_balance}

module _ (expiry : WalletLot → Option ℕ) where
  abbrev pub expiring : WalletLot → WalletLot
  expiring l = record l { expires_at = expiry l }

  -- The wallet with other times to expire, at another time.
  abbrev pub with_expiry : ℕ → Wallet → Wallet
  with_expiry time w = record w { lots = map expiring w.lots; now = time }

  select-expiring :
      (user : ℕ) (lots : List WalletLot)
      → select (is_available user) (map expiring lots)
        ≡ map expiring (select (is_available user) lots)
  select-expiring user [] = refl
  select-expiring user (l ∷ lots) = elim (Bool-cases (is_available user l)) [
    | inl e ↦ rw e (ap (λ t. expiring l ∷ t) (select-expiring user lots))
    | inr e ↦ rw e (select-expiring user lots)
  ]

  insert_row-expiring :
      (l : WalletLot) (lots : List WalletLot)
      → insert_row (λ x. x.created_at) (expiring l) (map expiring lots)
        ≡ map expiring (insert_row (λ x. x.created_at) l lots)
  insert_row-expiring l [] = refl
  insert_row-expiring l (x ∷ lots) = elim (Bool-cases (leb l.created_at x.created_at)) [
    | inl e ↦ rw e refl
    | inr e ↦ rw e (ap (λ t. expiring x ∷ t) (insert_row-expiring l lots))
  ]

  sort_rows-expiring :
      (lots : List WalletLot)
      → sort_rows (λ x. x.created_at) (map expiring lots)
        ≡ map expiring (sort_rows (λ x. x.created_at) lots)
  sort_rows-expiring [] = refl
  sort_rows-expiring (l ∷ lots) =
      ap (insert_row (λ x. x.created_at) (expiring l)) (sort_rows-expiring lots)
      ∙ insert_row-expiring l (sort_rows (λ x. x.created_at) lots)

  total-expiring :
      (lots : List WalletLot)
      → total (λ l. l.remaining_amount) (map expiring lots) ≡ total (λ l. l.remaining_amount) lots
  total-expiring [] = refl
  total-expiring (l ∷ lots) = ground (arith, total-expiring lots)

  -- A lot that has expired counts like any other: whatever the lots' times to expire and the time,
  -- a user has the same balance, and a debit is given the same lots in the same order.
  expiry_ignored :
      (user time : ℕ) (w : Wallet)
      → (get_user_balance user (with_expiry time w) ≡ get_user_balance user w)
        × (get_available_lots_for_debit user (with_expiry time w)
            ≡ map expiring (get_available_lots_for_debit user w))
  unfolding get_user_balance get_available_lots_for_debit
  expiry_ignored user time w = (
    ap (total (λ l. l.remaining_amount)) (select-expiring user w.lots)
        ∙ total-expiring (select (is_available user) w.lots),
    ap (sort_rows (λ x. x.created_at)) (select-expiring user w.lots)
        ∙ sort_rows-expiring (select (is_available user) w.lots),
  )
