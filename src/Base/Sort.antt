-- ===== src/Base/Sort.antt =====
-- `ORDER BY column ASC`: insertion sort that keeps rows of equal columns in their order.
use Prim.Native.Nat.{ℕ, ◌+◌, ◌≤◌}
use mathlib.Core.Path.{◌≡◌, refl}
use mathlib.Core.Logic.{inl, inr}
use mathlib.Core.List.{List, [], ◌∷◌}
use native.Mathlib.Omega.{arith}
use common_api.Base.Tests.{leb, if◌then◌else◌, Bool-cases}
use common_api.Base.Lists.{total, All}

module _ {ℓ} {A : Type ℓ} (column : A → ℕ) where
  abbrev pub insert_row : A → List A → List A
  insert_row x [] = x ∷ []
  insert_row x (y ∷ ys) = if leb (column x) (column y) then x ∷ y ∷ ys else y ∷ insert_row x ys

  abbrev pub sort_rows : List A → List A
  sort_rows [] = []
  sort_rows (x ∷ xs) = insert_row x (sort_rows xs)

  -- Each row's column is at most that of every later row.
  abbrev pub IsSorted : List A → Type 0
  IsSorted [] = Unit
  IsSorted (x ∷ xs) = All (λ y. column x ≤ column y) xs × IsSorted xs

  All-insert_row {κ} :
      (P : A → Type κ) (x : A) (ys : List A) → P x → All P ys → All P (insert_row x ys)
  All-insert_row P x [] p h = (p, tt)
  All-insert_row P x (y ∷ ys) p h = elim (Bool-cases (leb (column x) (column y))) [
    | inl e ↦ rw e (p, h)
    | inr e ↦ rw e (h.0, All-insert_row P x ys p h.1)
  ]

  pub All-sort_rows {κ} : (P : A → Type κ) (xs : List A) → All P xs → All P (sort_rows xs)
  All-sort_rows P [] h = tt
  All-sort_rows P (x ∷ xs) h = All-insert_row P x (sort_rows xs) h.0 (All-sort_rows P xs h.1)

  All-le : (m n : ℕ) (ys : List A) → m ≤ n → All (λ y. n ≤ column y) ys → All (λ y. m ≤ column y) ys
  All-le m n [] l h = tt
  All-le m n (y ∷ ys) l h = (omega (arith, h.0), All-le m n ys l h.1)

  insert_row-IsSorted : (x : A) (ys : List A) → IsSorted ys → IsSorted (insert_row x ys)
  insert_row-IsSorted x [] s = (tt, tt)
  insert_row-IsSorted x (y ∷ ys) s = elim (Bool-cases (leb (column x) (column y))) [
    | inl e ↦
        let le : column x ≤ column y = ground arith in
        rw e ((le, All-le (column x) (column y) ys le s.0), s)
    | inr e ↦ rw e (
      All-insert_row (λ z. column y ≤ column z) x ys (ground arith) s.0,
      insert_row-IsSorted x ys s.1,
    )
  ]

  pub sort_rows-IsSorted : (xs : List A) → IsSorted (sort_rows xs)
  sort_rows-IsSorted [] = tt
  sort_rows-IsSorted (x ∷ xs) = insert_row-IsSorted x (sort_rows xs) (sort_rows-IsSorted xs)

  total-insert_row :
      (g : A → ℕ) (x : A) (ys : List A) → total g (insert_row x ys) ≡ g x + total g ys
  total-insert_row g x [] = refl
  total-insert_row g x (y ∷ ys) = ground (arith, total-insert_row g x ys)

  pub total-sort_rows : (g : A → ℕ) (xs : List A) → total g (sort_rows xs) ≡ total g xs
  total-sort_rows g [] = refl
  total-sort_rows g (x ∷ xs) =
      omega (arith, total-insert_row g x (sort_rows xs), total-sort_rows g xs)
