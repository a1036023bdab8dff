-- ===== src/Base/Query.antt =====
-- What a query's selection and ordering keep of the table's keys.
use Prim.Native.Nat.{ℕ, zero, suc}
use mathlib.Core.Path.{◌≡◌, refl}
use mathlib.Core.Logic.{◌≢◌, inl, inr}
use mathlib.Core.Bool.{Bool}
use mathlib.Core.Option.{none}
use mathlib.Core.List.{List, [], ◌∷◌}
use native.Mathlib.Omega.{arith}
use common_api.Base.Tests.{leb, Bool-cases}
use common_api.Base.Lists.{select, take}
use common_api.Base.Table.{find?, Distinct}
use common_api.Base.Sort.{insert_row, sort_rows}

module _ {ℓ} {A : Type ℓ} (key column : A → ℕ) where
  select-absent :
      (p : A → Bool) (k : ℕ) (rs : List A)
      → find? key k rs ≡ none
      → find? key k (select p rs) ≡ none
  select-absent p k [] h = refl
  select-absent p k (r ∷ rs) h = ground (arith, select-absent p k rs)

  pub select-Distinct : (p : A → Bool) (rs : List A) → Distinct key rs → Distinct key (select p rs)
  select-Distinct p [] d = tt
  select-Distinct p (r ∷ rs) d = elim (Bool-cases (p r)) [
    | inl e ↦ rw e (select-absent p (key r) rs d.0, select-Distinct p rs d.1)
    | inr e ↦ rw e (select-Distinct p rs d.1)
  ]

  insert_row-absent :
      (k : ℕ) (x : A) (ys : List A)
      → key x ≢ k
      → find? key k ys ≡ none
      → find? key k (insert_row column x ys) ≡ none
  insert_row-absent k x [] ne h = ground arith
  insert_row-absent k x (y ∷ ys) ne h = ground (arith, insert_row-absent k x ys ne)

  insert_row-Distinct :
      (x : A) (ys : List A)
      → find? key (key x) ys ≡ none
      → Distinct key ys
      → Distinct key (insert_row column x ys)
  insert_row-Distinct x [] h d = (refl, tt)
  insert_row-Distinct x (y ∷ ys) h d = elim (Bool-cases (leb (column x) (column y))) [
    | inl e ↦ rw e (h, d)
    | inr e ↦ rw e (
      insert_row-absent (key y) x ys (ground arith) d.0,
      insert_row-Distinct x ys (ground arith) d.1,
    )
  ]

  sort_rows-absent :
      (k : ℕ) (xs : List A) → find? key k xs ≡ none → find? key k (sort_rows column xs) ≡ none
  sort_rows-absent k [] h = refl
  sort_rows-absent k (x ∷ xs) h =
      insert_row-absent k x (sort_rows column xs) (ground arith)
        (sort_rows-absent k xs (ground arith))

  pub sort_rows-Distinct : (xs : List A) → Distinct key xs → Distinct key (sort_rows column xs)
  sort_rows-Distinct [] d = tt
  sort_rows-Distinct (x ∷ xs) d =
      insert_row-Distinct x (sort_rows column xs) (sort_rows-absent (key x) xs d.0)
        (sort_rows-Distinct xs d.1)

  take-absent : (n k : ℕ) (xs : List A) → find? key k xs ≡ none → find? key k (take n xs) ≡ none
  take-absent zero k xs h = refl
  take-absent (suc n) k [] h = refl
  take-absent (suc n) k (x ∷ xs) h = ground (arith, take-absent n k xs)

  pub take-Distinct : (n : ℕ) (xs : List A) → Distinct key xs → Distinct key (take n xs)
  take-Distinct zero xs d = tt
  take-Distinct (suc n) [] d = tt
  take-Distinct (suc n) (x ∷ xs) d = (take-absent n (key x) xs d.0, take-Distinct n xs d.1)
