-- ===== src/Base/Pages.antt =====
-- `ORDER BY column DESC`, `LIMIT limit OFFSET offset` and `getManyAndCount`.
use Prim.Native.Nat.{ℕ}
use mathlib.Core.Bool.{Bool}
use mathlib.Core.List.{List, reverse}
use common_api.Base.Lists.{length, take, drop, select}
use common_api.Base.Sort.{sort_rows}

module _ {ℓ} {A : Type ℓ} where
  -- Rows of equal columns come in the reverse order of their insertion, which a database may do.
  abbrev pub newest_first : (A → ℕ) → List A → List A
  newest_first column xs = reverse (sort_rows column xs)

  -- The rows of a page, and how many there are on all pages, under the order in which the
  -- database returns the rows that match.
  abbrev pub page : (List A → List A) → (A → Bool) → List A → ℕ → ℕ → List A × ℕ
  page order p rows limit offset =
      (take limit (drop offset (order (select p rows))), length (select p rows))
