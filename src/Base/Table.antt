-- ===== src/Base/Table.antt =====
-- A database table: rows with a key, found and updated by that key.
use Prim.Native.Nat.{ℕ, ◌+◌, ◌<◌, ◌≤◌}
use mathlib.Core.Path.{◌≡◌, refl, ap, subst}
use mathlib.Core.Logic.{inl, inr}
use mathlib.Core.Option
use mathlib.Core.Option.{Option, none, some}
use mathlib.Core.List.{List, [], ◌∷◌, ◌++◌}
use native.Mathlib.Omega.{arith}
use common_api.Base.Tests.{◌==◌, if◌then◌else◌, Bool-cases, ==_iff, is_some}
use common_api.Base.Lists.{total, All}

module _ {ℓ} {A : Type ℓ} (key : A → ℕ) where
  -- `findOne({ where: { id } })`
  abbrev pub find? : ℕ → List A → Option A
  find? k [] = none
  find? k (r ∷ rs) = if key r == k then some r else find? k rs

  -- `update(id, changes)`: every row of that key is changed.
  abbrev pub modify : ℕ → (A → A) → List A → List A
  modify k f [] = []
  modify k f (r ∷ rs) = (if key r == k then f r else r) ∷ modify k f rs

  -- No two rows share a key.
  abbrev pub Distinct : List A → Type ℓ
  Distinct [] = Unit
  Distinct (r ∷ rs) = (find? (key r) rs ≡ none) × Distinct rs

  -- Every row carries a key below the next one that is handed out.
  abbrev pub Below : ℕ → List A → Type 0
  Below n = All (λ r. key r < n)

  pub find?-modify :
      (j k : ℕ) (f : A → A) (rs : List A)
      → ((r : A) → key (f r) ≡ key r)
      → find? j (modify k f rs) ≡ (if j == k then Option.map f (find? j rs) else find? j rs)
  find?-modify j k f [] keep = ground arith
  find?-modify j k f (r ∷ rs) keep = ground (arith, keep r, find?-modify j k f rs keep)

  pub modify_absent : (k : ℕ) (f : A → A) (rs : List A) → find? k rs ≡ none → modify k f rs ≡ rs
  modify_absent k f [] h = refl
  modify_absent k f (r ∷ rs) h = ground (arith, modify_absent k f rs)

  pub modify-Distinct :
      (k : ℕ) (f : A → A) (rs : List A)
      → ((r : A) → key (f r) ≡ key r)
      → Distinct rs
      → Distinct (modify k f rs)
  modify-Distinct k f [] keep d = tt
  modify-Distinct k f (r ∷ rs) keep d =
      ground (arith, keep r, modify-Distinct k f rs keep d.1, find?-modify (key r) k f rs keep)

  -- Changing one row changes a sum by what that row adds to it.
  pub total-modify :
      (g : A → ℕ) (k : ℕ) (f : A → A) (rs : List A) {r : A}
      → Distinct rs
      → find? k rs ≡ some r
      → total g (modify k f rs) + g r ≡ total g rs + g (f r)
  total-modify g k f [] d e = cc
  total-modify g k f (x ∷ rs) {r} d e = elim (Bool-cases (key x == k)) [
    | inl same ↦
        let at_x : key x ≡ k = (==_iff (key x) k).0 same in
        let absent : find? k rs ≡ none = subst (λ m. find? m rs ≡ none) at_x d.0 in
        ground (arith, modify_absent k f rs absent)
    | inr other ↦ ground (arith, total-modify g k f rs {r = r} d.1)
  ]

  -- The rows of a table with distinct keys are each found under their own key.
  find?-cons_ne :
      (x : A) (rs : List A) (ys : List A)
      → find? (key x) rs ≡ none
      → All (λ r. find? (key r) rs ≡ some r) ys
      → All (λ r. find? (key r) (x ∷ rs) ≡ some r) ys
  find?-cons_ne x rs [] h t = tt
  find?-cons_ne x rs (y ∷ ys) h t = (
    elim (Bool-cases (key x == key y)) [
      | inl e ↦ ground (arith, ap (λ k. find? k rs) ((==_iff (key x) (key y)).0 e))
      | inr e ↦ rw e t.0
    ],
    find?-cons_ne x rs ys h t.1,
  )

  pub find?_self : (rs : List A) → Distinct rs → All (λ r. find? (key r) rs ≡ some r) rs
  find?_self [] d = tt
  find?_self (x ∷ rs) d = (ground arith, find?-cons_ne x rs rs d.0 (find?_self rs d.1))

  -- A row under a new key goes to the end and is found there.
  pub find?-append_new :
      (j : ℕ) (rs : List A) (x : A)
      → find? j (rs ++ x ∷ [])
        ≡ (if is_some (find? j rs) then find? j rs else if key x == j then some x else none)
  find?-append_new j [] x = refl
  find?-append_new j (r ∷ rs) x = ground (arith, find?-append_new j rs x)

  pub Below-absent : (n : ℕ) (rs : List A) → Below n rs → find? n rs ≡ none
  Below-absent n [] b = refl
  Below-absent n (r ∷ rs) b = ground (arith, Below-absent n rs b.1)

  pub append-Below :
      (n : ℕ) (rs : List A) (x : A) → Below n rs → key x ≡ n → Below (n + 1) (rs ++ x ∷ [])
  append-Below n [] x b e = (omega arith, tt)
  append-Below n (r ∷ rs) x b e = (omega (arith, b.0), append-Below n rs x b.1 e)

  pub append-Distinct :
      (n : ℕ) (rs : List A) (x : A) → Below n rs → key x ≡ n → Distinct rs → Distinct (rs ++ x ∷ [])
  append-Distinct n [] x b e d = (refl, tt)
  append-Distinct n (r ∷ rs) x b e d =
      (ground (arith, find?-append_new (key r) rs x), append-Distinct n rs x b.1 e d.1)

  pub modify-Below :
      (n k : ℕ) (f : A → A) (rs : List A)
      → ((r : A) → key (f r) ≡ key r)
      → Below n rs
      → Below n (modify k f rs)
  modify-Below n k f [] keep b = tt
  modify-Below n k f (r ∷ rs) keep b = (ground (arith, keep r, b.0), modify-Below n k f rs keep b.1)

  pub Below-mono : (m n : ℕ) (rs : List A) → m ≤ n → Below m rs → Below n rs
  Below-mono m n [] h b = tt
  Below-mono m n (r ∷ rs) h b = (omega (arith, b.0), Below-mono m n rs h b.1)

  pub All-modify {κ} :
      (P : A → Type κ) (k : ℕ) (f : A → A) (rs : List A)
      → ((r : A) → P r → P (f r))
      → All P rs
      → All P (modify k f rs)
  All-modify P k f [] keep h = tt
  All-modify P k f (r ∷ rs) keep h = elim (Bool-cases (key r == k)) [
    | inl e ↦ rw e (keep r h.0, All-modify P k f rs keep h.1)
    | inr e ↦ rw e (h.0, All-modify P k f rs keep h.1)
  ]

  -- A change to the row under one key need keep a predicate of that row only.
  pub All-modify_found {κ} :
      (P : A → Type κ) (k : ℕ) (f : A → A) (rs : List A)
      → Distinct rs
      → ((r : A) → find? k rs ≡ some r → P r → P (f r))
      → All P rs
      → All P (modify k f rs)
  All-modify_found P k f [] d keep h = tt
  All-modify_found P k f (r ∷ rs) d keep h = elim (Bool-cases (key r == k)) [
    | inl e ↦
        let absent : find? k rs ≡ none =
          subst (λ m. find? m rs ≡ none) ((==_iff (key r) k).0 e) d.0 in
        rw e (rw (modify_absent k f rs absent) (keep r (ground (arith, e)) h.0, h.1))
    | inr e ↦
        rw e (h.0, All-modify_found P k f rs d.1 (λ x found. keep x (ground (arith, e, found))) h.1)
  ]
