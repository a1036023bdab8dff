-- ===== src/Order/Sellable.antt =====
-- What the checks of ProductService keep (modules/billing/services/product.service.ts).
use mathlib.Core.Path.{subst}
use mathlib.Core.Option.{some_inj}
use common_api.Base.{
  ℕ, zero, suc, ◌<◌, ◌^◌, ◌≡◌, inl, inr, refl, String, Bool, true, Bool-cases, Option-cases, Option,
  some, none, ltb, ap, or_default, truthy, All, All-append, arith,
}
use common_api.Base.Int.{pos, negsuc}
use common_api.Base.Table.{All-modify}
use common_api.Action.{Result, ok, err, Result-cases}
use common_api.Wallet.Entities.{AmountText, spells, spells_too, unreadable}
use common_api.Order.Entities.{ProductType, Product, Shop}
use common_api.Order.Repository.{product_key, find_product}
use common_api.Order.Products.{
  PriceText, empty_text, price_text, ProductRequest, ProductUpdate, ProductPlatform, positive_price,
  store_price, price_or_zero, checked_name, store_name, insert_product, create_product,
  checked_price, checked_new_name, written_price, written_name, with_changes, write_product,
  update_product,
}

-- A product can be sold: it has a price that its column holds, and a name.
pub record IsSellable (x : Product) : Type 0 where
  pub priced : 0 < x.default_price
  pub held_by_column : x.default_price < 2 ^ 63
  pub named : truthy (some x.name) ≡ some x.name

abbrev pub IsPrice : ℕ → Type 0
IsPrice n = (0 < n) × (n < 2 ^ 63)

abbrev pub IsName : String → Type 0
IsName t = truthy (some t) ≡ some t

abbrev pub WhenSome : {A : Type 0} → (A → Type 0) → Option A → Type 0
WhenSome P none = Unit
WhenSome P (some a) = P a

positive_price-pos : (t : AmountText) {n : ℕ} → positive_price t ≡ ok n → 0 < n
unfolding positive_price
positive_price-pos unreadable h = ground arith
positive_price-pos (spells (negsuc k)) h = ground arith
positive_price-pos (spells (pos zero)) h = ground arith
positive_price-pos (spells (pos (suc k))) h = ground arith
positive_price-pos (spells_too t (negsuc k)) h = ground arith
positive_price-pos (spells_too t (pos zero)) h = ground arith
positive_price-pos (spells_too t (pos (suc k))) h = ground arith

truthy-IsName : (o : Option String) {t : String} → truthy o ≡ some t → IsName t
truthy-IsName none h = ground arith
truthy-IsName (some String.[]) h = ground arith
truthy-IsName (some (String.◌∷◌ c t)) h = subst IsName (some_inj.0 h) refl

store_price-held : (n : ℕ) {m : ℕ} → store_price n ≡ ok m → (m ≡ n) × (n < 2 ^ 63)
unfolding store_price
store_price-held n h = elim (Bool-cases (ltb n (2 ^ 63))) [
  | inl e ↦ ground (arith, e, h)
  | inr e ↦ ground (arith, e, h)
]

abbrev ok_or : {A : Type 0} → A → Result A → A
ok_or a (ok b) = b
ok_or a (err _) = a

ok_inj : {A : Type 0} {a b : A} → ok a ≡ ok b → a ≡ b
ok_inj {a = a} h = ap (ok_or a) h

module _ (p : ProductPlatform) where
  checked_name-IsName : (o : Option String) {t : String} → checked_name p o ≡ ok t → IsName t
  unfolding checked_name
  checked_name-IsName o {t} h = elim (Option-cases (truthy o)) [
    | inl e ↦ ground (arith, e, h)
    | inr (given, e) ↦ elim (Option-cases (truthy (some (p.trim given)))) [
      | inl f ↦ ground (arith, e, f, h)
      | inr (u, f) ↦ truthy-IsName (some (p.trim given)) {t = t} (ground (arith, e, f, h))
    ]
  ]

  store_name-same : (t : String) {u : String} → store_name p t ≡ ok u → t ≡ u
  unfolding store_name
  store_name-same t h = elim (Bool-cases (p.takes_name t)) [
    | inl e ↦ ok_inj (ground (arith, e, h))
    | inr e ↦ ground (arith, e, h)
  ]

  insert_product-Sellable :
      (id app : ℕ) (type : ProductType) (name : String) (price : ℕ) (active : Bool) (s : Shop)
      → 0 < price
      → IsName name
      → All IsSellable s.products
      → All IsSellable (insert_product p id app type name price active s).1.products
  unfolding insert_product
  insert_product-Sellable id app type name price active s positive named h =
      elim (Result-cases (store_price price)) [
        | inr (_, e) ↦ rw e h
        | inl (n, e) ↦ elim (Result-cases (store_name p name)) [
          | inr (_, f) ↦ rw (e, f) h
          | inl (u, f) ↦
              rw (e, f)
                (All-append IsSellable s.products _ h (
                  record {
                    priced = ground (arith, store_price-held price {m = n} e);
                    held_by_column = omega (
                      arith,
                      (store_price-held price {m = n} e).0,
                      (store_price-held price {m = n} e).1,
                    );
                    named = subst IsName (store_name-same name f) named;
                  },
                  tt,
                ))
        ]
      ]

  pub create_product-Sellable :
      (id app : ℕ) (r : ProductRequest) (s : Shop)
      → All IsSellable s.products
      → All IsSellable (create_product p id app r s).1.products
  unfolding create_product
  create_product-Sellable id app r s h =
      elim (Result-cases (positive_price (price_or_zero r.default_price))) [
        | inr (_, e) ↦ rw e h
        | inl (n, e) ↦ elim (Result-cases (checked_name p r.name)) [
          | inr (_, f) ↦ rw (e, f) h
          | inl (t, f) ↦
              rw (e, f)
                (insert_product-Sellable id app r.type t n (or_default r.is_active true) s
                  (positive_price-pos (price_or_zero r.default_price) {n = n} e)
                  (checked_name-IsName r.name {t = t} f) h)
        ]
      ]

  -- Changes that are absent, or a price and a name that can be sold under.
  checked_price-WhenSome :
      (o : Option PriceText) {price : Option ℕ}
      → checked_price p o ≡ ok price
      → WhenSome (λ n. 0 < n) price
  unfolding checked_price
  checked_price-WhenSome none h = subst (WhenSome (λ n. 0 < n)) (ok_inj h) tt
  checked_price-WhenSome (some empty_text) h = subst (WhenSome (λ n. 0 < n)) (ok_inj h) tt
  checked_price-WhenSome (some (price_text t)) {price} h = elim (Result-cases (positive_price t)) [
    | inr (_, e) ↦ ground (arith, e, h)
    | inl (n, e) ↦
        subst (WhenSome (λ n. 0 < n)) {x = some n} (ok_inj (ground (arith, e, h)))
          (positive_price-pos t e)
  ]

  checked_new_name-WhenSome :
      (o : Option String) {name : Option String}
      → checked_new_name p o ≡ ok name
      → WhenSome IsName name
  checked_new_name-WhenSome none h = subst (WhenSome IsName) (ok_inj h) tt
  checked_new_name-WhenSome (some t) h = elim (Result-cases (checked_name p (some t))) [
    | inr (_, e) ↦ ground (arith, e, h)
    | inl (u, e) ↦
        subst (WhenSome IsName) {x = some u} (ok_inj (ground (arith, e, h)))
          (checked_name-IsName (some t) e)
  ]

  stored_IsPrice :
      (n : ℕ) {stored : Option ℕ}
      → 0 < n
      → written_price p none (some n) ≡ ok stored
      → WhenSome IsPrice stored
  stored_IsPrice n positive h = elim (Result-cases (store_price n)) [
    | inr (_, e) ↦ ground (arith, e, h)
    | inl (m, e) ↦
        subst (WhenSome IsPrice) {x = some m} (ok_inj (ground (arith, e, h)))
          (ground (arith, store_price-held n e), ground (arith, store_price-held n e))
  ]

  written_price-IsPrice :
      (given : Option PriceText) (price : Option ℕ) {stored : Option ℕ}
      → WhenSome (λ n. 0 < n) price
      → written_price p given price ≡ ok stored
      → WhenSome IsPrice stored
  written_price-IsPrice (some empty_text) price positive h = ground arith
  written_price-IsPrice none none positive h = subst (WhenSome IsPrice) (ok_inj h) tt
  written_price-IsPrice (some (price_text t)) none positive h =
      subst (WhenSome IsPrice) (ok_inj h) tt
  written_price-IsPrice none (some n) positive h = stored_IsPrice n positive h
  written_price-IsPrice (some (price_text t)) (some n) positive h = stored_IsPrice n positive h

  written_name-IsName :
      (name : Option String) {stored : Option String}
      → WhenSome IsName name
      → written_name p name ≡ ok stored
      → WhenSome IsName stored
  written_name-IsName none named h = subst (WhenSome IsName) (ok_inj h) tt
  written_name-IsName (some t) named h = elim (Result-cases (store_name p t)) [
    | inr (_, e) ↦ ground (arith, e, h)
    | inl (u, e) ↦
        subst (WhenSome IsName) {x = some u} (ok_inj (ground (arith, e, h)))
          (subst IsName (store_name-same t e) named)
  ]

  with_changes-IsSellable :
      (name : Option String) (price : Option ℕ) (active : Option Bool) (x : Product)
      → WhenSome IsPrice price
      → WhenSome IsName name
      → IsSellable x
      → IsSellable (with_changes p name price active x)
  with_changes-IsSellable none none active x a b h = record {
    priced = h.priced;
    held_by_column = h.held_by_column;
    named = h.named;
  }
  with_changes-IsSellable (some t) none active x a b h = record {
    priced = h.priced;
    held_by_column = h.held_by_column;
    named = b;
  }
  with_changes-IsSellable none (some n) active x a b h = record {
    priced = a.0;
    held_by_column = a.1;
    named = h.named;
  }
  with_changes-IsSellable (some t) (some n) active x a b h = record {
    priced = a.0;
    held_by_column = a.1;
    named = b;
  }

  pub update_product-Sellable :
      (id : ℕ) (d : ProductUpdate) (s : Shop)
      → All IsSellable s.products
      → All IsSellable (update_product p id d s).1.products
  unfolding update_product write_product
  update_product-Sellable id d s h = elim (Option-cases (find_product id s)) [
    | inl e ↦ rw e h
    | inr (x, found) ↦ elim (Result-cases (checked_price p d.default_price)) [
      | inr (_, e) ↦ rw (found, e) h
      | inl (price, e) ↦ elim (Result-cases (checked_new_name p d.name)) [
        | inr (_, f) ↦ rw (found, e, f) h
        | inl (name, f) ↦ elim (Result-cases (written_price p d.default_price price)) [
          | inr (_, g) ↦ rw (found, e, f, g) h
          | inl (m, g) ↦ elim (Result-cases (written_name p name)) [
            | inr (_, k) ↦ rw (found, e, f, g, k) h
            | inl (u, k) ↦
                rw (found, e, f, g, k)
                  (All-modify product_key IsSellable id (with_changes p u m d.is_active) s.products
                    (λ y ok_y.
                      with_changes-IsSellable u m d.is_active y
                        (written_price-IsPrice d.default_price price
                          (checked_price-WhenSome d.default_price e) g)
                        (written_name-IsName name (checked_new_name-WhenSome d.name f) k) ok_y)
                    h)
          ]
        ]
      ]
    ]
  ]
