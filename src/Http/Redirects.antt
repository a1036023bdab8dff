-- ===== src/Http/Redirects.antt =====
-- RedirectUriValidator (common/utils/redirect-uri-validator.util.ts). `new URL` is an argument.
use Prim.Native.Char.{code}
use Prim.Native.String.{◌++◌ as append}
use mathlib.Core.Option.{some_inj}
use common_api.Base.{
  ◌≡◌, ◌⊎◌, inl, inr, refl, sym, ap, ◌∙◌, String, Bool, true, false, ◌&&◌, ◌||◌, not, List, [], ◌∷◌,
  Option, some, none, str_eq, eq_iff, ◌==◌, if◌then◌else◌, truthy, Bool-cases, Option-cases, arith,
}
use common_api.Exceptions.{bad_request}
use common_api.Action.{Result, ok, err}

-- The parts of a `URL` that are read.
pub record Url : Type 0 where
  pub protocol : String
  pub host : String
  pub hostname : String

-- `text.endsWith(suffix)`
unfoldable pub ends_with : String → String → Bool
ends_with suffix String.[] = str_eq String.[] suffix
ends_with suffix (String.◌∷◌ c s) = str_eq (String.◌∷◌ c s) suffix || ends_with suffix s

-- `text.substring(2)` of a text that starts with "*."
unfoldable pub after_wildcard : String → Option String
after_wildcard (String.◌∷◌ c (String.◌∷◌ d s)) =
    if code c == b'*' && (code d == b'.') then some s else none
after_wildcard _ = none

-- isLocalhost
unfoldable pub is_localhost : Url → Bool
is_localhost u =
    str_eq u.hostname "localhost"
    || (str_eq u.hostname "127.0.0.1"
        || (str_eq u.hostname "0.0.0.0" || (str_eq u.hostname "[::1]" || str_eq u.hostname "::1")))

-- `${url.protocol}//${url.host}`
unfoldable pub origin_of : Url → String
origin_of u = append u.protocol (append "//" u.host)

-- The test of two addresses that both parse.
unfoldable pub under_domain : Url → Url → Bool
under_domain redirect allowed =
    (ends_with (append "." allowed.hostname) redirect.hostname
      || str_eq redirect.hostname allowed.hostname)
    && str_eq redirect.protocol allowed.protocol

module _ (parse : String → Option Url) where
  -- The part of matchesDomain for a pattern that starts with "*."
  unfoldable pub matches_wildcard : String → String → Bool
  matches_wildcard origin base = elim (parse origin) [
    | none ↦ false
    | some redirect ↦ elim (parse (append "https://" base)) [
      | none ↦ false
      | some allowed ↦ under_domain redirect allowed
    ]
  ]

  -- matchesDomain
  unfoldable pub matches_domain : String → String → Bool
  matches_domain origin pattern =
      str_eq origin pattern
      || elim (after_wildcard pattern) [ none ↦ false | some base ↦ matches_wildcard origin base ]

  abbrev pub some_match : String → List String → Bool
  some_match origin [] = false
  some_match origin (d ∷ ds) = matches_domain origin d || some_match origin ds

  -- The check against the whitelist.
  unfoldable pub check_whitelist : Url → Option (List String) → Result (Unit {0})
  check_whitelist u none = err (bad_request "No allowed redirect domains configured for this app")
  check_whitelist u (some []) =
      err (bad_request "No allowed redirect domains configured for this app")
  check_whitelist u (some (d ∷ ds)) =
      if some_match (origin_of u) (d ∷ ds)
      then ok tt
      else err (bad_request "redirect_uri domain not in whitelist")

  -- validate
  unfoldable pub validate : String → Option (List String) → Bool → Result (Unit {0})
  validate uri domains is_development = elim (truthy (some uri)) [
    | none ↦ err (bad_request "redirect_uri is required")
    | some given ↦ elim (parse given) [
      | none ↦ err (bad_request "redirect_uri must be a valid URL")
      | some u ↦
          if is_development && is_localhost u
          then ok tt
          else if not is_development && not (str_eq u.protocol "https:")
          then err (bad_request "redirect_uri must use HTTPS in production")
          else check_whitelist u domains
    ]
  ]

  -- extractDomain
  unfoldable pub extract_domain : String → String
  extract_domain uri = elim (parse uri) [ none ↦ uri | some u ↦ origin_of u ]

  -- What a pattern allows: its very origin, or where it is "*." with a base, what is under the base
  -- and of the same protocol as an address "https://" with the base.
  abbrev pub Allows : String → Url → Type 0
  Allows pattern u =
      (origin_of u ≡ pattern)
      ⊎ ((base : String) × (redirect : Url) × (allowed : Url) × (after_wildcard pattern ≡ some base)
          × (parse (origin_of u) ≡ some redirect)
          × (parse (append "https://" base) ≡ some allowed)
          × (redirect.protocol ≡ allowed.protocol)
          × ((ends_with (append "." allowed.hostname) redirect.hostname ≡ true)
              ⊎ (redirect.hostname ≡ allowed.hostname)))

  abbrev pub SomeAllows : List String → Url → Type 0
  SomeAllows [] u = ⊥
  SomeAllows (d ∷ ds) u = Allows d u ⊎ SomeAllows ds u

  under_domain-true :
      (r a : Url)
      → under_domain r a ≡ true
      → (r.protocol ≡ a.protocol)
        × ((ends_with (append "." a.hostname) r.hostname ≡ true) ⊎ (r.hostname ≡ a.hostname))
  unfolding under_domain
  under_domain-true r a h = elim (Bool-cases (str_eq r.protocol a.protocol)) [
    | inr e ↦ ground (arith, e, h)
    | inl e ↦
        let same = (eq_iff r.protocol a.protocol).0 e in
        elim (Bool-cases (ends_with (append "." a.hostname) r.hostname)) [
          | inl f ↦ (same, inl f)
          | inr f ↦ (same, inr ((eq_iff r.hostname a.hostname).0 (ground (arith, e, f, h))))
        ]
  ]

  matches_domain-Allows :
      (pattern : String) (u : Url) → matches_domain (origin_of u) pattern ≡ true → Allows pattern u
  unfolding matches_domain matches_wildcard
  matches_domain-Allows pattern u h = elim (Bool-cases (str_eq (origin_of u) pattern)) [
    | inl e ↦ inl ((eq_iff (origin_of u) pattern).0 e)
    | inr e ↦ elim (Option-cases (after_wildcard pattern)) [
      | inl f ↦ ground (arith, e, f, h)
      | inr (base, f) ↦ elim (Option-cases (parse (origin_of u))) [
        | inl g ↦ ground (arith, e, f, g, h)
        | inr (r, g) ↦ elim (Option-cases (parse (append "https://" base))) [
          | inl k ↦ ground (arith, e, f, g, k, h)
          | inr (a, k) ↦
              let (same, under) = under_domain-true r a (ground (arith, e, f, g, k, h)) in
              inr (base, r, a, f, g, k, same, under)
        ]
      ]
    ]
  ]

  some_match-SomeAllows :
      (ds : List String) (u : Url) → some_match (origin_of u) ds ≡ true → SomeAllows ds u
  some_match-SomeAllows [] u h = ground arith
  some_match-SomeAllows (d ∷ ds) u h = elim (Bool-cases (matches_domain (origin_of u) d)) [
    | inl e ↦ inl (matches_domain-Allows d u e)
    | inr e ↦ inr (some_match-SomeAllows ds u (ground (arith, e, h)))
  ]

  truthy_same : (t : String) {given : String} → truthy (some t) ≡ some given → given ≡ t
  truthy_same String.[] h = ground arith
  truthy_same (String.◌∷◌ c t) h = sym (some_inj.0 h)

  whitelisted :
      (u : Url) (domains : Option (List String))
      → check_whitelist u domains ≡ ok tt
      → (ds : List String) × (domains ≡ some ds) × SomeAllows ds u
  unfolding check_whitelist
  whitelisted u none h = ground arith
  whitelisted u (some []) h = ground arith
  whitelisted u (some (d ∷ ds)) h = elim (Bool-cases (some_match (origin_of u) (d ∷ ds))) [
    | inl e ↦ (d ∷ ds, refl, some_match-SomeAllows (d ∷ ds) u e)
    | inr e ↦ ground (arith, e, h)
  ]

  -- An address that is accepted outside development parses, uses HTTPS, and is allowed by one of
  -- the patterns that are configured.
  pub validate-SomeAllows :
      (uri : String) (domains : Option (List String))
      → validate uri domains false ≡ ok tt
      → (u : Url) × (ds : List String) × (parse uri ≡ some u)
        × (domains ≡ some ds)
        × (u.protocol ≡ "https:")
        × SomeAllows ds u
  unfolding validate
  validate-SomeAllows uri domains h = elim (Option-cases (truthy (some uri))) [
    | inl e ↦ ground (arith, e, h)
    | inr (given, e) ↦ elim (Option-cases (parse given)) [
      | inl f ↦ ground (arith, e, f, h)
      | inr (u, f) ↦ elim (Bool-cases (str_eq u.protocol "https:")) [
        | inr g ↦ ground (arith, e, f, g, h)
        | inl g ↦
            let (ds, listed, allowed) = whitelisted u domains (ground (arith, e, f, g, h)) in
            (
              u,
              ds,
              ap parse (sym (truthy_same uri e)) ∙ f,
              listed,
              (eq_iff u.protocol "https:").0 g,
              allowed,
            )
      ]
    ]
  ]
