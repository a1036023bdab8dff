-- ===== src/Auth/Linking.antt =====
-- Signing in through an OAuth provider, and with its codes (modules/auth/auth.service.ts).
use mathlib.Core.Path.{subst}
use common_api.Base.{
  ℕ, ◌≡◌, refl, ◌∙◌, sym, ap, Bool, true, false, List, [], ◌∷◌, ◌++◌, Option, some, none, String,
  inl, inr, Bool-cases, Option-cases, str_eq, truthy, or_default, All, eq_iff, arith,
}
use common_api.Base.Table.{find?, Distinct, Below, find?_self, find?-append_new, Below-absent}
use common_api.Exceptions.{Exception, unauthorized}
use common_api.Action.{Result, ok, err, Result-cases}
use common_api.Auth.Entities.{User, MagicLinkToken, OauthProvider, OauthProfile, Accounts}
use common_api.Auth.Profiles.{
  extract_oauth_user_id, build_provider_profile, build_profile_from_oauth,
}
use common_api.Auth.Repository.{
  find_first, user_key, has_email, is_link, user_of, provider_of, is_taken, find_user,
  find_by_email, create_user, create_provider, find_by_app_provider_and_user_id,
  find_oauth_code_by_hash,
}
use common_api.Auth.Service.{
  AuthPlatform, extract_email_from_profile, find_linked_oauth_user, find_or_create_oauth_user,
  link_oauth_provider, link_account, linked_or_new, find_or_link, validate_oauth_user,
  default_app_id, verify_token, redirect_differs, redeem, account_of, has_expired,
}

find_first-All {ℓ} :
    {A : Type 0} (P : A → Type ℓ) (q : A → Bool) (rows : List A) {a : A}
    → All P rows
    → find_first q rows ≡ some a
    → P a
find_first-All P q [] h e = ground arith
find_first-All P q (r ∷ rows) {a = a} h e = elim (Bool-cases (q r)) [
  | inl met ↦ let same : r ≡ a = ground (arith, met, e) in subst P same h.0
  | inr unmet ↦ find_first-All P q rows h.1 (ground (arith, unmet, e))
]

find_first-append :
    {A : Type 0} (q : A → Bool) (rows : List A) (a : A)
    → find_first q rows ≡ none
    → q a ≡ true
    → find_first q (rows ++ a ∷ []) ≡ some a
find_first-append q [] a h e = ground (arith, e)
find_first-append q (r ∷ rows) a h e = elim (Bool-cases (q r)) [
  | inl met ↦ ground (arith, met, h)
  | inr unmet ↦ ground (arith, unmet, h, find_first-append q rows a (ground (arith, unmet, h)) e)
]

ok_some : {A : Type 0} {a b : A} → ok a ≡ ok b → some a ≡ some b
ok_some {a = a} h = ap (λ r. elim r [ ok x ↦ some x | err _ ↦ some a ]) h

module _ (p : AuthPlatform) where
  -- A code of an OAuth provider that is open and has not expired is refused, and nothing changes,
  -- when it comes with another address than it was made for; when it comes with none, the address
  -- is not looked at and the code is redeemed.
  verify_token-redirect_differs :
      (code uri provider token : String) (s : Accounts) {t : MagicLinkToken} {stored : String}
      → find_oauth_code_by_hash p.library code s ≡ some t
      → has_expired t.expires_at s ≡ false
      → t.is_used ≡ false
      → truthy t.provider ≡ some provider
      → str_eq provider "magic-link" ≡ false
      → t.redirect_url ≡ some stored
      → truthy (some uri) ≡ some uri
      → str_eq stored uri ≡ false
      → (verify_token p code (some uri) token s
          ≡ (err (unauthorized "redirect_uri does not match"), s))
        × (verify_token p code none token s ≡ redeem p t (account_of p t) token s)
  unfolding verify_token redirect_differs
  verify_token-redirect_differs code uri provider token s found fresh unused by_provider no_link
        made_for given other =
      (
        ground (arith, found, fresh, unused, by_provider, no_link, made_for, given, other),
        ground (arith, found, fresh, unused, by_provider),
      )

  -- The accounts carry distinct numbers that have been handed out.
  pub record HasUsers (s : Accounts) : Type 0 where
    pub distinct : Distinct user_key s.users
    pub below : Below user_key s.next_id s.users

  find_or_create_oauth_user-found :
      (app_id email : String) (profile : OauthProfile) (s : Accounts) {u : User} {s1 : Accounts}
      → HasUsers s
      → find_or_create_oauth_user p app_id email profile s ≡ (ok u, s1)
      → (find_user u.id s1 ≡ some u) × (s1.providers ≡ s.providers)
  unfolding find_or_create_oauth_user create_user find_user find_by_email
  find_or_create_oauth_user-found app_id email profile s {u = u} {s1 = s1} valid h =
      elim (Option-cases (find_first (has_email p.library app_id email) s.users)) [
        | inr (v, e) ↦
            let here : find? user_key v.id s.users ≡ some v =
              find_first-All (λ (r : User). find? user_key r.id s.users ≡ some r)
                (has_email p.library app_id email) s.users
                (find?_self user_key s.users valid.distinct) e in
            ground (arith, e, h, here)
        | inl e ↦ ground (
          arith,
          e,
          h,
          find?-append_new user_key s.next_id s.users
              (user_of p.library app_id email (some (build_profile_from_oauth p.trim profile)) s),
          Below-absent user_key s.next_id s.users valid.below,
        )
      ]

  -- The provider's link is found where it was added.
  link_oauth_provider-found :
      (app_id : String) (id : ℕ) (provider provider_user_id email : String) (profile : OauthProfile)
      (s : Accounts) {q : OauthProvider} {s1 : Accounts}
      → find_by_app_provider_and_user_id p.library app_id provider provider_user_id s ≡ none
      → link_oauth_provider p app_id id provider provider_user_id email profile s ≡ (ok q, s1)
      → (find_by_app_provider_and_user_id p.library app_id provider provider_user_id s1 ≡ some q)
        × (q.user_id ≡ id)
        × (s1.users ≡ s.users)
  unfolding link_oauth_provider create_provider find_by_app_provider_and_user_id
  link_oauth_provider-found app_id id provider provider_user_id email profile s {q = q} {s1 = s1}
        absent h =
      let row =
        provider_of p.library app_id id provider provider_user_id email
          (build_provider_profile profile) s in
      elim (Bool-cases (is_taken p.library app_id id provider provider_user_id s)) [
        | inl taken ↦ ground (arith, h, taken)
        | inr free ↦ ground (
          arith,
          h,
          free,
          find_first-append (is_link p.library app_id provider provider_user_id) s.providers row
              absent
              (ground (
                arith,
                (eq_iff app_id app_id).1 refl,
                (eq_iff provider provider).1 refl,
                (eq_iff provider_user_id provider_user_id).1 refl,
              )),
        )
      ]

  -- An account that is linked is signed in, and nothing changes.
  linked_again :
      (provider : String) (profile : OauthProfile) (app_id : Option String) (email : String)
      (s : Accounts) {link : OauthProvider} {u : User}
      → extract_email_from_profile p profile ≡ ok email
      → find_by_app_provider_and_user_id p.library
          (or_default app_id default_app_id)
          provider
          (extract_oauth_user_id p.number_text profile)
          s
        ≡ some link
      → find_user link.user_id s ≡ some u
      → validate_oauth_user p provider profile app_id s ≡ (ok u, s)
  unfolding validate_oauth_user find_or_link find_linked_oauth_user linked_or_new
  linked_again provider profile app_id email s e found here = ground (arith, e, found, here)

  same_providers :
      (app_id provider id : String) (s t : Accounts)
      → t.providers ≡ s.providers
      → find_by_app_provider_and_user_id p.library app_id provider id t
        ≡ find_by_app_provider_and_user_id p.library app_id provider id s
  unfolding find_by_app_provider_and_user_id
  same_providers app_id provider id s t e = ap (find_first (is_link p.library app_id provider id)) e

  same_users : (id : ℕ) (s t : Accounts) → t.users ≡ s.users → find_user id t ≡ find_user id s
  unfolding find_user
  same_users id s t e = ap (find? user_key id) e

  -- A first sign-in that finds no link makes the account and the link.
  linked_first :
      (provider : String) (profile : OauthProfile) (app_id : Option String) (email : String)
      (s : Accounts) {u : User} {s' : Accounts}
      → HasUsers s
      → extract_email_from_profile p profile ≡ ok email
      → find_by_app_provider_and_user_id p.library
          (or_default app_id default_app_id)
          provider
          (extract_oauth_user_id p.number_text profile)
          s
        ≡ none
      → validate_oauth_user p provider profile app_id s ≡ (ok u, s')
      → (q : OauthProvider) × (find_by_app_provider_and_user_id p.library
            (or_default app_id default_app_id)
            provider
            (extract_oauth_user_id p.number_text profile)
            s'
          ≡ some q)
        × (find_user q.user_id s' ≡ some u)
  unfolding validate_oauth_user find_or_link find_linked_oauth_user linked_or_new link_account
  linked_first provider profile app_id email s {u = u} {s' = s'} valid e absent h =
      let app = or_default app_id default_app_id in
      let id = extract_oauth_user_id p.number_text profile in
      let s1 = (find_or_create_oauth_user p app email profile s).1 in
      elim (Result-cases (find_or_create_oauth_user p app email profile s).0) [
        | inr (x, failed) ↦ ground (arith, e, absent, h, failed)
        | inl (v, made) ↦
            let s2 = (link_oauth_provider p app v.id provider id email profile s1).1 in
            elim (Result-cases (link_oauth_provider p app v.id provider id email profile s1).0) [
              | inr (x, failed) ↦ ground (arith, e, absent, h, made, failed)
              | inl (q, linked) ↦
                  let (known, kept) =
                    find_or_create_oauth_user-found app email profile s valid
                      (ap (λ r. (r, s1)) made) in
                  let (found, owner, users) =
                    link_oauth_provider-found app v.id provider id email profile s1
                      (same_providers app provider id s s1 kept ∙ absent)
                      (ap (λ r. (r, s2)) linked) in
                  let here : find_user q.user_id s2 ≡ some v =
                    ap (λ k. find_user k s2) owner ∙ same_users v.id s1 s2 users ∙ known in
                  let run : validate_oauth_user p provider profile app_id s ≡ (ok v, s2) =
                    ground (arith, e, absent, made, linked) in
                  let ends : s2 ≡ s' = ap (λ r. r.1) (sym run ∙ h) in
                  let same : some v ≡ some u = ok_some (ap (λ r. r.0) (sym run ∙ h)) in
                  (
                    q,
                    subst
                        (λ t. find_by_app_provider_and_user_id p.library app provider id t ≡ some q)
                        ends found,
                    subst (λ t. find_user q.user_id t ≡ some u) ends (here ∙ same),
                  )
            ]
      ]

  refused_without_email :
      {B : Type 0} (provider : String) (profile : OauthProfile) (app_id : Option String)
      (s : Accounts) {x : Exception} {u : User} {s' : Accounts}
      → extract_email_from_profile p profile ≡ err x
      → validate_oauth_user p provider profile app_id s ≡ (ok u, s')
      → B
  unfolding validate_oauth_user
  refused_without_email provider profile app_id s e h = ground (arith, e, h)

  refused_without_user :
      {B : Type 0} (provider : String) (profile : OauthProfile) (app_id : Option String)
      (email : String) (s : Accounts) {q : OauthProvider} {u : User} {s' : Accounts}
      → extract_email_from_profile p profile ≡ ok email
      → find_by_app_provider_and_user_id p.library
          (or_default app_id default_app_id)
          provider
          (extract_oauth_user_id p.number_text profile)
          s
        ≡ some q
      → find_user q.user_id s ≡ none
      → validate_oauth_user p provider profile app_id s ≡ (ok u, s')
      → B
  unfolding validate_oauth_user find_or_link find_linked_oauth_user
  refused_without_user provider profile app_id email s e found nobody h =
      ground (arith, e, found, nobody, h)

  -- Signing in again with the same profile gives the account of the first time, and changes
  -- nothing.
  pub validate_oauth_user-again :
      (provider : String) (profile : OauthProfile) (app_id : Option String) (s : Accounts)
      {u : User} {s' : Accounts}
      → HasUsers s
      → validate_oauth_user p provider profile app_id s ≡ (ok u, s')
      → validate_oauth_user p provider profile app_id s' ≡ (ok u, s')
  validate_oauth_user-again provider profile app_id s {u = u} {s' = s'} valid h =
      let app = or_default app_id default_app_id in
      let id = extract_oauth_user_id p.number_text profile in
      elim (Result-cases (extract_email_from_profile p profile)) [
        | inr (x, no_email) ↦ refused_without_email provider profile app_id s no_email h
        | inl (email, e) ↦
            elim (Option-cases (find_by_app_provider_and_user_id p.library app provider id s)) [
              | inl absent ↦
                  let (q, found, here) =
                    linked_first provider profile app_id email s valid e absent h in
                  linked_again provider profile app_id email s' e found here
              | inr (q, found) ↦ elim (Option-cases (find_user q.user_id s)) [
                | inl nobody ↦ refused_without_user provider profile app_id email s e found nobody h
                | inr (v, here) ↦
                    let run = linked_again provider profile app_id email s e found here in
                    subst
                      (λ (r : Result User × Accounts).
                        validate_oauth_user p provider profile app_id r.1 ≡ r)
                      (sym run ∙ h) run
              ]
            ]
      ]
