-- ===== src/Auth/Links.antt =====
-- Each link and each code signs in at most once (modules/auth/auth.service.ts): histories of the
-- methods, with the links that they have used up.
use mathlib.Core.Path.{subst}
use common_api.Base.{
  ℕ, ◌+◌, ◌≤◌, ◌<◌, ◌≡◌, refl, ◌∙◌, Bool, true, not, List, [], ◌∷◌, ◌++◌, Option, some, none,
  String, ◌==◌, if◌then◌else◌, inl, inr, Bool-cases, Option-cases, All, or_default, select, ltb,
  arith,
}
use common_api.Base.Table.{modify}
use common_api.Action.{Result-cases, Action, ◌>>=◌, lift}
use common_api.Auth.Entities.{User, MagicLinkToken, Accounts, OauthProfile, UserProfile}
use common_api.Auth.Profiles.{build_profile_from_oauth, extract_oauth_user_id}
use common_api.Auth.Repository.{
  find_last, find_first, link_key, has_hash, set_used, create_user, create_session, create_provider,
  revoke, update_user_profile, soft_delete, revoke_all_for_user, insert_link, create_link, link_of,
  create_oauth_code, oauth_code_of, mark_as_used, delete_expired_links,
}
use common_api.Auth.Service.{
  find_or_create_oauth_user, link_oauth_provider, find_linked_oauth_user, link_account,
  linked_or_new, find_or_link, validate_oauth_user, refresh_access_token, logout, update_profile,
  delete_account, request_magic_link, generate_oauth_code, redeem, minutes,
  extract_email_from_profile, default_app_id, AuthPlatform, find_or_create_user, account_of,
  generate_tokens, days,
}

-- A row is no open link of a number that has been used up.
abbrev pub UsedIf : ℕ → MagicLinkToken → Type 0
UsedIf k t = (if t.id == k then t.is_used else true) ≡ true

-- A number that has been handed out, and of which every link is used.
pub record IsSpent (s : Accounts) (k : ℕ) : Type 0 where
  pub handed_out : k < s.next_id
  pub all_used : All (UsedIf k) s.links

pub find_last-All {ℓ} :
    {A : Type 0} (P : A → Type ℓ) (p : A → Bool) (rows : List A) {a : A}
    → All P rows
    → find_last p rows ≡ some a
    → P a × (p a ≡ true)
find_last-All P p [] h e = ground arith
find_last-All P p (r ∷ rows) {a = a} h e = elim (Option-cases (find_last p rows)) [
  | inl none_later ↦ elim (Bool-cases (p r)) [
    | inl met ↦
        let same : r ≡ a = ground (arith, none_later, met, e) in
        (subst P same h.0, subst (λ x. p x ≡ true) same met)
    | inr unmet ↦ ground (arith, none_later, unmet, e)
  ]
  | inr (x, later) ↦ find_last-All P p rows h.1 (ground (arith, later, e))
]

-- The links as they were.
abbrev pub KeepsLinks : Accounts → Accounts → Type 0
KeepsLinks s s' = (s'.links ≡ s.links) × (s.next_id ≤ s'.next_id)

abbrev pub Calm : {A : Type 0} → Action Accounts A → Type 0
Calm m = (s : Accounts) → KeepsLinks s (m s).1

KeepsLinks-trans : (s t u : Accounts) → KeepsLinks s t → KeepsLinks t u → KeepsLinks s u
KeepsLinks-trans s t u h k = (k.0 ∙ h.0, omega (arith, h.1, k.1))

Calm-bind :
    {A B : Type 0} (m : Action Accounts A) (f : A → Action Accounts B)
    → Calm m
    → ((a : A) → Calm (f a))
    → Calm (m >>= f)
Calm-bind m f hm hf s = elim (Result-cases (m s).0) [
  | inl (a, e) ↦
      let (links, ids) = hm s in
      let (links', ids') = hf a (m s).1 in ground (arith, e, links, ids, links', ids')
  | inr (x, e) ↦ ground (arith, e, hm s)
]

module _ (p : AuthPlatform) where
  create_user-Calm :
      (app_id email : String) (profile : Option UserProfile)
      → Calm (create_user p.library app_id email profile)
  unfolding create_user
  create_user-Calm app_id email profile s = ground arith

  create_session-Calm :
      (id : ℕ) (token : String) (at : ℕ) → Calm (create_session p.library id token at)
  unfolding create_session
  create_session-Calm id token at s = ground arith

  pub find_or_create_user-Calm : (app_id email : String) → Calm (find_or_create_user p app_id email)
  unfolding find_or_create_user
  find_or_create_user-Calm app_id email s = ground (arith, create_user-Calm app_id email none s)

  pub account_of-Calm : (t : MagicLinkToken) → Calm (account_of p t)
  unfolding account_of
  account_of-Calm t s = ground (arith, find_or_create_user-Calm t.app_id t.email s)

  pub generate_tokens-Calm : (u : User) (token : String) → Calm (generate_tokens p u token)
  unfolding generate_tokens
  generate_tokens-Calm u token s =
      ground (arith, create_session-Calm u.id token (s.now + days 30) s)

  find_or_create_oauth_user-Calm :
      (app_id email : String) (profile : OauthProfile)
      → Calm (find_or_create_oauth_user p app_id email profile)
  unfolding find_or_create_oauth_user
  find_or_create_oauth_user-Calm app_id email profile s =
      ground
        (arith, create_user-Calm app_id email (some (build_profile_from_oauth p.trim profile)) s)

  create_provider-Calm :
      (app_id : String) (id : ℕ) (provider provider_user_id email : String) (profile : OauthProfile)
      → Calm (link_oauth_provider p app_id id provider provider_user_id email profile)
  unfolding link_oauth_provider create_provider
  create_provider-Calm app_id id provider provider_user_id email profile s = ground arith

  find_linked_oauth_user-Calm :
      (app_id provider id : String) → Calm (find_linked_oauth_user p app_id provider id)
  unfolding find_linked_oauth_user
  find_linked_oauth_user-Calm app_id provider id s = ground arith

  link_account-Calm :
      (app_id provider id email : String) (profile : OauthProfile) (u : User)
      → Calm (link_account p app_id provider id email profile u)
  unfolding link_account
  link_account-Calm app_id provider id email profile u s =
      ground (arith, create_provider-Calm app_id u.id provider id email profile s)

  linked_or_new-Calm :
      (app_id provider id : String) (profile : OauthProfile) (email : String) (found : Option User)
      → Calm (linked_or_new p app_id provider id profile email found)
  unfolding linked_or_new
  linked_or_new-Calm app_id provider id profile email (some u) s = (refl, omega arith)
  linked_or_new-Calm app_id provider id profile email none s =
      Calm-bind (find_or_create_oauth_user p app_id email profile)
        (link_account p app_id provider id email profile)
        (find_or_create_oauth_user-Calm app_id email profile)
        (link_account-Calm app_id provider id email profile) s

  find_or_link-Calm :
      (app_id provider id : String) (profile : OauthProfile) (email : String)
      → Calm (find_or_link p app_id provider id profile email)
  unfolding find_or_link
  find_or_link-Calm app_id provider id profile email =
      Calm-bind (find_linked_oauth_user p app_id provider id)
        (linked_or_new p app_id provider id profile email)
        (find_linked_oauth_user-Calm app_id provider id)
        (linked_or_new-Calm app_id provider id profile email)

  pub validate_oauth_user-Calm :
      (provider : String) (profile : OauthProfile) (app_id : Option String)
      → Calm (validate_oauth_user p provider profile app_id)
  unfolding validate_oauth_user
  validate_oauth_user-Calm provider profile app_id =
      let app = or_default app_id default_app_id in
      let id = extract_oauth_user_id p.number_text profile in
      Calm-bind (lift (extract_email_from_profile p profile))
        (find_or_link p app provider id profile) (λ s. (refl, omega arith))
        (find_or_link-Calm app provider id profile)

  pub refresh_access_token-Calm : (token : String) → Calm (refresh_access_token p token)
  unfolding refresh_access_token
  refresh_access_token-Calm token s = ground arith

  pub logout-Calm : (token : String) → Calm (logout p token)
  unfolding logout revoke
  logout-Calm token s = (refl, omega arith)

  pub update_profile-Calm : (id : ℕ) (profile : UserProfile) → Calm (update_profile p id profile)
  unfolding update_profile update_user_profile
  update_profile-Calm id profile s = ground arith

  pub delete_account-Calm : (id : ℕ) → Calm (delete_account p id)
  unfolding delete_account soft_delete revoke_all_for_user
  delete_account-Calm id s = ground arith

  -- What a call may do to the links.
  pub data LinksEffect (s : Accounts) : Accounts → Type 0 where
    calm : {s' : Accounts} → KeepsLinks s s' → LinksEffect s s'
    inserted :
        {s' : Accounts} (t : MagicLinkToken)
        → t.id ≡ s.next_id
        → s'.links ≡ s.links ++ t ∷ []
        → s.next_id < s'.next_id
        → LinksEffect s s'
    marked :
        {s' : Accounts} (k now : ℕ)
        → s'.links ≡ modify link_key k (set_used p.library now) s.links
        → s.next_id ≤ s'.next_id
        → LinksEffect s s'
    dropped :
        {s' : Accounts} (keep : MagicLinkToken → Bool)
        → s'.links ≡ select keep s.links
        → s.next_id ≤ s'.next_id
        → LinksEffect s s'

  insert_link-Effect :
      (t : MagicLinkToken) (s : Accounts)
      → t.id ≡ s.next_id
      → LinksEffect s (insert_link p.library t s).1
  unfolding insert_link
  insert_link-Effect t s e =
      elim (Option-cases (find_first (has_hash p.library t.token_hash) s.links)) [
        | inr (x, taken) ↦ LinksEffect.calm (ground (arith, taken))
        | inl free ↦ LinksEffect.inserted t e (ground (arith, free)) (ground (arith, free))
      ]

  pub request_magic_link-Effect :
      (app_id email : String) (redirect_url : Option String) (code : String) (s : Accounts)
      → LinksEffect s (request_magic_link p app_id email redirect_url code s).1
  unfolding request_magic_link create_link link_of
  request_magic_link-Effect app_id email redirect_url code s =
      let t = link_of p.library app_id email code redirect_url (s.now + minutes 15) s in
      subst (LinksEffect s) (ground arith) (insert_link-Effect t s refl)

  pub generate_oauth_code-Effect :
      (id : ℕ) (app_id redirect_uri provider code : String) (s : Accounts)
      → LinksEffect s (generate_oauth_code p id app_id redirect_uri provider code s).1
  unfolding generate_oauth_code create_oauth_code oauth_code_of
  generate_oauth_code-Effect id app_id redirect_uri provider code s =
      insert_link-Effect
        (oauth_code_of p.library id app_id redirect_uri provider (s.now + minutes 5) code s) s refl

  pub redeem_marks :
      (t : MagicLinkToken) (find_account : Action Accounts User) (token : String) (s : Accounts)
      → Calm find_account
      → let s' = (redeem p t find_account token s).1 in
        (s'.links ≡ modify link_key t.id (set_used p.library s.now) s.links)
        × (s.next_id ≤ s'.next_id)
  unfolding mark_as_used
  redeem_marks t find_account token s h =
      Calm-bind find_account (λ u. generate_tokens p u token) h (λ u. generate_tokens-Calm u token)
        (mark_as_used p.library t.id s)

  pub delete_expired_links-Effect :
      (s : Accounts) → LinksEffect s (delete_expired_links p.library s).1
  unfolding delete_expired_links
  delete_expired_links-Effect s =
      LinksEffect.dropped (λ t. not (ltb t.expires_at s.now)) refl (omega arith)
