-- ===== src/Auth/Service.antt =====
-- AuthService (modules/auth/auth.service.ts). The codes and tokens that `crypto` makes and the
-- signature of an access token are arguments. Sending the mail of a link changes nothing here.
use Prim.Native.String.{◌++◌ as append}
use common_api.Base.{
  ℕ, ◌+◌, ◌*◌, String, Bool, false, not, ◌&&◌, Option, some, none, ltb, str_eq, if◌then◌else◌,
  truthy, or_default,
}
use common_api.Exceptions.{Exception, not_found, unauthorized}
use common_api.Action.{
  Result, ok, err, Action, pure, gets, lift, or_throw, ◌>>=◌, ◌>>◌, throw_if, modify_state,
}
use common_api.Auth.Entities.{
  UserRole, OauthProfile, kakao, google, UserProfile, User, MagicLinkToken, OauthProvider, Accounts,
}
use common_api.Auth.Profiles.{
  extract_kakao_email, extract_google_email, extract_oauth_user_id, build_profile_from_oauth,
  build_provider_profile,
}
use common_api.Auth.Repository.{
  Library, find_user, find_by_email, create_user, update_user_profile, soft_delete, create_link,
  create_oauth_code, find_by_token, find_oauth_code_by_hash, find_by_email_and_code, mark_as_used,
  create_session, find_valid_token, revoke, revoke_all_for_user, find_by_app_provider_and_user_id,
  create_provider,
}

-- What `jwtService.sign` is given.
pub record Payload : Type 0 where
  pub sub : ℕ
  pub email : String
  pub app_id : String
  pub role : UserRole

-- `{ access_token, refresh_token, user }`
pub record Tokens : Type 0 where
  pub access_token : String
  pub refresh_token : String
  pub signed_in : User

-- `{ code, redirect_uri }` or the tokens.
pub data CallbackResult : Type 0 where
  with_code : String → String → CallbackResult
  with_tokens : Tokens → CallbackResult

pub record AuthPlatform : Type 0 where
  pub library : Library
  pub sign : ℕ → Payload → String
  pub number_text : ℕ → String
  pub trim : String → String
  pub is_production : Bool

-- DEFAULT_APP_ID
abbrev pub default_app_id : String
default_app_id = "eb3fcbb2-7bb3-4ac7-aa38-1cb4bf00e405"

abbrev pub minutes : ℕ → ℕ
minutes n = n * 60_000

abbrev pub days : ℕ → ℕ
days n = n * 86_400_000

abbrev pub payload_of : User → Payload
payload_of u = record { sub = u.id; email = u.email; app_id = u.app_id; role = u.role }

-- `new Date() > expiresAt`
abbrev pub has_expired : ℕ → Accounts → Bool
has_expired expires_at s = ltb expires_at s.now

module _ (p : AuthPlatform) where
  -- generateTokens
  unfoldable pub generate_tokens : User → String → Action Accounts Tokens
  generate_tokens u token = do
    now ← gets (λ (s : Accounts). s.now)
    _ ← create_session p.library u.id token (now + days 30)
    pure (record { access_token = p.sign now (payload_of u); refresh_token = token; signed_in = u })

  -- findOrCreateUser
  unfoldable pub find_or_create_user : String → String → Action Accounts User
  find_or_create_user app_id email s = elim (find_by_email p.library app_id email s) [
    | some u ↦ (ok u, s)
    | none ↦ create_user p.library app_id email none s
  ]

  -- _requestMagicLink, for the code that is generated; the result is the code that is shown
  -- outside of production.
  unfoldable pub request_magic_link :
      String → String → Option String → String → Action Accounts (Option String)
  request_magic_link app_id email redirect_url code = do
    now ← gets (λ (s : Accounts). s.now)
    _ ← create_link p.library app_id email code redirect_url (now + minutes 15)
    pure (if p.is_production then none else some code)

  -- Marks a link and signs in its user.
  abbrev pub redeem : MagicLinkToken → Action Accounts User → String → Action Accounts Tokens
  redeem t find_account token = do
    modify_state (mark_as_used p.library t.id)
    u ← find_account
    generate_tokens u token

  -- verifyMagicLinkByToken
  unfoldable pub verify_magic_link_by_token : String → String → Action Accounts Tokens
  verify_magic_link_by_token link token = do
    found ← gets (find_by_token p.library link)
    t ← lift (or_throw found (unauthorized "Invalid or expired magic link token"))
    expired ← gets (has_expired t.expires_at)
    throw_if expired (unauthorized "Magic link has expired")
    redeem t (find_or_create_user t.app_id t.email) token

  -- verifyMagicLinkByCode
  unfoldable pub verify_magic_link_by_code :
      String → String → String → String → Action Accounts Tokens
  verify_magic_link_by_code app_id email code token = do
    found ← gets (find_by_email_and_code p.library app_id email code)
    t ← lift (or_throw found (unauthorized "Invalid or expired verification code"))
    expired ← gets (has_expired t.expires_at)
    throw_if expired (unauthorized "Verification code has expired")
    redeem t (find_or_create_user app_id email) token

  -- `tokenEntity.redirectUrl !== redirectUri`, where both are asked for.
  unfoldable pub redirect_differs : MagicLinkToken → Option String → Bool
  redirect_differs t redirect_uri = elim (truthy t.provider) [
    | none ↦ false
    | some provider ↦ elim (truthy redirect_uri) [
      | none ↦ false
      | some uri ↦
          not (str_eq provider "magic-link")
          && not (elim t.redirect_url [ none ↦ false | some stored ↦ str_eq stored uri ])
    ]
  ]

  abbrev pub require_user : ℕ → Exception → Action Accounts User
  require_user id e s = (or_throw (find_user id s) e, s)

  -- The account of a link or of a code.
  unfoldable pub account_of : MagicLinkToken → Action Accounts User
  account_of t = elim t.user_id [
    | some id ↦ require_user id (not_found "User not found")
    | none ↦ find_or_create_user t.app_id t.email
  ]

  -- verifyToken
  unfoldable pub verify_token : String → Option String → String → Action Accounts Tokens
  verify_token code redirect_uri token = do
    found ← gets (find_oauth_code_by_hash p.library code)
    t ← lift (or_throw found (unauthorized "Invalid or expired token"))
    expired ← gets (has_expired t.expires_at)
    throw_if expired (unauthorized "Token has expired")
    throw_if t.is_used (unauthorized "Token already used")
    throw_if (redirect_differs t redirect_uri) (unauthorized "redirect_uri does not match")
    redeem t (account_of t) token

  -- refreshAccessToken
  unfoldable pub refresh_access_token : String → Action Accounts String
  refresh_access_token token = do
    found ← gets (find_valid_token p.library token)
    t ← lift (or_throw found (unauthorized "Invalid refresh token"))
    expired ← gets (has_expired t.expires_at)
    throw_if expired (unauthorized "Refresh token has expired")
    u ← require_user t.user_id (unauthorized "User not found")
    now ← gets (λ (s : Accounts). s.now)
    pure (p.sign now (payload_of u))

  -- _logout
  unfoldable pub logout : String → Action Accounts (Unit {0})
  logout token = modify_state (revoke p.library token)

  -- getCurrentUser
  unfoldable pub get_current_user : ℕ → Action Accounts User
  get_current_user id = require_user id (not_found "User not found")

  -- updateProfile
  unfoldable pub update_profile : ℕ → UserProfile → Action Accounts (Option User)
  update_profile id profile = do
    _ ← require_user id (not_found "User not found")
    λ s. let (found, s') = update_user_profile p.library id profile s in (ok found, s')

  -- deleteAccount
  unfoldable pub delete_account : ℕ → Action Accounts (Unit {0})
  delete_account id = do
    _ ← require_user id (not_found "User not found")
    modify_state (soft_delete p.library id)
    modify_state (revoke_all_for_user p.library id)

  -- extractEmailFromProfile
  unfoldable pub extract_email_from_profile : OauthProfile → Result String
  extract_email_from_profile (kakao k) =
      ok (
        or_default (truthy (extract_kakao_email k)) (append (p.number_text k.json.id) "@kakao.com"))
  extract_email_from_profile (google g) =
      or_throw (truthy (extract_google_email g))
        (unauthorized "Email not provided by OAuth provider")

  -- findLinkedOAuthUser
  unfoldable pub find_linked_oauth_user : String → String → String → Action Accounts (Option User)
  find_linked_oauth_user app_id provider provider_user_id s =
      elim (find_by_app_provider_and_user_id p.library app_id provider provider_user_id s) [
        | none ↦ (ok none, s)
        | some link ↦ elim (find_user link.user_id s) [
          | none ↦ (err (unauthorized "User not found"), s)
          | some u ↦ (ok (some u), s)
        ]
      ]

  -- findOrCreateOAuthUser
  unfoldable pub find_or_create_oauth_user : String → String → OauthProfile → Action Accounts User
  find_or_create_oauth_user app_id email profile s = elim (find_by_email p.library app_id email s) [
    | some u ↦ (ok u, s)
    | none ↦ create_user p.library app_id email (some (build_profile_from_oauth p.trim profile)) s
  ]

  -- linkOAuthProvider
  unfoldable pub link_oauth_provider :
      String → ℕ → String → String → String → OauthProfile → Action Accounts OauthProvider
  link_oauth_provider app_id user_id provider provider_user_id email profile =
      create_provider p.library app_id user_id provider provider_user_id email
        (build_provider_profile profile)

  -- The end of validateOAuthUser, for an account that is to be linked.
  unfoldable pub link_account :
      String → String → String → String → OauthProfile → User → Action Accounts User
  link_account app_id provider provider_user_id email profile u = do
    _ ← link_oauth_provider app_id u.id provider provider_user_id email profile
    pure u

  -- validateOAuthUser after its search for a link.
  unfoldable pub linked_or_new :
      String → String → String → OauthProfile → String → Option User → Action Accounts User
  linked_or_new app_id provider provider_user_id profile email (some u) = pure u
  linked_or_new app_id provider provider_user_id profile email none =
      find_or_create_oauth_user app_id email profile
      >>= link_account app_id provider provider_user_id email profile

  unfoldable pub find_or_link :
      String → String → String → OauthProfile → String → Action Accounts User
  find_or_link app_id provider provider_user_id profile email =
      find_linked_oauth_user app_id provider provider_user_id
      >>= linked_or_new app_id provider provider_user_id profile email

  -- validateOAuthUser
  unfoldable pub validate_oauth_user : String → OauthProfile → Option String → Action Accounts User
  validate_oauth_user provider profile app_id =
      lift (extract_email_from_profile profile)
      >>= find_or_link (or_default app_id default_app_id) provider
          (extract_oauth_user_id p.number_text profile) profile

  -- generateOAuthCode, for the code that is generated.
  unfoldable pub generate_oauth_code :
      ℕ → String → String → String → String → Action Accounts String
  generate_oauth_code user_id app_id redirect_uri provider code = do
    now ← gets (λ (s : Accounts). s.now)
    create_oauth_code p.library user_id app_id redirect_uri provider (now + minutes 5) code

  -- oauthCallback; `fresh` is the code or the refresh token that is generated.
  unfoldable pub oauth_callback :
      String → User → String → Option String → String → Action Accounts CallbackResult
  oauth_callback provider u app_id redirect_uri fresh = elim (truthy redirect_uri) [
    | some uri ↦ do
      code ← generate_oauth_code u.id app_id uri provider fresh
      pure (with_code code uri)
    | none ↦ do tokens ← generate_tokens u fresh; pure (with_tokens tokens)
  ]
