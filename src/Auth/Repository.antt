-- ===== src/Auth/Repository.antt =====
-- The repositories of users, links, sessions and linked accounts
-- (modules/user/repositories/user.repository.ts, modules/auth/repositories). The hash SHA-256,
-- `toLowerCase` and what TypeORM makes of a `null` in a condition are arguments.
use common_api.Base.{
  ℕ, ◌+◌, String, Bool, true, false, not, ◌&&◌, List, [], ◌∷◌, ◌++◌, Option, some, none, is_some,
  ltb, ◌==◌, str_eq, if◌then◌else◌, truthy, or_else, ◌||◌, select, length, ◌-◌,
}
use common_api.Base.Table.{find?, modify}
use common_api.Exceptions.{plain_error}
use common_api.Action.{ok, err, Action}
use common_api.Auth.Entities.{
  active, deleted, user, UserProfile, ProviderProfile, User, MagicLinkToken, RefreshToken,
  OauthProvider, Accounts,
}

-- A `null` in a condition is left out of it, is `IS NULL`, or is `= NULL`, which no row meets.
pub data NullCriterion : Type 0 where
  ignored is_null never_met : NullCriterion

abbrev pub meets_null : {A : Type 0} → NullCriterion → Option A → Bool
meets_null ignored o = true
meets_null is_null o = not (is_some o)
meets_null never_met o = false

pub record Library : Type 0 where
  pub hash : String → String
  pub to_lower_case : String → String
  pub find_null : NullCriterion
  pub update_null : NullCriterion

abbrev pub user_key : User → ℕ
user_key u = u.id

abbrev pub link_key : MagicLinkToken → ℕ
link_key t = t.id

-- The first row that meets a condition.
abbrev pub find_first : {A : Type 0} → (A → Bool) → List A → Option A
find_first p [] = none
find_first p (a ∷ rows) = if p a then some a else find_first p rows

-- The last row that meets a condition. `createdAt: "DESC"` takes the newest, and rows stand in the
-- order of their making.
abbrev pub find_last : {A : Type 0} → (A → Bool) → List A → Option A
find_last p [] = none
find_last p (a ∷ rows) = or_else (find_last p rows) (if p a then some a else none)

abbrev pub duplicate_key : String
duplicate_key = "duplicate key value violates unique constraint"

-- UserRepository.findById
unfoldable pub find_user : ℕ → Accounts → Option User
find_user id s = find? user_key id s.users

-- RefreshTokenRepository, `update({ tokenHash }, …)` and `update({ userId, … }, …)`: every row
-- that meets a condition.
abbrev pub update_where : {A : Type 0} → (A → Bool) → (A → A) → List A → List A
update_where p f [] = []
update_where p f (a ∷ rows) = (if p a then f a else a) ∷ update_where p f rows

module _ (lib : Library) where
  abbrev pub has_email : String → String → User → Bool
  has_email app_id email u = str_eq u.app_id app_id && str_eq u.email (lib.to_lower_case email)

  -- UserRepository.findByEmail
  unfoldable pub find_by_email : String → String → Accounts → Option User
  find_by_email app_id email s = find_first (has_email app_id email) s.users

  abbrev pub user_of : String → String → Option UserProfile → Accounts → User
  user_of app_id email profile s = record {
    id = s.next_id;
    app_id = app_id;
    email = lib.to_lower_case email;
    status = active;
    profile = profile;
    role = user;
    created_at = s.now;
  }

  -- UserRepository.create, without a role; the unique index is on (appId, email).
  unfoldable pub create_user : String → String → Option UserProfile → Action Accounts User
  unfolding find_by_email
  create_user app_id email profile s = elim (find_by_email app_id email s) [
    | some _ ↦ (err (plain_error duplicate_key), s)
    | none ↦
        let u = user_of app_id email profile s in
        (ok u, record s { users = s.users ++ u ∷ []; next_id = s.next_id + 1 })
  ]

  abbrev pub set_profile : UserProfile → User → User
  set_profile profile u = record u { profile = some profile }

  -- UserRepository.updateProfile
  unfoldable pub update_user_profile : ℕ → UserProfile → Accounts → Option User × Accounts
  unfolding find_user
  update_user_profile id profile s =
      let s' = record s { users = modify user_key id (set_profile profile) s.users } in
      (find_user id s', s')

  abbrev pub set_deleted : User → User
  set_deleted u = record u { status = deleted }

  -- UserRepository.softDelete
  unfoldable pub soft_delete : ℕ → Accounts → Accounts
  soft_delete id s = record s { users = modify user_key id set_deleted s.users }

  abbrev pub has_hash : String → MagicLinkToken → Bool
  has_hash hash t = str_eq t.token_hash hash

  -- The unique index on `token_hash`.
  unfoldable pub insert_link : MagicLinkToken → Action Accounts MagicLinkToken
  insert_link t s = elim (find_first (has_hash t.token_hash) s.links) [
    | some _ ↦ (err (plain_error duplicate_key), s)
    | none ↦ (ok t, record s { links = s.links ++ t ∷ []; next_id = s.next_id + 1 })
  ]

  -- The row that MagicLinkTokenRepository.create saves; the column `provider` has a default.
  unfoldable pub link_of : String → String → String → Option String → ℕ → Accounts → MagicLinkToken
  link_of app_id email code redirect_url expires_at s = record {
    id = s.next_id;
    app_id = app_id;
    email = lib.to_lower_case email;
    token_hash = lib.hash code;
    verification_code = code;
    redirect_url = truthy redirect_url;
    expires_at = expires_at;
    is_used = false;
    used_at = none;
    provider = some "magic-link";
    user_id = none;
    created_at = s.now;
  }

  -- MagicLinkTokenRepository.create
  unfoldable pub create_link :
      String → String → String → Option String → ℕ → Action Accounts MagicLinkToken
  unfolding link_of insert_link
  create_link app_id email code redirect_url expires_at s =
      insert_link (link_of app_id email code redirect_url expires_at s) s

  -- The row that MagicLinkTokenRepository.createOAuthCode saves.
  unfoldable pub oauth_code_of :
      ℕ → String → String → String → ℕ → String → Accounts → MagicLinkToken
  oauth_code_of user_id app_id redirect_uri provider expires_at code s = record {
    id = s.next_id;
    app_id = app_id;
    email = "";
    token_hash = lib.hash code;
    verification_code = "";
    redirect_url = some redirect_uri;
    expires_at = expires_at;
    is_used = false;
    used_at = none;
    provider = some provider;
    user_id = some user_id;
    created_at = s.now;
  }

  -- MagicLinkTokenRepository.createOAuthCode, for the code that is generated.
  unfoldable pub create_oauth_code :
      ℕ → String → String → String → ℕ → String → Action Accounts String
  unfolding oauth_code_of insert_link
  create_oauth_code user_id app_id redirect_uri provider expires_at code s =
      let (r, s') =
        insert_link (oauth_code_of user_id app_id redirect_uri provider expires_at code s) s in
      (elim r [ ok _ ↦ ok code | err e ↦ err e ], s')

  abbrev pub is_open : String → MagicLinkToken → Bool
  is_open hash t = str_eq t.token_hash hash && not t.is_used

  -- MagicLinkTokenRepository.findByToken
  unfoldable pub find_by_token : String → Accounts → Option MagicLinkToken
  find_by_token token s = find_last (is_open (lib.hash token)) s.links

  -- MagicLinkTokenRepository.findOAuthCodeByHash
  unfoldable pub find_oauth_code_by_hash : String → Accounts → Option MagicLinkToken
  find_oauth_code_by_hash code s = find_last (is_open (lib.hash code)) s.links

  abbrev pub has_code : String → String → String → MagicLinkToken → Bool
  has_code app_id email code t =
      str_eq t.app_id app_id
      && str_eq t.email (lib.to_lower_case email)
      && str_eq t.verification_code code
      && not t.is_used

  -- MagicLinkTokenRepository.findByEmailAndCode
  unfoldable pub find_by_email_and_code :
      String → String → String → Accounts → Option MagicLinkToken
  find_by_email_and_code app_id email code s = find_last (has_code app_id email code) s.links

  abbrev pub set_used : ℕ → MagicLinkToken → MagicLinkToken
  set_used now t = record t { is_used = true; used_at = some now }

  -- MagicLinkTokenRepository.deleteExpired, and the count of the rows.
  unfoldable pub delete_expired_links : Accounts → ℕ × Accounts
  delete_expired_links s =
      let kept = select (λ (t : MagicLinkToken). not (ltb t.expires_at s.now)) s.links in
      (length s.links - length kept, record s { links = kept })

  -- MagicLinkTokenRepository.markAsUsed
  unfoldable pub mark_as_used : ℕ → Accounts → Accounts
  mark_as_used id s = record s { links = modify link_key id (set_used s.now) s.links }

  -- RefreshTokenRepository.create; the unique index is on `token_hash`.
  unfoldable pub create_session : ℕ → String → ℕ → Action Accounts RefreshToken
  create_session user_id token expires_at s =
      elim (find_first (λ (t : RefreshToken). str_eq t.token_hash (lib.hash token)) s.sessions) [
        | some _ ↦ (err (plain_error duplicate_key), s)
        | none ↦
            let t : RefreshToken = record {
              id = s.next_id;
              user_id = user_id;
              token_hash = lib.hash token;
              expires_at = expires_at;
              revoked_at = none;
            } in
            (ok t, record s { sessions = s.sessions ++ t ∷ []; next_id = s.next_id + 1 })
      ]

  abbrev pub is_valid_token : String → RefreshToken → Bool
  is_valid_token hash t = str_eq t.token_hash hash && meets_null lib.find_null t.revoked_at

  -- RefreshTokenRepository.findValidToken
  unfoldable pub find_valid_token : String → Accounts → Option RefreshToken
  find_valid_token token s = find_first (is_valid_token (lib.hash token)) s.sessions

  abbrev pub set_revoked : ℕ → RefreshToken → RefreshToken
  set_revoked now t = record t { revoked_at = some now }

  -- RefreshTokenRepository.revoke
  unfoldable pub revoke : String → Accounts → Accounts
  revoke token s = record s {
    sessions =
        update_where (λ t. str_eq t.token_hash (lib.hash token)) (set_revoked s.now) s.sessions;
  }

  -- RefreshTokenRepository.revokeAllForUser
  unfoldable pub revoke_all_for_user : ℕ → Accounts → Accounts
  revoke_all_for_user user_id s = record s {
    sessions =
        update_where (λ t. t.user_id == user_id && meets_null lib.update_null t.revoked_at)
          (set_revoked s.now) s.sessions;
  }

  abbrev pub is_link : String → String → String → OauthProvider → Bool
  is_link app_id provider provider_user_id p =
      str_eq p.app_id app_id
      && str_eq p.provider provider
      && str_eq p.provider_user_id provider_user_id

  -- OAuthProviderRepository.findByAppProviderAndUserId
  unfoldable pub find_by_app_provider_and_user_id :
      String → String → String → Accounts → Option OauthProvider
  find_by_app_provider_and_user_id app_id provider provider_user_id s =
      find_first (is_link app_id provider provider_user_id) s.providers

  abbrev pub provider_of :
      String → ℕ → String → String → String → ProviderProfile → Accounts → OauthProvider
  provider_of app_id user_id provider provider_user_id email profile s = record {
    id = s.next_id;
    app_id = app_id;
    user_id = user_id;
    provider = provider;
    provider_user_id = provider_user_id;
    email = email;
    profile = profile;
  }

  abbrev pub is_taken : String → ℕ → String → String → Accounts → Bool
  is_taken app_id user_id provider provider_user_id s =
      is_some (
        find_first (λ (p : OauthProvider). p.user_id == user_id && str_eq p.provider provider)
          s.providers)
      || is_some (find_first (is_link app_id provider provider_user_id) s.providers)

  -- OAuthProviderRepository.create; the unique indices are on (userId, provider) and on
  -- (appId, provider, providerUserId).
  unfoldable pub create_provider :
      String → ℕ → String → String → String → ProviderProfile → Action Accounts OauthProvider
  create_provider app_id user_id provider provider_user_id email profile s =
      let p = provider_of app_id user_id provider provider_user_id email profile s in
      if is_taken app_id user_id provider provider_user_id s
      then (err (plain_error duplicate_key), s)
      else (ok p, record s { providers = s.providers ++ p ∷ []; next_id = s.next_id + 1 })
