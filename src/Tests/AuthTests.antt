-- ===== src/Tests/AuthTests.antt =====
-- Signing in at concrete inputs (modules/auth/auth.service.ts).
use common_api.Base.{◌≡◌, refl, true, false, [], ◌∷◌, some, none, arith}
use common_api.Action.{ok}
use common_api.Auth.Entities.{active, user, google, OauthProfile, User, MagicLinkToken, Accounts}
use common_api.Auth.Profiles.{extract_google_email}
use common_api.Auth.Repository.{
  ignored, is_null, find_by_token, find_by_email, mark_as_used, create_session, create_provider,
  find_by_app_provider_and_user_id,
}
use common_api.Auth.Service.{
  AuthPlatform, Tokens, redeem, verify_magic_link_by_token, refresh_access_token, logout,
  find_or_create_user, generate_tokens, validate_oauth_user, find_or_link, find_linked_oauth_user,
  linked_or_new, link_account, link_oauth_provider, find_or_create_oauth_user,
  extract_email_from_profile,
}
use common_api.Auth.SignIns.{by_token, run_sign_in}
use common_api.Auth.Races.{verify_magic_link_by_token_twice}
use common_api.Auth.Once.{AuthStep, AuthRun, RunSound, AuthRun-once}
use common_api.Auth.Sessions.{refreshed_after_logout, refresh_access_token-logout}
use common_api.Auth.Linking.{validate_oauth_user-again}

-- Texts that are lower case already, and a hash that keeps them.
abbrev platform : AuthPlatform
platform = record {
  library = record {
    hash = λ t. t;
    to_lower_case = λ t. t;
    find_null = ignored;
    update_null = is_null;
  };
  sign = λ now payload. "signed";
  number_text = λ n. "7";
  trim = λ t. t;
  is_production = true;
}

abbrev ann : User
ann = record {
  id = 1;
  app_id = "a";
  email = "ann@x";
  status = active;
  profile = none;
  role = user;
  created_at = 0;
}

abbrev link : MagicLinkToken
link = record {
  id = 2;
  app_id = "a";
  email = "ann@x";
  token_hash = "123456";
  verification_code = "123456";
  redirect_url = none;
  expires_at = 2000;
  is_used = false;
  used_at = none;
  provider = some "magic-link";
  user_id = none;
  created_at = 0;
}

abbrev oauth_code : MagicLinkToken
oauth_code = record link {
  id = 3;
  token_hash = "code";
  redirect_url = some "https://a";
  provider = some "google";
  user_id = some 1;
}

abbrev accounts : Accounts
accounts = record {
  users = ann ∷ [];
  links = link ∷ oauth_code ∷ [];
  sessions = [];
  providers = [];
  next_id = 4;
  now = 1000;
}

abbrev tokens : Tokens
tokens = record { access_token = "signed"; refresh_token = "r"; signed_in = ann }

-- The code of a link alone signs in the owner of its address.
signs_in : (verify_magic_link_by_token platform "123456" "r" accounts).0 ≡ ok tokens
unfolding verify_magic_link_by_token find_by_token mark_as_used find_or_create_user find_by_email
    generate_tokens create_session
signs_in = refl

signed_in_once :
    AuthRun platform accounts (2 ∷ []) (run_sign_in platform (by_token "123456" "r") accounts).1
unfolding find_by_token
signed_in_once =
    AuthRun.then_step AuthRun.start
      (AuthStep.signed_in (by_token "123456" "r") link tokens refl signs_in)

AuthRun-once_example :
    RunSound platform (verify_magic_link_by_token platform "123456" "r" accounts).1 (2 ∷ [])
AuthRun-once_example = AuthRun-once platform signed_in_once (omega arith, (omega arith, tt))

abbrev with_session : Accounts
with_session = record accounts {
  sessions =
      record { id = 3; user_id = 1; token_hash = "r"; expires_at = 5000; revoked_at = none } ∷ [];
}

refresh_access_token-logout_example :
    (refresh_access_token platform "r" (logout platform "r" with_session).1).0
    ≡ refreshed_after_logout platform ignored "r" with_session
refresh_access_token-logout_example = refresh_access_token-logout platform "r" with_session

abbrev google_profile : OauthProfile
google_profile = google (record {
  id = "g";
  display_name = "Bea";
  name = none;
  emails = [];
  photos = [];
  json = record {
    sub = "g";
    name = none;
    given_name = none;
    family_name = none;
    picture = none;
    email = some "ann@x";
    email_verified = some false;
    locale = none;
    hd = none;
  };
})

abbrev linked : Accounts
linked = (validate_oauth_user platform "google" google_profile (some "a") accounts).1

-- An address that is not verified is enough to be linked to the account that has it.
links_unverified :
    validate_oauth_user platform "google" google_profile (some "a") accounts ≡ (ok ann, linked)
unfolding validate_oauth_user find_or_link find_linked_oauth_user linked_or_new link_account
    link_oauth_provider find_or_create_oauth_user find_by_app_provider_and_user_id find_by_email
    create_provider extract_email_from_profile extract_google_email
links_unverified = refl

validate_oauth_user-again_example :
    validate_oauth_user platform "google" google_profile (some "a") linked ≡ (ok ann, linked)
validate_oauth_user-again_example =
    validate_oauth_user-again platform "google" google_profile (some "a") accounts
      (record { distinct = (refl, tt); below = (omega arith, tt) }) links_unverified

verify_magic_link_by_token_twice_example :
    (first second : Tokens) × (s' s'' : Accounts) × (verify_magic_link_by_token platform "123456"
        "r" accounts
      ≡ (ok first, s'))
    × (redeem platform link (find_or_create_user platform link.app_id link.email) "q" s'
        ≡ (ok second, s''))
    × (first.signed_in ≡ ann)
    × (second.signed_in ≡ ann)
unfolding find_by_token find_by_email
verify_magic_link_by_token_twice_example =
    verify_magic_link_by_token_twice platform "123456" "r" "q" accounts refl refl refl refl refl
      refl
