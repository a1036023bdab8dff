-- ===== src/Auth/Races.antt =====
-- Two calls that both read one magic link while it was unused (modules/auth/auth.service.ts,
-- verifyMagicLinkByToken).
use common_api.Base.{
  ◌+◌, ◌≡◌, refl, Bool, false, List, [], ◌∷◌, ◌++◌, some, none, String, str_eq, arith,
}
use common_api.Action.{ok}
use common_api.Auth.Entities.{User, MagicLinkToken, RefreshToken, Accounts}
use common_api.Auth.Repository.{
  find_first, find_by_token, find_by_email, mark_as_used, create_session,
}
use common_api.Auth.Service.{
  AuthPlatform, Tokens, has_expired, payload_of, days, redeem, generate_tokens, find_or_create_user,
  verify_magic_link_by_token,
}

find_first-append :
    {A : Type 0} (p : A → Bool) (xs : List A) (y : A)
    → find_first p xs ≡ none
    → p y ≡ false
    → find_first p (xs ++ y ∷ []) ≡ none
find_first-append p [] y h e = ground (arith, e)
find_first-append p (x ∷ xs) y h e = ground (arith, h, find_first-append p xs y, e)

module _ (p : AuthPlatform) where
  -- No session has the hash of a token.
  abbrev pub IsFresh : String → Accounts → Type 0
  IsFresh token s =
      find_first (λ (r : RefreshToken). str_eq r.token_hash (p.library.hash token)) s.sessions
      ≡ none

  abbrev tokens_of : User → String → Accounts → Tokens
  tokens_of u token s = record {
    access_token = p.sign s.now (payload_of u);
    refresh_token = token;
    signed_in = u;
  }

  abbrev new_session : User → String → Accounts → RefreshToken
  new_session u token s = record {
    id = s.next_id;
    user_id = u.id;
    token_hash = p.library.hash token;
    expires_at = s.now + days 30;
    revoked_at = none;
  }

  abbrev redeemed : MagicLinkToken → User → String → Accounts → Accounts
  redeemed t u token s = record (mark_as_used p.library t.id s) {
    sessions = s.sessions ++ new_session u token s ∷ [];
    next_id = s.next_id + 1;
  }

  redeem_lem :
      (t : MagicLinkToken) (u : User) (token : String) (s : Accounts)
      → find_by_email p.library t.app_id t.email s ≡ some u
      → IsFresh token s
      → redeem p t (find_or_create_user p t.app_id t.email) token s
        ≡ (ok (tokens_of u token s), redeemed t u token s)
  unfolding mark_as_used find_or_create_user find_by_email generate_tokens create_session
  redeem_lem t u token s found fresh = ground (arith, found, fresh)

  -- Of two calls that read a magic link while it was unused and not expired, for an account that
  -- exists, one runs as a whole and then the rest of the other: both sign the account in. Their
  -- refresh tokens have hashes that differ and that no session has.
  pub verify_magic_link_by_token_twice :
      (link a b : String) (s : Accounts) {t : MagicLinkToken} {u : User}
      → find_by_token p.library link s ≡ some t
      → has_expired t.expires_at s ≡ false
      → find_by_email p.library t.app_id t.email s ≡ some u
      → IsFresh a s
      → IsFresh b s
      → str_eq (p.library.hash a) (p.library.hash b) ≡ false
      → (first second : Tokens) × (s' s'' : Accounts) × (verify_magic_link_by_token p link a s
          ≡ (ok first, s'))
        × (redeem p t (find_or_create_user p t.app_id t.email) b s' ≡ (ok second, s''))
        × (first.signed_in ≡ u)
        × (second.signed_in ≡ u)
  unfolding verify_magic_link_by_token find_by_email mark_as_used
  verify_magic_link_by_token_twice link a b s {t} {u} found in_time known fresh_a fresh_b apart =
      let s' = redeemed t u a s in
      (
        tokens_of u a s,
        tokens_of u b s',
        s',
        redeemed t u b s',
        ground (arith, found, in_time, redeem_lem t u a s known fresh_a),
        redeem_lem t u b s' known
            (find_first-append _ s.sessions (new_session u a s) fresh_b apart),
        refl,
        refl,
      )
