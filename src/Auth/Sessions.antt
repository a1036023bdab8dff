-- ===== src/Auth/Sessions.antt =====
-- What becomes of sessions and accounts after a logout or a deletion
-- (modules/auth/auth.service.ts).
use common_api.Base.{
  ℕ, ◌≡◌, refl, ◌∙◌, sym, ap, Bool, true, false, List, [], ◌∷◌, some, none, String, ◌==◌,
  if◌then◌else◌, inl, inr, Bool-cases, Option-cases, str_eq, ltb, then_map, arith,
}
use common_api.Base.Table.{modify}
use common_api.Exceptions.{unauthorized}
use common_api.Action.{Result, ok, err}
use common_api.Auth.Entities.{deleted, User, RefreshToken, Accounts}
use common_api.Auth.Repository.{
  NullCriterion, ignored, is_null, never_met, find_first, update_where, user_key, has_email,
  is_valid_token, set_revoked, set_deleted, find_valid_token, revoke, find_user, find_by_email,
  soft_delete, revoke_all_for_user,
}
use common_api.Auth.Service.{
  AuthPlatform, refresh_access_token, logout, delete_account, find_or_create_user, payload_of,
}

-- The first row that meets a condition, after the rows of one condition are changed.
find_first-update_where :
    {A : Type 0} (q p : A → Bool) (f : A → A) (rows : List A)
    → ((a : A) → q (f a) ≡ q a)
    → find_first q (update_where p f rows)
      ≡ then_map (λ a. if p a then f a else a) (find_first q rows)
find_first-update_where q p f [] same = refl
find_first-update_where q p f (a ∷ rows) same =
    ground (arith, same a, find_first-update_where q p f rows same)

find_first-modify :
    (q : User → Bool) (id : ℕ) (f : User → User) (rows : List User)
    → ((u : User) → q (f u) ≡ q u)
    → find_first q (modify user_key id f rows)
      ≡ then_map (λ u. if u.id == id then f u else u) (find_first q rows)
find_first-modify q id f [] same = refl
find_first-modify q id f (u ∷ rows) same =
    ground (arith, same u, find_first-modify q id f rows same)

module _ (p : AuthPlatform) where
  abbrev hash_of : String → String
  hash_of token = p.library.hash token

  -- Where a `null` is a condition no row that has been revoked is found.
  revoked_not_found :
      (hash : String) (now : ℕ) (rows : List RefreshToken)
      → p.library.find_null ≡ is_null
      → find_first
          (is_valid_token p.library hash)
          (update_where (λ t. str_eq t.token_hash hash) (set_revoked p.library now) rows)
        ≡ none
  revoked_not_found hash now [] e = refl
  revoked_not_found hash now (t ∷ rows) e = ground (arith, e, revoked_not_found hash now rows e)

  never_found :
      (hash : String) (rows : List RefreshToken)
      → p.library.find_null ≡ never_met
      → find_first (is_valid_token p.library hash) rows ≡ none
  never_found hash [] e = refl
  never_found hash (t ∷ rows) e = ground (arith, e, never_found hash rows e)

  -- What a refresh gives after a logout with the same token.
  abbrev pub refreshed_after_logout : NullCriterion → String → Accounts → Result String
  refreshed_after_logout ignored token s = (refresh_access_token p token s).0
  refreshed_after_logout is_null token s = err (unauthorized "Invalid refresh token")
  refreshed_after_logout never_met token s = err (unauthorized "Invalid refresh token")

  after_logout-refused :
      (token : String) (s : Accounts)
      → find_valid_token p.library token (revoke p.library token s) ≡ none
      → (refresh_access_token p token (logout p token s).1).0
        ≡ err (unauthorized "Invalid refresh token")
  unfolding refresh_access_token logout
  after_logout-refused token s e = ground (arith, e)

  -- The token that is found after a logout, where a `null` is left out of the condition.
  still_found :
      (token : String) (s : Accounts)
      → p.library.find_null ≡ ignored
      → find_valid_token p.library token (revoke p.library token s)
        ≡ then_map
            (λ t. if str_eq t.token_hash (hash_of token) then set_revoked p.library s.now t else t)
            (find_valid_token p.library token s)
  unfolding find_valid_token revoke
  still_found token s e =
      find_first-update_where (is_valid_token p.library (hash_of token))
        (λ t. str_eq t.token_hash (hash_of token)) (set_revoked p.library s.now) s.sessions
        (λ t. ground (arith, e))

  -- What a refresh gives for the token that it finds.
  abbrev refreshed_with : RefreshToken → Accounts → Result String
  refreshed_with t s =
      if ltb t.expires_at s.now
      then err (unauthorized "Refresh token has expired")
      else elim (find_user t.user_id s) [
        | none ↦ err (unauthorized "User not found")
        | some u ↦ ok (p.sign s.now (payload_of u))
      ]

  refresh_access_token-found :
      (token : String) (s : Accounts) {t : RefreshToken}
      → find_valid_token p.library token s ≡ some t
      → (refresh_access_token p token s).0 ≡ refreshed_with t s
  unfolding refresh_access_token
  refresh_access_token-found token s {t = t} e = elim (Bool-cases (ltb t.expires_at s.now)) [
    | inl old ↦ ground (arith, e, old)
    | inr fresh ↦ elim (Option-cases (find_user t.user_id s)) [
      | inl nobody ↦ ground (arith, e, fresh, nobody)
      | inr (u, somebody) ↦ ground (arith, e, fresh, somebody)
    ]
  ]

  refreshed_with-revoked :
      (revoked : Bool) (token : String) (t : RefreshToken) (s : Accounts)
      → refreshed_with
          (if revoked then set_revoked p.library s.now t else t)
          (revoke p.library token s)
        ≡ refreshed_with t s
  unfolding revoke find_user
  refreshed_with-revoked true token t s = refl
  refreshed_with-revoked false token t s = refl

  after_logout-same :
      (token : String) (s : Accounts)
      → p.library.find_null ≡ ignored
      → (refresh_access_token p token (logout p token s).1).0 ≡ (refresh_access_token p token s).0
  unfolding refresh_access_token logout
  after_logout-same token s e = elim (Option-cases (find_valid_token p.library token s)) [
    | inl nothing ↦ ground (arith, nothing, still_found token s e)
    | inr (t, found) ↦
        let after : find_valid_token p.library token (revoke p.library token s)
            ≡ some
                (if str_eq t.token_hash (hash_of token) then set_revoked p.library s.now t else t) =
          still_found token s e
          ∙ ap
              (then_map (λ t'.
                if str_eq t'.token_hash (hash_of token)
                then set_revoked p.library s.now t'
                else t'))
              found in
        refresh_access_token-found token (revoke p.library token s) after
        ∙ refreshed_with-revoked (str_eq t.token_hash (hash_of token)) token t s
        ∙ sym (refresh_access_token-found token s found)
  ]

  by_criterion :
      (m : NullCriterion) (token : String) (s : Accounts)
      → p.library.find_null ≡ m
      → (refresh_access_token p token (logout p token s).1).0 ≡ refreshed_after_logout m token s
  unfolding find_valid_token revoke
  by_criterion ignored token s e = after_logout-same token s e
  by_criterion is_null token s e =
      after_logout-refused token s (revoked_not_found (hash_of token) s.now s.sessions e)
  by_criterion never_met token s e =
      after_logout-refused token s
        (never_found (hash_of token) (revoke p.library token s).sessions e)

  -- After a logout the refresh token is refused where a condition `revokedAt: null` is read as
  -- `IS NULL`, or as an equation that no row meets; where TypeORM leaves a `null` out of a
  -- condition, as it does by default, the token refreshes as before the logout.
  pub refresh_access_token-logout :
      (token : String) (s : Accounts)
      → (refresh_access_token p token (logout p token s).1).0
        ≡ refreshed_after_logout p.library.find_null token s
  refresh_access_token-logout token s = by_criterion p.library.find_null token s refl

  -- The accounts after a deletion.
  deleted_users :
      (id : ℕ) (s : Accounts) {u : User}
      → find_user id s ≡ some u
      → (delete_account p id s).1.users ≡ modify user_key id (set_deleted p.library) s.users
  unfolding delete_account soft_delete revoke_all_for_user
  deleted_users id s found = ground (arith, found)

  deleted_by_email :
      (app_id email : String) (s : Accounts) {u : User}
      → find_by_email p.library app_id email s ≡ some u
      → find_user u.id s ≡ some u
      → find_by_email p.library app_id email (delete_account p u.id s).1
        ≡ some (set_deleted p.library u)
  unfolding find_by_email
  deleted_by_email app_id email s {u = u} found here =
      ap (find_first (has_email p.library app_id email)) (deleted_users u.id s here)
      ∙ find_first-modify (has_email p.library app_id email) u.id (set_deleted p.library) s.users
          (λ r. refl)
      ∙ ap (then_map (λ (r : User). if r.id == u.id then set_deleted p.library r else r)) found
      ∙ ground arith

  -- An account that has been deleted is signed in again by its address: the next link or code for
  -- it finds the same account, with the status DELETED, and makes tokens for it.
  find_or_create_user-deleted :
      (app_id email : String) (s : Accounts) {u : User}
      → find_by_email p.library app_id email s ≡ some u
      → find_user u.id s ≡ some u
      → let s' = (delete_account p u.id s).1 in
        find_or_create_user p app_id email s' ≡ (ok (record u { status = deleted }), s')
  unfolding find_or_create_user
  find_or_create_user-deleted app_id email s found here =
      ground (arith, deleted_by_email app_id email s found here)
