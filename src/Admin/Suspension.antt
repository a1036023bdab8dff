-- ===== src/Admin/Suspension.antt =====
-- What suspending and removing a user does to signing in (modules/admin/admin.service.ts,
-- modules/user/user.service.ts, modules/auth/auth.service.ts).
use common_api.Base.{
  ℕ, ◌≡◌, refl, Bool-cases, String, true, false, some, inl, inr, Option-cases, arith,
}
use common_api.Base.Table.{find?-modify}
use common_api.Action.{ok}
use common_api.Auth.Entities.{UserStatus, active, suspended, deleted, User, RefreshToken, Accounts}
use common_api.Auth.Repository.{user_key, find_user, soft_delete, find_valid_token}
use common_api.Auth.Service.{AuthPlatform, refresh_access_token}
use common_api.Admin.Users.{
  update_user_status, remove_user, suspend_user, unsuspend_user, is_suspended,
}

find_user-update_user_status :
    (id : ℕ) (status : UserStatus) (s : Accounts) {u : User}
    → find_user id s ≡ some u
    → find_user id (update_user_status id status s) ≡ some (record u { status = status })
unfolding find_user update_user_status
find_user-update_user_status id status s found = ground (
  arith,
  found,
  find?-modify user_key id id (λ u. record u { status = status }) s.users (λ r. refl),
)

module _ (p : AuthPlatform) where
  found_again :
      (token : String) (s s' : Accounts)
      → s'.sessions ≡ s.sessions
      → s'.now ≡ s.now
      → find_valid_token p.library token s' ≡ find_valid_token p.library token s
  unfolding find_valid_token
  found_again token s s' same now = ground (arith, same, now)

  -- A status is no part of a token.
  refresh_access_token-update_user_status :
      (id : ℕ) (status : UserStatus) (token : String) (s : Accounts)
      → (refresh_access_token p token (update_user_status id status s)).0
        ≡ (refresh_access_token p token s).0
  unfolding refresh_access_token find_user update_user_status
  refresh_access_token-update_user_status id status token s =
      let s' = update_user_status id status s in
      let same = found_again token s s' refl refl in
      let found_under = λ (t : RefreshToken).
        find?-modify user_key t.user_id id (λ u. record u { status = status }) s.users
          (λ r. refl) in
      elim (Option-cases (find_valid_token p.library token s)) [
        | inl none_there ↦ ground (arith, none_there, same)
        | inr (t, there) ↦ elim (Option-cases (find_user t.user_id s)) [
          | inl gone ↦ ground (arith, there, same, gone, found_under t)
          | inr (u, here) ↦ ground (arith, there, same, here, found_under t)
        ]
      ]

  refresh_access_token-removed :
      (id : ℕ) (token : String) (s : Accounts)
      → (refresh_access_token p token (remove_user p.library id s).1).0
        ≡ (refresh_access_token p token s).0
  unfolding remove_user soft_delete update_user_status
  refresh_access_token-removed id token s = elim (Option-cases (find_user id s)) [
    | inl e ↦ rw e refl
    | inr (u, e) ↦ rw e (refresh_access_token-update_user_status id deleted token s)
  ]

  refresh_access_token-suspended :
      (id : ℕ) (token : String) (s : Accounts)
      → (refresh_access_token p token (suspend_user id s).1).0 ≡ (refresh_access_token p token s).0
  unfolding suspend_user
  refresh_access_token-suspended id token s = elim (Option-cases (find_user id s)) [
    | inl e ↦ rw e refl
    | inr (u, e) ↦ elim (Bool-cases (is_suspended u.status)) [
      | inl f ↦ rw (e, f) refl
      | inr f ↦ rw (e, f) (refresh_access_token-update_user_status id suspended token s)
    ]
  ]

  -- Suspending a user, or removing one by an operator, does not end a session: every refresh
  -- token then gives the access token, or the refusal, that it would have given before.
  pub refresh_access_token-suspend_user :
      (id : ℕ) (token : String) (s : Accounts)
      → ((refresh_access_token p token (suspend_user id s).1).0
          ≡ (refresh_access_token p token s).0)
        × ((refresh_access_token p token (remove_user p.library id s).1).0
            ≡ (refresh_access_token p token s).0)
  refresh_access_token-suspend_user id token s =
      (refresh_access_token-suspended id token s, refresh_access_token-removed id token s)

  removed :
      (id : ℕ) (s : Accounts) {u : User}
      → find_user id s ≡ some u
      → remove_user p.library id s ≡ (ok tt, update_user_status id deleted s)
  unfolding remove_user soft_delete update_user_status
  removed id s found = ground (arith, found)

  put_aside :
      (id : ℕ) (s : Accounts) {u : User}
      → find_user id s ≡ some u
      → is_suspended u.status ≡ false
      → suspend_user id s ≡ (ok tt, update_user_status id suspended s)
  unfolding suspend_user
  put_aside id s found not_yet = ground (arith, found, not_yet)

  taken_back :
      (id : ℕ) (s : Accounts) {u : User}
      → find_user id s ≡ some u
      → is_suspended u.status ≡ true
      → unsuspend_user id s ≡ (ok tt, update_user_status id active s)
  unfolding unsuspend_user
  taken_back id s found aside = ground (arith, found, aside)

  -- A user who is removed can be suspended and then unsuspended: each of the three calls succeeds
  -- and the user is ACTIVE again.
  pub unsuspend_user-remove_user :
      (id : ℕ) (s : Accounts) {u : User}
      → find_user id s ≡ some u
      → let (removed, s1) = remove_user p.library id s in
        let (put_aside, s2) = suspend_user id s1 in
        let (back, s3) = unsuspend_user id s2 in
        (removed ≡ ok tt)
        × (put_aside ≡ ok tt)
        × (back ≡ ok tt)
        × (find_user id s3 ≡ some (record u { status = active }))
  unsuspend_user-remove_user id s found =
      let s1 = update_user_status id deleted s in
      let s2 = update_user_status id suspended s1 in
      let found1 = find_user-update_user_status id deleted s found in
      let found2 = find_user-update_user_status id suspended s1 found1 in
      rw (removed id s found, put_aside id s1 found1 refl, taken_back id s2 found2 refl)
        (refl, refl, refl, find_user-update_user_status id active s2 found2)
