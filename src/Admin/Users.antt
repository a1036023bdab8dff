-- ===== src/Admin/Users.antt =====
-- UserService (modules/user/user.service.ts), its repository's writes, and what AdminService
-- (modules/admin/admin.service.ts) does to users.
use common_api.Base.{
  ℕ, ◌+◌, String, Bool, true, false, not, List, [], ◌∷◌, ◌++◌, Option, some, none, str_eq,
  or_default, or_else, select,
}
use common_api.Base.Table.{modify}
use common_api.Base.Pages.{newest_first}
use common_api.Exceptions.{not_found, bad_request, plain_error}
use common_api.Action.{ok, err, Action, or_throw, gets, lift, throw_if, modify_state, ◌>>=◌, ◌>>◌}
use common_api.Auth.Entities.{
  UserStatus, active, suspended, UserRole, user, UserProfile, User, Accounts,
}
use common_api.Auth.Repository.{
  Library, user_key, find_user, find_by_email, duplicate_key, user_of, soft_delete,
}

-- `UpdateUserDto`
pub record UserUpdate : Type 0 where
  pub profile : Option UserProfile
  pub status : Option UserStatus
  pub role : Option UserRole

abbrev pub user_date : User → ℕ
user_date u = u.created_at

-- UserRepository.findAllByApp and UserService.findAll
unfoldable pub find_all_by_app : String → Accounts → List User
find_all_by_app app_id s = newest_first user_date (select (λ u. str_eq u.app_id app_id) s.users)

-- UserService.findOne
unfoldable pub find_one : ℕ → Action Accounts User
find_one id s = (or_throw (find_user id s) (not_found "User not found"), s)

-- UserRepository.updateStatus
unfoldable pub update_user_status : ℕ → UserStatus → Accounts → Accounts
update_user_status id status s = record s {
  users = modify user_key id (λ u. record u { status = status }) s.users;
}

abbrev pub with_user_changes : UserUpdate → User → User
with_user_changes d u = record u {
  profile = or_else d.profile u.profile;
  status = or_default d.status u.status;
  role = or_default d.role u.role;
}

-- UserRepository.update
unfoldable pub write_user : ℕ → UserUpdate → Action Accounts User
write_user id d = do
  modify_state
      (λ (s : Accounts). record s { users = modify user_key id (with_user_changes d) s.users })
  updated ← gets (find_user id)
  lift (or_throw updated (plain_error "User not found after update"))

-- UserService.update
unfoldable pub update_user : ℕ → UserUpdate → Action Accounts User
update_user id d = do
  found ← gets (find_user id)
  existing ← lift (or_throw found (not_found "User not found"))
  write_user id d

module _ (lib : Library) where
  -- UserService.create and UserRepository.create; the unique index is on (appId, email).
  unfoldable pub create_user_as :
      String → String → Option UserProfile → Option UserRole → Action Accounts User
  create_user_as app_id email profile role s = elim (find_by_email lib app_id email s) [
    | some _ ↦ (err (plain_error duplicate_key), s)
    | none ↦
        let u = record (user_of lib app_id email profile s) { role = or_default role user } in
        (ok u, record s { users = s.users ++ u ∷ []; next_id = s.next_id + 1 })
  ]

  -- UserService.remove
  unfoldable pub remove_user : ℕ → Action Accounts (Unit {0})
  remove_user id = do
    found ← gets (find_user id)
    existing ← lift (or_throw found (not_found "User not found"))
    modify_state (soft_delete lib id)

abbrev pub is_suspended : UserStatus → Bool
is_suspended suspended = true
is_suspended _ = false

-- AdminService.suspendUser
unfoldable pub suspend_user : ℕ → Action Accounts (Unit {0})
suspend_user id = do
  found ← gets (find_user id)
  u ← lift (or_throw found (not_found "User not found"))
  throw_if (is_suspended u.status) (bad_request "User is already suspended")
  modify_state (update_user_status id suspended)

-- AdminService.unsuspendUser
unfoldable pub unsuspend_user : ℕ → Action Accounts (Unit {0})
unsuspend_user id = do
  found ← gets (find_user id)
  u ← lift (or_throw found (not_found "User not found"))
  throw_if (not (is_suspended u.status)) (bad_request "User is not suspended")
  modify_state (update_user_status id active)
