-- ===== src/Tests/AdminTests.antt =====
-- Operators at concrete inputs (modules/admin, modules/user, modules/platform).
use common_api.Base.{ℕ, ◌≡◌, refl, String, true, [], ◌∷◌, some, none}
use common_api.Base.Int.{ℤ, pos}
use common_api.Action.{ok}
use common_api.Wallet.Entities.{
  integer_of, spells_too, credit, admin_adjust, spells, RequestData, Wallet, empty_wallet, entry,
  ResponseBody,
}
use common_api.Wallet.Repository.{
  fits_varchar, fits_bigint, takes_entry, takes_key, get_user_balance, create_lot, create_entry,
  find_by_key, create_key,
}
use common_api.Wallet.Service.{
  credit_wallet, credit_in_transaction, positive_amount, look_up_key, check_idempotency, save_key,
  save_idempotency,
}
use common_api.Wallet.Valid.{IsValid}
use common_api.Auth.Entities.{active, user, User, Accounts}
use common_api.Auth.Repository.{is_null, find_user, find_valid_token}
use common_api.Auth.Service.{AuthPlatform, refresh_access_token}
use common_api.Admin.Users.{update_user_status, suspend_user, unsuspend_user, remove_user}
use common_api.Admin.Suspension.{refresh_access_token-suspend_user, unsuspend_user-remove_user}
use common_api.Admin.Adjusting.{adjust_wallet, adjust_found, ChangedBy, adjust_wallet-ChangedBy}
use common_api.Admin.Platform.{Apps, AppUpdate, create_app, update_app}
use common_api.Admin.Secrets.{IsGuarded, no_apps, made, changed_app, AppReach-IsGuarded}

abbrev platform : AuthPlatform
platform = record {
  library = record {
    hash = λ t. t;
    to_lower_case = λ t. t;
    find_null = is_null;
    update_null = is_null;
  };
  sign = λ now payload. "signed";
  number_text = λ n. "7";
  trim = λ t. t;
  is_production = true;
}

abbrev bob : User
bob = record {
  id = 4;
  app_id = "a";
  email = "bob@b.c";
  status = active;
  profile = none;
  role = user;
  created_at = 1;
}

abbrev accounts : Accounts
accounts = record {
  users = bob ∷ [];
  links = [];
  sessions =
      (record { id = 5; user_id = 4; token_hash = "t"; expires_at = 90; revoked_at = none }) ∷ [];
  providers = [];
  next_id = 6;
  now = 10;
}

suspended_signs : (refresh_access_token platform "t" (suspend_user 4 accounts).1).0 ≡ ok "signed"
unfolding refresh_access_token find_valid_token suspend_user find_user update_user_status
suspended_signs = refl

refresh_access_token-suspend_user_example :
    ((refresh_access_token platform "t" (suspend_user 4 accounts).1).0
      ≡ (refresh_access_token platform "t" accounts).0)
    × ((refresh_access_token platform "t" (remove_user platform.library 4 accounts).1).0
        ≡ (refresh_access_token platform "t" accounts).0)
refresh_access_token-suspend_user_example =
    refresh_access_token-suspend_user platform 4 "t" accounts

unsuspend_user-remove_user_example :
    let (removed, s1) = remove_user platform.library 4 accounts in
    let (put_aside, s2) = suspend_user 4 s1 in
    let (back, s3) = unsuspend_user 4 s2 in
    (removed ≡ ok tt)
    × (put_aside ≡ ok tt)
    × (back ≡ ok tt)
    × (find_user 4 s3 ≡ some (record bob { status = active }))
unfolding find_user
unsuspend_user-remove_user_example = unsuspend_user-remove_user platform 4 accounts {u = bob} refl

abbrev by_ref : RequestData → String
by_ref d = d.ref_id

abbrev adjusted : Wallet
adjusted = (adjust_wallet by_ref accounts 1 4 (spells (pos 30)) "k" empty_wallet).1

abbrev granted : ResponseBody
granted = entry (record {
  id = 1;
  app_id = 1;
  user_id = 4;
  lot_id = some 0;
  direction = credit;
  amount = 30;
  reason = admin_adjust;
  ref_type = "admin_adjustment";
  ref_id = "admin_adj_k";
  balance_snapshot = 30;
  created_at = 0;
})

empty_wallet-IsValid : IsValid empty_wallet
unfolding get_user_balance
empty_wallet-IsValid = record { distinct = tt; below = tt; audited = λ v. refl }

adjust_wallet-ChangedBy_example :
    ((u : User) × (find_user 4 accounts ≡ some u))
    × (z : ℤ) × (integer_of (spells_too "030" (pos 30)) ≡ some z)
    × IsValid adjusted
    × ((v : ℕ) → ChangedBy 4 v z (get_user_balance v empty_wallet) (get_user_balance v adjusted))
unfolding adjust_wallet adjust_found find_user credit_wallet positive_amount look_up_key
    check_idempotency find_by_key credit_in_transaction get_user_balance create_lot create_entry
    save_key save_idempotency create_key fits_varchar fits_bigint takes_entry takes_key
adjust_wallet-ChangedBy_example =
    adjust_wallet-ChangedBy by_ref accounts 1 4 (spells_too "030" (pos 30)) "k" empty_wallet
      {body = granted} {w' = adjusted} empty_wallet-IsValid refl refl

abbrev started : Apps
started = record { rows = []; next_id = 1; now = 0 }

abbrev with_app : Apps
with_app = (create_app "s1" "ox" (some "https://ox") none started).1

abbrev move : AppUpdate
move = record {
  name = none;
  callback_base_url = some (some "https://new");
  callback_allowlist_paths = none;
  status = none;
  callback_secret_ref = none;
}

AppReach-IsGuarded_example : IsGuarded (update_app "s2" 1 move with_app).1
AppReach-IsGuarded_example = AppReach-IsGuarded (
    changed_app "s2" 1 move with_app refl refl
      (made "s1" "ox" (some "https://ox") none started refl (no_apps 1 0)))
