-- ===== src/Admin/Platform.antt =====
-- PlatformService (modules/platform/platform.service.ts) and AppRepository
-- (modules/platform/repositories/app.repository.ts). The secret that `generateHmacSecret` gives is
-- an argument of each call.
use common_api.Base.{
  ℕ, ◌+◌, String, Bool, true, List, [], ◌∷◌, ◌++◌, Option, some, none, str_eq, not, if◌then◌else◌,
  or_default, truthy,
}
use common_api.Base.Table.{find?, modify}
use common_api.Base.Pages.{newest_first}
use common_api.Exceptions.{not_found, plain_error}
use common_api.Action.{ok, Action, or_throw, gets, lift, modify_state, in_transaction, ◌>>=◌, ◌>>◌}

-- `AppEntity.status`
pub data AppStatus : Type 0 where
  app_active app_suspended : AppStatus

-- `AppEntity`, with the columns that the platform writes
pub record AppRow : Type 0 where
  pub id : ℕ
  pub name : String
  pub callback_base_url : Option String
  pub callback_allowlist_paths : Option (List String)
  pub callback_secret_ref : Option String
  pub status : AppStatus
  pub created_at : ℕ

pub record Apps : Type 0 where
  pub rows : List AppRow
  pub next_id : ℕ
  pub now : ℕ

abbrev pub app_key : AppRow → ℕ
app_key a = a.id

-- What `update` is given: a field is left as it is, or set, where the outer option is `undefined`
-- and the inner one `null`.
pub record AppUpdate : Type 0 where
  pub name : Option String
  pub callback_base_url : Option (Option String)
  pub callback_allowlist_paths : Option (Option (List String))
  pub status : Option AppStatus
  pub callback_secret_ref : Option (Option String)

abbrev pub app_date : AppRow → ℕ
app_date a = a.created_at

-- AppRepository.findAll and PlatformService.listApps
unfoldable pub list_apps : Apps → List AppRow
list_apps s = newest_first app_date s.rows

-- AppRepository.findById
unfoldable pub find_app_row : ℕ → Apps → Option AppRow
find_app_row id s = find? app_key id s.rows

-- PlatformService.getApp
unfoldable pub get_app : ℕ → Action Apps AppRow
get_app id s = (or_throw (find_app_row id s) (not_found "App not found"), s)

-- AppRepository.create; a list of paths is truthy, if it is empty too.
unfoldable pub insert_app :
    String → Option String → Option (List String) → Option String → Action Apps AppRow
insert_app name url paths secret s =
    let a : AppRow = record {
      id = s.next_id;
      name = name;
      callback_base_url = truthy url;
      callback_allowlist_paths = paths;
      callback_secret_ref = truthy secret;
      status = app_active;
      created_at = s.now;
    } in
    (ok a, record s { rows = s.rows ++ a ∷ []; next_id = s.next_id + 1 })

-- PlatformService.createApp
unfoldable pub create_app :
    String → String → Option String → Option (List String) → Action Apps AppRow
create_app new_secret name url paths = in_transaction (
    insert_app name (truthy url) paths
      (elim (truthy url) [ none ↦ none | some _ ↦ some new_secret ]))

abbrev pub with_app_changes : AppUpdate → AppRow → AppRow
with_app_changes d a = record a {
  name = or_default d.name a.name;
  callback_base_url = or_default d.callback_base_url a.callback_base_url;
  callback_allowlist_paths = or_default d.callback_allowlist_paths a.callback_allowlist_paths;
  status = or_default d.status a.status;
  callback_secret_ref = or_default d.callback_secret_ref a.callback_secret_ref;
}

-- AppRepository.update
unfoldable pub write_app : ℕ → AppUpdate → Action Apps AppRow
write_app id d = do
  modify_state (λ (s : Apps). record s { rows = modify app_key id (with_app_changes d) s.rows })
  updated ← gets (find_app_row id)
  lift (or_throw updated (plain_error "App not found after update"))

abbrev pub given_url : Option (Option String) → Option String
given_url none = none
given_url (some url) = truthy url

-- `url !== app.callbackBaseUrl`
abbrev pub differs_from : String → Option String → Bool
differs_from url none = true
differs_from url (some old) = not (str_eq url old)

-- The secret that an update writes: a new one where the address is set to another one.
unfoldable pub secret_of_update : String → AppUpdate → AppRow → Option (Option String)
secret_of_update new_secret d a = elim (given_url d.callback_base_url) [
  | none ↦ d.callback_secret_ref
  | some url ↦
      if differs_from url a.callback_base_url then some (some new_secret) else d.callback_secret_ref
]

-- PlatformService.updateApp
unfoldable pub update_app : String → ℕ → AppUpdate → Action Apps AppRow
update_app new_secret id d = in_transaction do
  found ← gets (find_app_row id)
  a ← lift (or_throw found (not_found "App not found"))
  write_app id (record d { callback_secret_ref = secret_of_update new_secret d a })

abbrev pub status_only : AppStatus → AppUpdate
status_only status = record {
  name = none;
  callback_base_url = none;
  callback_allowlist_paths = none;
  status = some status;
  callback_secret_ref = none;
}

-- PlatformService.suspendApp
unfoldable pub suspend_app : String → ℕ → Action Apps AppRow
suspend_app new_secret id = update_app new_secret id (status_only app_suspended)

-- PlatformService.activateApp
unfoldable pub activate_app : String → ℕ → Action Apps AppRow
activate_app new_secret id = update_app new_secret id (status_only app_active)
