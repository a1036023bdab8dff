-- ===== src/Admin/Secrets.antt =====
-- The secrets of the apps that are called back (modules/platform/platform.service.ts).
use mathlib.Core.Path.{subst}
use mathlib.Core.Option.{some_inj}
use common_api.Base.{
  ℕ, ◌≡◌, ◌⊎◌, inl, inr, refl, sym, ap, ◌∙◌, String, false, Bool-cases, Option-cases, List, [],
  Option, some, none, str_eq, eq_iff, truthy, All, All-append, arith,
}
use common_api.Base.Table.{
  find?, Distinct, Below, modify, append-Distinct, append-Below, modify-Distinct, modify-Below,
  All-modify_found,
}
use common_api.Admin.Platform.{
  app_active, app_suspended, AppRow, Apps, app_key, AppUpdate, find_app_row, insert_app, create_app,
  with_app_changes, write_app, differs_from, secret_of_update, update_app, status_only, suspend_app,
  activate_app,
}

abbrev pub HasSecret : AppRow → Type 0
HasSecret a =
    (truthy a.callback_base_url ≡ none) ⊎ ((k : String) × (truthy a.callback_secret_ref ≡ some k))

abbrev pub IsSecret : String → Type 0
IsSecret k = truthy (some k) ≡ some k

pub record IsGuarded (s : Apps) : Type 0 where
  pub distinct : Distinct app_key s.rows
  pub below : Below app_key s.next_id s.rows
  pub secrets : All HasSecret s.rows

truthy_again : (o : Option String) {t : String} → truthy o ≡ some t → truthy (truthy o) ≡ some t
truthy_again none h = h
truthy_again (some String.[]) h = h
truthy_again (some (String.◌∷◌ c t)) h = h

not_different : (url : String) (o : Option String) → differs_from url o ≡ false → o ≡ some url
not_different url none h = ground arith
not_different url (some old) h = elim (Bool-cases (str_eq url old)) [
  | inl e ↦ ap some (sym ((eq_iff url old).0 e))
  | inr e ↦ ground (arith, e, h)
]

same_row :
    (id : ℕ) (s : Apps) {a r : AppRow}
    → find_app_row id s ≡ some a
    → find? app_key id s.rows ≡ some r
    → a ≡ r
unfolding find_app_row
same_row id s found here = some_inj.0 (sym found ∙ here)

-- The change of an update that names no secret itself.
with_app_changes-HasSecret :
    (new_secret : String) (d : AppUpdate) (a : AppRow)
    → IsSecret new_secret
    → d.callback_secret_ref ≡ none
    → HasSecret a
    → HasSecret
        (with_app_changes (record d { callback_secret_ref = secret_of_update new_secret d a }) a)
unfolding secret_of_update
with_app_changes-HasSecret new_secret d a good silent h = elim (Option-cases d.callback_base_url) [
  | inl kept ↦ elim h [
    | inl no_url ↦ inl (ground (arith, kept, no_url))
    | inr (k, has) ↦ inr (k, ground (arith, kept, silent, has))
  ]
  | inr (given, set) ↦ elim (Option-cases (truthy given)) [
    | inl no_url ↦ inl (ground (arith, set, no_url))
    | inr (url, is_url) ↦ elim (Bool-cases (differs_from url a.callback_base_url)) [
      | inl other ↦ inr (new_secret, ground (arith, set, is_url, other, good))
      | inr same ↦ elim h [
        | inl no_url ↦ ground (
          arith,
          not_different url a.callback_base_url same,
          truthy_again given is_url,
          no_url,
          is_url,
        )
        | inr (k, has) ↦ inr (k, ground (arith, set, is_url, same, silent, has))
      ]
    ]
  ]
]

create_app-IsGuarded :
    (new_secret name : String) (url : Option String) (paths : Option (List String)) (s : Apps)
    → IsSecret new_secret
    → IsGuarded s
    → IsGuarded (create_app new_secret name url paths s).1
unfolding create_app insert_app
create_app-IsGuarded new_secret name url paths s good g = record {
  distinct = append-Distinct app_key s.next_id s.rows _ g.below refl g.distinct;
  below = append-Below app_key s.next_id s.rows _ g.below refl;
  secrets = All-append HasSecret s.rows _ g.secrets (
    elim (Option-cases (truthy url)) [
      | inl e ↦ inl (ground (arith, e))
      | inr (t, e) ↦ inr (new_secret, ground (arith, e, good))
    ],
    tt,
  );
}

-- An update that fails changes nothing, and one that succeeds changes the rows of its key.
abbrev changed : String → ℕ → AppUpdate → AppRow → Apps → Apps
changed new_secret id d a s = record s {
  rows =
      modify app_key id
        (with_app_changes (record d { callback_secret_ref = secret_of_update new_secret d a }))
        s.rows;
}

update_app-cases :
    (new_secret : String) (id : ℕ) (d : AppUpdate) (s : Apps)
    → ((update_app new_secret id d s).1 ≡ s)
      ⊎ ((a : AppRow) × (find_app_row id s ≡ some a)
          × ((update_app new_secret id d s).1 ≡ changed new_secret id d a s))
unfolding update_app write_app
update_app-cases new_secret id d s = elim (Option-cases (find_app_row id s)) [
  | inl gone ↦ inl (ground (arith, gone))
  | inr (a, found) ↦ elim (Option-cases (find_app_row id (changed new_secret id d a s))) [
    | inl lost ↦ inl (ground (arith, found, lost))
    | inr (b, still) ↦ inr (a, found, ground (arith, found, still))
  ]
]

update_app-IsGuarded :
    (new_secret : String) (id : ℕ) (d : AppUpdate) (s : Apps)
    → IsSecret new_secret
    → d.callback_secret_ref ≡ none
    → IsGuarded s
    → IsGuarded (update_app new_secret id d s).1
update_app-IsGuarded new_secret id d s good silent g = elim (update_app-cases new_secret id d s) [
  | inl same ↦ subst IsGuarded (sym same) g
  | inr (a, found, done) ↦
      let change =
        with_app_changes (record d { callback_secret_ref = secret_of_update new_secret d a }) in
      subst IsGuarded (sym done) (record {
        distinct = modify-Distinct app_key id change s.rows (λ r. refl) g.distinct;
        below = modify-Below app_key s.next_id id change s.rows (λ r. refl) g.below;
        secrets =
            All-modify_found app_key HasSecret id change s.rows g.distinct
              (λ r here.
                subst (λ x. HasSecret x → HasSecret (change x)) (same_row id s found here)
                  (with_app_changes-HasSecret new_secret d a good silent))
              g.secrets;
      })
]

-- The histories of a platform that starts without apps, where the secrets that are generated are
-- not empty and no update names a secret itself.
pub data AppReach : Apps → Type 0 where
  no_apps : (next_id now : ℕ) → AppReach (record { rows = []; next_id = next_id; now = now })
  made :
      (new_secret name : String) (url : Option String) (paths : Option (List String)) (s : Apps)
      → IsSecret new_secret
      → AppReach s
      → AppReach (create_app new_secret name url paths s).1
  changed_app :
      (new_secret : String) (id : ℕ) (d : AppUpdate) (s : Apps)
      → IsSecret new_secret
      → d.callback_secret_ref ≡ none
      → AppReach s
      → AppReach (update_app new_secret id d s).1
  put_off :
      (new_secret : String) (id : ℕ) (s : Apps)
      → IsSecret new_secret
      → AppReach s
      → AppReach (suspend_app new_secret id s).1
  put_on :
      (new_secret : String) (id : ℕ) (s : Apps)
      → IsSecret new_secret
      → AppReach s
      → AppReach (activate_app new_secret id s).1

-- In every history of apps that are made, updated without a secret of the caller's, suspended and
-- activated, where generated secrets are not empty, each app with a callback address has a
-- secret to sign its callbacks with, and no two apps share an identifier.
pub AppReach-IsGuarded : {s : Apps} → AppReach s → IsGuarded s
unfolding suspend_app activate_app
AppReach-IsGuarded (no_apps next_id now) = record { distinct = tt; below = tt; secrets = tt }
AppReach-IsGuarded (made new_secret name url paths s good h) =
    create_app-IsGuarded new_secret name url paths s good (AppReach-IsGuarded h)
AppReach-IsGuarded (changed_app new_secret id d s good silent h) =
    update_app-IsGuarded new_secret id d s good silent (AppReach-IsGuarded h)
AppReach-IsGuarded (put_off new_secret id s good h) =
    update_app-IsGuarded new_secret id (status_only app_suspended) s good refl
      (AppReach-IsGuarded h)
AppReach-IsGuarded (put_on new_secret id s good h) =
    update_app-IsGuarded new_secret id (status_only app_active) s good refl (AppReach-IsGuarded h)
