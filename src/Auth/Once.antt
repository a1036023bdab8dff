-- ===== src/Auth/Once.antt =====
-- Each link and each code signs in at most once, in every history of the methods in which they run
-- one after another (modules/auth/auth.service.ts).
use mathlib.Core.Path.{subst}
use mathlib.Core.Option.{some_inj}
use common_api.Base.{
  ℕ, ◌+◌, ◌<◌, ◌≡◌, refl, ◌∙◌, sym, ap, List, [], ◌∷◌, ◌++◌, Option, some, none, String, inl, inr,
  All, All-map, All-append, All-select, arith,
}
use common_api.Base.Table.{find?, modify, Below, modify-Below, append-Below, Below-mono, Distinct}
use common_api.Exceptions.{Exception}
use common_api.Action.{ok, err}
use common_api.Auth.Entities.{User, MagicLinkToken, Accounts, OauthProfile, UserProfile}
use common_api.Auth.Repository.{link_key, set_used, delete_expired_links}
use common_api.Auth.Service.{
  AuthPlatform, Tokens, request_magic_link, generate_oauth_code, refresh_access_token, logout,
  update_profile, delete_account, validate_oauth_user, generate_tokens,
}
use common_api.Auth.Links.{
  generate_tokens-Calm, UsedIf, IsSpent, LinksEffect, request_magic_link-Effect,
  generate_oauth_code-Effect, delete_expired_links-Effect, validate_oauth_user-Calm,
  refresh_access_token-Calm, logout-Calm, update_profile-Calm, delete_account-Calm,
}
use common_api.Auth.SignIns.{
  SignIn, run_sign_in, link_of_sign_in, found_is_open, sign_in-Outcome, effect_of_sign_in,
}

-- One call of a method that does not sign in with a link, or the passing of time.
pub data OtherStep (p : AuthPlatform) : Accounts → Accounts → Type 0 where
  not_signed_in :
      {s : Accounts} (c : SignIn) (e : Exception)
      → (run_sign_in p c s).0 ≡ err e
      → OtherStep p s (run_sign_in p c s).1
  link_requested :
      {s : Accounts} (app_id email : String) (redirect_url : Option String) (code : String)
      → OtherStep p s (request_magic_link p app_id email redirect_url code s).1
  code_requested :
      {s : Accounts} (id : ℕ) (app_id redirect_uri provider code : String)
      → OtherStep p s (generate_oauth_code p id app_id redirect_uri provider code s).1
  oauth_validated :
      {s : Accounts} (provider : String) (profile : OauthProfile) (app_id : Option String)
      → OtherStep p s (validate_oauth_user p provider profile app_id s).1
  given_tokens :
      {s : Accounts} (u : User) (token : String) → OtherStep p s (generate_tokens p u token s).1
  refreshed : {s : Accounts} (token : String) → OtherStep p s (refresh_access_token p token s).1
  logged_out : {s : Accounts} (token : String) → OtherStep p s (logout p token s).1
  profile_updated :
      {s : Accounts} (id : ℕ) (profile : UserProfile)
      → OtherStep p s (update_profile p id profile s).1
  account_deleted : {s : Accounts} (id : ℕ) → OtherStep p s (delete_account p id s).1
  cleaned_up : {s : Accounts} → OtherStep p s (delete_expired_links p.library s).1
  waited : {s : Accounts} (later : ℕ) → OtherStep p s (record s { now = later })

-- One step of a history, with the number of the link that it signs in with, if it does.
pub data AuthStep (p : AuthPlatform) : Accounts → List ℕ → Accounts → Type 0 where
  signed_in :
      {s : Accounts} (c : SignIn) (t : MagicLinkToken) (tokens : Tokens)
      → link_of_sign_in p c s ≡ some t
      → (run_sign_in p c s).0 ≡ ok tokens
      → AuthStep p s (t.id ∷ []) (run_sign_in p c s).1
  other : {s u : Accounts} → OtherStep p s u → AuthStep p s [] u

-- A history, with the numbers of the links that have signed in, the last one first.
pub data AuthRun (p : AuthPlatform) (s : Accounts) : List ℕ → Accounts → Type 0 where
  start : AuthRun p s [] s
  then_step :
      {past used : List ℕ} {t u : Accounts}
      → AuthRun p s past t
      → AuthStep p t used u
      → AuthRun p s (used ++ past) u

module _ (p : AuthPlatform) where
  effect_of_step : {s u : Accounts} → OtherStep p s u → LinksEffect p s u
  effect_of_step (OtherStep.not_signed_in {s} c e failed) = effect_of_sign_in p c s
  effect_of_step (OtherStep.link_requested {s} app_id email url code) =
      request_magic_link-Effect p app_id email url code s
  effect_of_step (OtherStep.code_requested {s} id app_id uri provider code) =
      generate_oauth_code-Effect p id app_id uri provider code s
  effect_of_step (OtherStep.oauth_validated {s} provider profile app_id) =
      LinksEffect.calm (validate_oauth_user-Calm p provider profile app_id s)
  effect_of_step (OtherStep.given_tokens {s} u token) =
      LinksEffect.calm (generate_tokens-Calm p u token s)
  effect_of_step (OtherStep.refreshed {s} token) =
      LinksEffect.calm (refresh_access_token-Calm p token s)
  effect_of_step (OtherStep.logged_out {s} token) = LinksEffect.calm (logout-Calm p token s)
  effect_of_step (OtherStep.profile_updated {s} id profile) =
      LinksEffect.calm (update_profile-Calm p id profile s)
  effect_of_step (OtherStep.account_deleted {s} id) = LinksEffect.calm (delete_account-Calm p id s)
  effect_of_step (OtherStep.cleaned_up {s}) = delete_expired_links-Effect p s
  effect_of_step (OtherStep.waited {s} later) = LinksEffect.calm (refl, omega arith)

  Below-Effect :
      {s u : Accounts}
      → LinksEffect p s u
      → Below link_key s.next_id s.links
      → Below link_key u.next_id u.links
  Below-Effect {s} {u} (LinksEffect.calm (same, ids)) h =
      subst (Below link_key u.next_id) (sym same)
        (Below-mono link_key s.next_id u.next_id s.links ids h)
  Below-Effect {s} {u} (LinksEffect.inserted t id added ids) h =
      subst (Below link_key u.next_id) (sym added) (
        Below-mono link_key (s.next_id + 1) u.next_id (s.links ++ t ∷ []) (omega (arith, ids))
          (append-Below link_key s.next_id s.links t h id))
  Below-Effect {s} {u} (LinksEffect.marked k now changed ids) h =
      subst (Below link_key u.next_id) (sym changed) (
        Below-mono link_key s.next_id u.next_id _ ids
          (modify-Below link_key s.next_id k (set_used p.library now) s.links (λ r. refl) h))
  Below-Effect {s} {u} (LinksEffect.dropped keep fewer ids) h =
      subst (Below link_key u.next_id) (sym fewer)
        (Below-mono link_key s.next_id u.next_id _ ids (All-select _ keep s.links h))

  set_used-UsedIf :
      (k now j : ℕ) (rows : List MagicLinkToken)
      → All (UsedIf k) rows
      → All (UsedIf k) (modify link_key j (set_used p.library now) rows)
  set_used-UsedIf k now j [] h = tt
  set_used-UsedIf k now j (r ∷ rows) h = (ground (arith, h.0), set_used-UsedIf k now j rows h.1)

  now_used :
      (k now : ℕ) (rows : List MagicLinkToken)
      → All (UsedIf k) (modify link_key k (set_used p.library now) rows)
  now_used k now [] = tt
  now_used k now (r ∷ rows) = (ground arith, now_used k now rows)

  IsSpent-Effect : {s u : Accounts} (k : ℕ) → LinksEffect p s u → IsSpent s k → IsSpent u k
  IsSpent-Effect {s} {u} k (LinksEffect.calm (same, ids)) h = record {
    handed_out = omega (arith, h.handed_out, ids);
    all_used = subst (All (UsedIf k)) (sym same) h.all_used;
  }
  IsSpent-Effect {s} {u} k (LinksEffect.inserted t id added ids) h = record {
    handed_out = omega (arith, h.handed_out, ids);
    all_used =
        subst (All (UsedIf k)) (sym added) (
          All-append (UsedIf k) s.links (t ∷ []) h.all_used (ground (arith, id, h.handed_out), tt));
  }
  IsSpent-Effect {s} {u} k (LinksEffect.marked j now changed ids) h = record {
    handed_out = omega (arith, h.handed_out, ids);
    all_used = subst (All (UsedIf k)) (sym changed) (set_used-UsedIf k now j s.links h.all_used);
  }
  IsSpent-Effect {s} {u} k (LinksEffect.dropped keep fewer ids) h = record {
    handed_out = omega (arith, h.handed_out, ids);
    all_used = subst (All (UsedIf k)) (sym fewer) (All-select (UsedIf k) keep s.links h.all_used);
  }

  -- What every history keeps.
  pub record RunSound (s : Accounts) (used : List ℕ) : Type 0 where
    pub below : Below link_key s.next_id s.links
    pub spent : All (IsSpent s) used
    pub once : Distinct (λ (k : ℕ). k) used

  -- An open link is none of those that are used up.
  not_spent :
      (c : SignIn) (s : Accounts) {t : MagicLinkToken} (used : List ℕ)
      → link_of_sign_in p c s ≡ some t
      → All (IsSpent s) used
      → find? (λ (k : ℕ). k) t.id used ≡ none
  not_spent c s [] found h = refl
  not_spent c s {t = t} (k ∷ used) found h =
      let (is_used_if, open_now) = found_is_open p (UsedIf k) c s h.0.all_used found in
      ground (arith, is_used_if, open_now, not_spent c s {t = t} used found h.1)

  IsSpent-now :
      (c : SignIn) (s : Accounts) (t : MagicLinkToken) (tokens : Tokens)
      → Below link_key s.next_id s.links
      → link_of_sign_in p c s ≡ some t
      → (run_sign_in p c s).0 ≡ ok tokens
      → IsSpent (run_sign_in p c s).1 t.id
  IsSpent-now c s t tokens below found done = elim (sign_in-Outcome p c s) [
    | inl (e, refused) ↦ ground (arith, done, ap (λ r. r.0) refused)
    | inr (t', found', marks) ↦
        let same : t' ≡ t = some_inj.0 (sym found' ∙ found) in
        let (handed_out, _) = found_is_open p (λ r. r.id < s.next_id) c s below found in
        let marked : (run_sign_in p c s).1.links
            ≡ modify link_key t.id (set_used p.library s.now) s.links =
          subst
            (λ (r : MagicLinkToken).
              (run_sign_in p c s).1.links ≡ modify link_key r.id (set_used p.library s.now) s.links)
            same marks.0 in
        record {
          handed_out = omega (arith, handed_out, marks.1);
          all_used = subst (All (UsedIf t.id)) (sym marked) (now_used t.id s.now s.links);
        }
  ]

  RunSound-Effect :
      {s u : Accounts} {past : List ℕ} → LinksEffect p s u → RunSound s past → RunSound u past
  RunSound-Effect {s} {u} {past} e h = record {
    below = Below-Effect e h.below;
    spent = All-map (IsSpent s) (IsSpent u) past (λ k spent. IsSpent-Effect k e spent) h.spent;
    once = h.once;
  }

  RunSound-step :
      {s u : Accounts} {past used : List ℕ}
      → AuthStep p s used u
      → RunSound s past
      → RunSound u (used ++ past)
  RunSound-step (AuthStep.other step) h = RunSound-Effect (effect_of_step step) h
  RunSound-step {past = past} (AuthStep.signed_in {s} c t tokens found done) h =
      let after = RunSound-Effect (effect_of_sign_in p c s) h in
      record {
        below = after.below;
        spent = (IsSpent-now c s t tokens h.below found done, after.spent);
        once = (not_spent c s {t = t} past found h.spent, h.once);
      }

  -- No link and no code signs in twice where calls run one after another: in every such history
  -- from tables whose links carry numbers that have been handed out, the numbers of the links that have signed in are distinct, and
  -- each that is still stored is marked as used.
  pub AuthRun-once :
      {s u : Accounts} {used : List ℕ}
      → AuthRun p s used u
      → Below link_key s.next_id s.links
      → RunSound u used
  AuthRun-once {s} AuthRun.start h = record { below = h; spent = tt; once = tt }
  AuthRun-once (AuthRun.then_step past step) h = RunSound-step step (AuthRun-once past h)
