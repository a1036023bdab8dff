-- ===== src/Auth/SignIns.antt =====
-- The three ways to sign in with a link or a code, and what each does to the links
-- (modules/auth/auth.service.ts).
use mathlib.Core.Path.{subst}
use common_api.Base.{
  ◌≤◌, ◌≡◌, ◌⊎◌, sym, ap, false, Option, some, String, inl, inr, Bool-cases, Option-cases, All,
  arith,
}
use common_api.Base.Table.{modify}
use common_api.Exceptions.{Exception, unauthorized}
use common_api.Action.{err, Action}
use common_api.Auth.Entities.{MagicLinkToken, Accounts}
use common_api.Auth.Repository.{
  link_key, set_used, is_open, has_code, find_by_token, find_by_email_and_code,
  find_oauth_code_by_hash,
}
use common_api.Auth.Service.{
  AuthPlatform, Tokens, verify_magic_link_by_token, verify_magic_link_by_code, verify_token,
  has_expired, redirect_differs, redeem, find_or_create_user, account_of,
}
use common_api.Auth.Links.{
  find_last-All, LinksEffect, redeem_marks, find_or_create_user-Calm, account_of-Calm,
}

-- The three ways to sign in with a link or a code, each with the refresh token that is generated.
pub data SignIn : Type 0 where
  by_token : String → String → SignIn
  by_code : String → String → String → String → SignIn
  by_verify : String → Option String → String → SignIn

module _ (p : AuthPlatform) where
  abbrev pub run_sign_in : SignIn → Action Accounts Tokens
  run_sign_in (by_token link token) = verify_magic_link_by_token p link token
  run_sign_in (by_code app_id email code token) =
      verify_magic_link_by_code p app_id email code token
  run_sign_in (by_verify code uri token) = verify_token p code uri token

  -- The link that a call finds.
  abbrev pub link_of_sign_in : SignIn → Accounts → Option MagicLinkToken
  link_of_sign_in (by_token link token) s = find_by_token p.library link s
  link_of_sign_in (by_code app_id email code token) s =
      find_by_email_and_code p.library app_id email code s
  link_of_sign_in (by_verify code uri token) s = find_oauth_code_by_hash p.library code s

  -- A link that is found stands in the table and is open.
  pub found_is_open :
      (P : MagicLinkToken → Type 0) (c : SignIn) (s : Accounts) {t : MagicLinkToken}
      → All P s.links
      → link_of_sign_in c s ≡ some t
      → P t × (t.is_used ≡ false)
  unfolding find_by_token find_by_email_and_code find_oauth_code_by_hash
  found_is_open P (by_token link token) s {t = t} h e =
      let (held, open_now) =
        find_last-All P (is_open p.library (p.library.hash link)) s.links h e in
      (held, ground (arith, open_now))
  found_is_open P (by_code app_id email code token) s {t = t} h e =
      let (held, open_now) = find_last-All P (has_code p.library app_id email code) s.links h e in
      (held, ground (arith, open_now))
  found_is_open P (by_verify code uri token) s {t = t} h e =
      let (held, open_now) =
        find_last-All P (is_open p.library (p.library.hash code)) s.links h e in
      (held, ground (arith, open_now))

  -- What a call does: it is refused and nothing changes, or it has found a link and marks it.
  abbrev pub Marks : MagicLinkToken → Accounts → Accounts → Type 0
  Marks t s s' =
      (s'.links ≡ modify link_key t.id (set_used p.library s.now) s.links)
      × (s.next_id ≤ s'.next_id)

  abbrev pub Outcome : SignIn → Accounts → Type 0
  Outcome c s =
      ((e : Exception) × (run_sign_in c s ≡ (err e, s)))
      ⊎ ((t : MagicLinkToken) × (link_of_sign_in c s ≡ some t) × Marks t s (run_sign_in c s).1)

  pub sign_in-Outcome : (c : SignIn) (s : Accounts) → Outcome c s
  unfolding verify_magic_link_by_token verify_magic_link_by_code verify_token
  sign_in-Outcome (by_token link token) s = elim (Option-cases (find_by_token p.library link s)) [
    | inl e ↦ inl (unauthorized "Invalid or expired magic link token", ground (arith, e))
    | inr (t, e) ↦ elim (Bool-cases (has_expired t.expires_at s)) [
      | inl old ↦ inl (unauthorized "Magic link has expired", ground (arith, e, old))
      | inr fresh ↦
          let find_account = find_or_create_user p t.app_id t.email in
          let same : verify_magic_link_by_token p link token s ≡ redeem p t find_account token s =
            ground (arith, e, fresh) in
          inr (
            t,
            e,
            subst (λ r. Marks t s r.1) (sym same)
                (redeem_marks p t find_account token s
                  (find_or_create_user-Calm p t.app_id t.email)),
          )
    ]
  ]
  sign_in-Outcome (by_code app_id email code token) s =
      elim (Option-cases (find_by_email_and_code p.library app_id email code s)) [
        | inl e ↦ inl (unauthorized "Invalid or expired verification code", ground (arith, e))
        | inr (t, e) ↦ elim (Bool-cases (has_expired t.expires_at s)) [
          | inl old ↦ inl (unauthorized "Verification code has expired", ground (arith, e, old))
          | inr fresh ↦
              let find_account = find_or_create_user p app_id email in
              let same : verify_magic_link_by_code p app_id email code token s
                  ≡ redeem p t find_account token s =
                ground (arith, e, fresh) in
              inr (
                t,
                e,
                subst (λ r. Marks t s r.1) (sym same)
                    (redeem_marks p t find_account token s
                      (find_or_create_user-Calm p app_id email)),
              )
        ]
      ]
  sign_in-Outcome (by_verify code uri token) s =
      elim (Option-cases (find_oauth_code_by_hash p.library code s)) [
        | inl e ↦ inl (unauthorized "Invalid or expired token", ground (arith, e))
        | inr (t, e) ↦ elim (Bool-cases (has_expired t.expires_at s)) [
          | inl old ↦ inl (unauthorized "Token has expired", ground (arith, e, old))
          | inr fresh ↦ elim (Bool-cases t.is_used) [
            | inl used ↦ inl (unauthorized "Token already used", ground (arith, e, fresh, used))
            | inr unused ↦ elim (Bool-cases (redirect_differs p t uri)) [
              | inl other ↦ inl (
                unauthorized "redirect_uri does not match",
                ground (arith, e, fresh, unused, other),
              )
              | inr meant ↦
                  let same : verify_token p code uri token s ≡ redeem p t (account_of p t) token s =
                    ground (arith, e, fresh, unused, meant) in
                  inr (
                    t,
                    e,
                    subst (λ r. Marks t s r.1) (sym same)
                        (redeem_marks p t (account_of p t) token s (account_of-Calm p t)),
                  )
            ]
          ]
        ]
      ]

  pub effect_of_sign_in : (c : SignIn) (s : Accounts) → LinksEffect p s (run_sign_in c s).1
  effect_of_sign_in c s = elim (sign_in-Outcome c s) [
    | inl (e, refused) ↦
        LinksEffect.calm
          (ap (λ r. r.1.links) refused, ground (arith, ap (λ r. r.1.next_id) refused))
    | inr (t, found, marks) ↦ LinksEffect.marked t.id s.now marks.0 marks.1
  ]
