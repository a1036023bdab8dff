-- ===== src/Http/Admission.antt =====
-- What a request that reaches its handler has passed and carries, for the guards of
-- common/guards in the order of app.module.ts.
use common_api.Base.{◌≡◌, ◌⊎◌, true, false, some, none, if◌then◌else◌, truthy, or_default}
use common_api.Auth.Service.{Payload}
use common_api.Http.Guards.{roles_allow, tenant_of}
use common_api.Http.OauthState.{StateCodec}
use common_api.Http.Requests.{
  jwt_validate, accepted, signed, Route, Incoming, nobody, token_user, oauth_user, Request,
  Admission, admitted, options_app,
}

module _ {Profile : Type 0} (codec : StateCodec) where
  -- A token that was accepted, in a role that the handler asks for.
  pub record HasToken (route : Route) (i : Incoming Profile) (t : Payload) : Type 0 where
    pub accepts : i.passport ≡ accepted t
    pub allowed : roles_allow route.roles (some t.role) ≡ true

  -- What a request carries to its handler.
  pub data Carries (route : Route) (i : Incoming Profile) (r : Request Profile) : Type 0 where
    from_provider :
        (profile : Profile)
        → route.has_oauth_guard ≡ true
        → i.oauth ≡ signed profile
        → r.caller ≡ oauth_user profile
        → r.app_id ≡ some (options_app codec i)
        → Carries route i r
    from_token :
        (t : Payload)
        → route.has_oauth_guard ≡ false
        → route.is_public ≡ false
        → HasToken route i t
        → r.caller ≡ token_user (jwt_validate t)
        → r.app_id ≡ some (or_default (truthy (some t.app_id)) (options_app codec i))
        → Carries route i r
    anonymous :
        route.has_oauth_guard ≡ false
        → route.is_public ≡ true
        → r.caller ≡ nobody
        → r.app_id ≡ (if route.is_excluded then none else some (tenant_of i.host))
        → Carries route i r

  -- The handler is public and asks for no role, or a token was accepted in a role that it asks for.
  abbrev pub IsChecked : Route → Incoming Profile → Type 0
  IsChecked route i =
      ((route.is_public ≡ true) × (roles_allow route.roles none ≡ true))
      ⊎ ((route.is_public ≡ false) × ((t : Payload) × HasToken route i t))

  abbrev with_token : Incoming Profile → Payload → Request Profile
  with_token i t = record {
    app_id = some (or_default (truthy (some t.app_id)) (options_app codec i));
    caller = token_user (jwt_validate t);
  }

  request_of : Request Profile → Admission Profile → Request Profile
  request_of r (admitted q) = q
  request_of r _ = r
