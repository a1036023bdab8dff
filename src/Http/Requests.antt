-- ===== src/Http/Requests.antt =====
-- The way of a request to its handler: TenantMiddleware, JwtAuthGuard with JwtStrategy.validate,
-- RolesGuard and the Passport guard of a handler of its own, in the order of app.module.ts (common,
-- modules/auth/strategies/jwt.strategy.ts). What Passport makes of the request is an argument.
use common_api.Base.{
  ℕ, String, Bool, List, Option, some, none, if◌then◌else◌, truthy, or_default, or_else,
}
use common_api.Auth.Entities.{UserRole}
use common_api.Auth.Service.{Payload}
use common_api.Http.Guards.{roles_allow, tenant_of}
use common_api.Http.OauthState.{OauthQuery, StateCodec, get_authenticate_options}

-- `AuthenticatedUser`
pub record AuthenticatedUser : Type 0 where
  pub id : ℕ
  pub email : String
  pub app_id : String
  pub role : UserRole

-- JwtStrategy.validate
unfoldable pub jwt_validate : Payload → AuthenticatedUser
jwt_validate t = record { id = t.sub; email = t.email; app_id = t.app_id; role = t.role }

-- What Passport hands to `handleRequest`: the payload of a token that it accepts, or the message of
-- its error, if it has one.
pub data PassportResult : Type 0 where
  accepted : Payload → PassportResult
  failed : Option String → PassportResult

-- What an OAuth strategy of Passport does: it sends the client to its provider, gives a profile, or
-- fails.
pub data OauthResult (Profile : Type 0) : Type 0 where
  sent_away : OauthResult Profile
  signed : Profile → OauthResult Profile
  refused : OauthResult Profile

-- The metadata of a handler and of its class, whether the middleware leaves its path out, and
-- whether it has a Passport guard of its own, as the four OAuth handlers have.
pub record Route : Type 0 where
  pub is_public : Bool
  pub roles : Option (List UserRole)
  pub is_excluded : Bool
  pub has_oauth_guard : Bool

-- What the request says of itself, and what Passport makes of it.
pub record Incoming (Profile : Type 0) : Type 0 where
  pub host : Option String
  pub query : OauthQuery
  pub passport : PassportResult
  pub oauth : OauthResult Profile

-- `req.user`
pub data Caller (Profile : Type 0) : Type 0 where
  nobody : Caller Profile
  token_user : AuthenticatedUser → Caller Profile
  oauth_user : Profile → Caller Profile

-- The fields of a request that the guards set.
pub record Request (Profile : Type 0) : Type 0 where
  pub app_id : Option String
  pub caller : Caller Profile

-- A request reaches its handler, is refused with 401 and a message, or with 403, or redirected.
pub data Admission (Profile : Type 0) : Type 0 where
  admitted : Request Profile → Admission Profile
  unauthenticated : String → Admission Profile
  forbidden : Admission Profile
  redirected : Admission Profile

module _ {Profile : Type 0} (codec : StateCodec) where
  -- JwtAuthGuard.handleRequest
  unfoldable pub handle_request : PassportResult → Request Profile → Admission Profile
  unfolding jwt_validate
  handle_request (failed info) r =
      unauthenticated (or_default info "Invalid or missing authentication token")
  handle_request (accepted t) r =
      let u = jwt_validate t in
      admitted
        (record { app_id = or_else (truthy (some u.app_id)) r.app_id; caller = token_user u })

  -- The app that getAuthenticateOptions of the Passport guards sets on a request.
  abbrev pub options_app : Incoming Profile → String
  options_app i = (get_authenticate_options codec i.query).app_id

  -- JwtAuthGuard.canActivate
  unfoldable pub jwt_guard : Route → Incoming Profile → Request Profile → Admission Profile
  jwt_guard route i r =
      if route.is_public
      then admitted r
      else handle_request i.passport (record r { app_id = some (options_app i) })

  abbrev pub role_of : Caller Profile → Option UserRole
  role_of (token_user u) = some u.role
  role_of _ = none

  abbrev pub roles_guard : Route → Admission Profile → Admission Profile
  roles_guard route (admitted r) =
      if roles_allow route.roles (role_of r.caller) then admitted r else forbidden
  roles_guard route other = other

  -- canActivate of the guard that an OAuth handler has.
  unfoldable pub oauth_guard : Route → Incoming Profile → Request Profile → Admission Profile
  oauth_guard route i r =
      if route.has_oauth_guard
      then elim i.oauth [
        | sent_away ↦ redirected
        | refused ↦ unauthenticated "Unauthorized"
        | signed profile ↦
            admitted (record { app_id = some (options_app i); caller = oauth_user profile })
      ]
      else admitted r

  abbrev pub own_guard : Route → Incoming Profile → Admission Profile → Admission Profile
  own_guard route i (admitted r) = oauth_guard route i r
  own_guard route i other = other

  abbrev pub arriving : Route → Incoming Profile → Request Profile
  arriving route i = record {
    app_id = if route.is_excluded then none else some (tenant_of i.host);
    caller = nobody;
  }

  -- The middleware and the guards of AppModule, and the guard of the handler.
  unfoldable pub admit : Route → Incoming Profile → Admission Profile
  admit route i = own_guard route i (roles_guard route (jwt_guard route i (arriving route i)))
