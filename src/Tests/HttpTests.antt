-- ===== src/Tests/HttpTests.antt =====
-- The filter and the guards at concrete inputs (common).
use Prim.Native.Char.{code}
use common_api.Base.{
  true, ◌==◌, or_default, String, if◌then◌else◌, str_eq, Option, List, ◌≡◌, refl, false, [], ◌∷◌,
  some, none,
}
use common_api.Http.Redirects.{
  Url, ends_with, after_wildcard, origin_of, under_domain, matches_wildcard, matches_domain,
  check_whitelist, validate, SomeAllows, validate-SomeAllows,
}
use common_api.Auth.Service.{Payload}
use common_api.Http.Requests.{
  accepted, sent_away, token_user, Route, Incoming, Request, jwt_validate,
}
use common_api.Http.OauthState.{OauthQuery, StateCodec, StateData}
use common_api.Auth.Entities.{user, app_admin}
use common_api.Http.Filter.{
  text, no_fields, and_field, JsonFields, object_response, http_exception, normalize_exception,
  array, and_item, no_items,
}
use common_api.Http.Guards.{is_wrapped, has_part, tenant_of, roles_allow}

tenants :
    tenant_of (some "ox.example.com") ∷ tenant_of (some ".com") ∷ tenant_of none ∷ []
    ≡ "ox" ∷ "platform" ∷ "platform" ∷ []
unfolding tenant_of
tenants = refl

admins_only :
    roles_allow (some (app_admin ∷ [])) (some user) ∷ roles_allow (some (app_admin ∷ [])) none ∷ []
    ≡ false ∷ false ∷ []
unfolding roles_allow
admins_only = refl

-- The messages of a validation are told as details, and the first of them as the message.
abbrev refused : JsonFields
refused =
    and_field "message" (array (and_item (text "name is required") no_items))
      (and_field "error" (text "Bad Request") no_fields)

validation_told :
    (normalize_exception
      (http_exception "BadRequestException" "Bad Request" 400 (object_response refused))).message
    ≡ "name is required"
unfolding normalize_exception
validation_told = refl

-- Two addresses are known here: the shop's, by its path or its origin, and the base of a pattern.
abbrev parse_url : String → Option Url
parse_url t =
    if str_eq t "https://ox.com"
    then some (record { protocol = "https:"; host = "ox.com"; hostname = "ox.com" })
    else some (record { protocol = "https:"; host = "shop.ox.com:8443"; hostname = "shop.ox.com" })

abbrev patterns : List String
patterns = "https://other.com" ∷ "*.ox.com" ∷ []

validate-SomeAllows_example :
    (u : Url) × (ds : List String) × (parse_url "https://shop.ox.com:8443/x" ≡ some u)
    × (some patterns ≡ some ds)
    × (u.protocol ≡ "https:")
    × SomeAllows parse_url ds u
unfolding validate check_whitelist matches_domain matches_wildcard under_domain ends_with
    after_wildcard origin_of
validate-SomeAllows_example =
    validate-SomeAllows parse_url "https://shop.ox.com:8443/x" (some patterns) refl

wrapped :
    is_wrapped (some "/v1/auth/oauth/google/start")
      ∷ is_wrapped (some "/v1/auth/refresh")
      ∷ is_wrapped none
      ∷ []
    ≡ false ∷ true ∷ true ∷ []
unfolding is_wrapped has_part
wrapped = refl

abbrev admin_token : Payload
admin_token = record { sub = 4; email = "a@x"; app_id = "ox"; role = app_admin }

-- A codec for the states of one app, whose identifier does not begin like a written state.
abbrev decode_state : String → Option StateData
decode_state String.[] = none
decode_state (String.◌∷◌ c uri) =
    if code c == b's' then some (record { app_id = some "ox"; redirect_uri = some uri }) else none

abbrev codec : StateCodec
codec = record {
  encode = λ d. String.◌∷◌ "s" (or_default d.redirect_uri "");
  decode = decode_state;
}

abbrev start_query : OauthQuery
start_query = record {
  app_id = some "ox";
  redirect_uri = some "https://ox";
  code = none;
  state = none;
}

abbrev admin_route : Route
admin_route = record {
  is_public = false;
  roles = some (app_admin ∷ []);
  is_excluded = false;
  has_oauth_guard = false;
}

-- The host and the query name other apps than the token.
abbrev crossing : Incoming String
crossing = record {
  host = some "evil.example.com";
  query = record start_query { app_id = some "evil" };
  passport = accepted admin_token;
  oauth = sent_away;
}

abbrev admin_request : Request String
admin_request = record { app_id = some "ox"; caller = token_user (jwt_validate admin_token) }
