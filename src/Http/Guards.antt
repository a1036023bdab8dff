-- ===== src/Http/Guards.antt =====
-- RolesGuard, IdempotencyGuard (common/guards) and TenantMiddleware (common/middleware).
use Prim.Native.Char.{code}
use common_api.Base.{
  ℕ, String, Bool, true, false, List, [], ◌∷◌, Option, some, none, str_eq, ◌==◌, ◌||◌, ◌&&◌, not,
  if◌then◌else◌, truthy, or_default,
}
use common_api.Exceptions.{conflict}
use common_api.Action.{Result, ok, err}
use common_api.Wallet.Entities.{ResponseBody, Wallet}
use common_api.Wallet.Repository.{find_by_key}
use common_api.Auth.Entities.{UserRole, user, app_operator, app_admin, platform_super_admin}

abbrev pub same_role : UserRole → UserRole → Bool
same_role user user = true
same_role app_operator app_operator = true
same_role app_admin app_admin = true
same_role platform_super_admin platform_super_admin = true
same_role _ _ = false

abbrev pub includes : List UserRole → UserRole → Bool
includes [] r = false
includes (q ∷ qs) r = same_role q r || includes qs r

-- RolesGuard.canActivate, for the roles in the metadata and the role of the request's user.
unfoldable pub roles_allow : Option (List UserRole) → Option UserRole → Bool
roles_allow none r = true
roles_allow (some []) r = true
roles_allow (some (q ∷ qs)) none = false
roles_allow (some (q ∷ qs)) (some r) = includes (q ∷ qs) r

-- What IdempotencyGuard decides: the handler runs, with the key and the hash kept on the request
-- or without, or the stored response is sent.
pub data Decision : Type 0 where
  proceed : Decision
  proceed_with : String → String → Decision
  reply : ℕ → ResponseBody → Decision

-- IdempotencyGuard.canActivate, for the header, the app of the request and the hash of its body.
unfoldable pub idempotency_decision : Option String → Option ℕ → String → Wallet → Result Decision
idempotency_decision header app body_hash w = elim (truthy header) [
  | none ↦ ok proceed
  | some key ↦ elim app [
    | none ↦ ok proceed
    | some app_id ↦ elim (find_by_key app_id key w) [
      | none ↦ ok (proceed_with key body_hash)
      | some k ↦
          if not (str_eq k.request_hash body_hash)
          then err (conflict "Idempotency key reused with different request body")
          else ok (reply k.http_status k.response_body)
    ]
  ]
]

-- `host.split('.')[0]`
unfoldable pub before_dot : String → String
before_dot String.[] = String.[]
before_dot (String.◌∷◌ c s) = if code c == b'.' then String.[] else String.◌∷◌ c (before_dot s)

-- TenantMiddleware.use, for the header `host`
unfoldable pub tenant_of : Option String → String
unfolding before_dot
tenant_of host = or_default (truthy (some (before_dot (or_default host "")))) "platform"

-- RequestIdMiddleware.use, for a header that is absent, a text or a list of texts, and the
-- identifier that `uuidv4` gives; a list is never empty.
pub data IdHeader : Type 0 where
  no_header : IdHeader
  one_header : String → IdHeader
  many_headers : String → List String → IdHeader

unfoldable pub request_id_of : IdHeader → String → String
request_id_of no_header fresh = fresh
request_id_of (one_header t) fresh = or_default (truthy (some t)) fresh
request_id_of (many_headers t _) fresh = t

abbrev starts_with : String → String → Bool
starts_with String.[] t = true
starts_with (String.◌∷◌ c s) String.[] = false
starts_with (String.◌∷◌ c s) (String.◌∷◌ d t) = code c == code d && starts_with s t

-- `text.includes(part)`
unfoldable pub has_part : String → String → Bool
has_part part String.[] = starts_with part String.[]
has_part part (String.◌∷◌ c t) = starts_with part (String.◌∷◌ c t) || has_part part t

-- ResponseInterceptor.intercept: whether a response is put into the common envelope.
unfoldable pub is_wrapped : Option String → Bool
is_wrapped url =
    let address = or_default url "" in
    not (has_part "/oauth/" address && (has_part "/start" address || has_part "/callback" address))
