-- ===== src/Job/Callbacks.antt =====
-- Callback jobs and the signature of their requests (modules/job/job.service.ts,
-- common/utils/hmac.util.ts). The keyed hash of `crypto`, `toUpperCase` and the text of a number
-- are arguments.
use Prim.Native.String.{◌++◌ as append}
use common_api.Base.{ℕ, ◌/◌, String, List, Option, some, none, truthy, or_default, [], ◌∷◌}
use common_api.Exceptions.{plain_error, not_found}
use common_api.Action.{err, Action}
use common_api.Job.Entities.{callback_http, JsonObject, CallbackJobPayload, Job, JobStore}
use common_api.Job.Repository.{NewJob, create_job, find_app}

-- What `createCallbackJob` is given as `payload`; the body is the text of its JSON.
pub record CallbackRequest : Type 0 where
  pub method : String
  pub path : String
  pub body : Option String
  pub headers : Option JsonObject
  pub expected_statuses : Option (List ℕ)

pub record Signer : Type 0 where
  pub hmac : String → String → String
  pub to_upper_case : String → String
  pub number_text : ℕ → String

-- buildCanonicalString
unfoldable pub build_canonical_string : Signer → String → String → Option String → ℕ → String
build_canonical_string g method path body timestamp = append (g.to_upper_case method) (
    append "\n" (
      append path
        (append "\n" (append (or_default body "{}") (append "\n" (g.number_text timestamp))))))

-- signRequest
unfoldable pub sign_request : Signer → String → String → String
sign_request g secret canonical = g.hmac secret canonical

-- The payload with its signature.
unfoldable pub signed_payload : Signer → String → CallbackRequest → ℕ → CallbackJobPayload
unfolding build_canonical_string sign_request
signed_payload g secret r timestamp = record {
  method = r.method;
  path = r.path;
  body = r.body;
  headers = or_default r.headers [];
  expected_statuses = or_default r.expected_statuses (200 ∷ 201 ∷ []);
  hmac_signature =
      sign_request g secret (build_canonical_string g r.method r.path r.body timestamp);
  hmac_timestamp = timestamp;
}

abbrev pub callback_job : String → CallbackJobPayload → ℕ → NewJob
callback_job app_id c now = record {
  app_id = app_id;
  type = some callback_http;
  payload = some c;
  execution_type = none;
  lambda_proxy_message = none;
  execution_config = none;
  message_group_id = none;
  idempotency_key = none;
  schedule_arn = none;
  status = none;
  retry_count = none;
  max_retries = some 10;
  next_retry_at = some now;
  last_error = none;
}

-- createCallbackJob; its key for deduplication is not used.
unfoldable pub create_callback_job : Signer → String → CallbackRequest → Action JobStore Job
unfolding signed_payload
create_callback_job g app_id r s = elim (find_app app_id s.apps) [
  | none ↦ (err (not_found "App not found"), s)
  | some app ↦ elim (truthy app.callback_base_url) [
    | none ↦ (err (plain_error "App callback configuration incomplete"), s)
    | some url ↦ elim (truthy app.callback_secret_ref) [
      | none ↦ (err (plain_error "App callback configuration incomplete"), s)
      | some secret ↦
          create_job (callback_job app_id (signed_payload g secret r (s.now / 1000)) s.now) s
    ]
  ]
]
