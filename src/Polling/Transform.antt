-- ===== src/Polling/Transform.antt =====
-- From a source message to a unified one
-- (modules/job/services/multi-queue-polling.service.ts). The texts of random identifiers and of
-- the time are arguments, and so are the parsing and the validation of a body.
use Prim.Native.Char.{code}
use Prim.Native.String.{◌++◌ as append}
use common_api.Base.{
  then_get, then_map, text_or, ℕ, zero, suc, String, false, [], ◌∷◌, Option, some, none, ◌==◌,
  if◌then◌else◌, truthy, or_else, or_default,
}
use common_api.Job.Entities.{rest_api, JsonObject, LambdaProxyMessage, UnifiedJobMessage}
use common_api.Polling.Entities.{SourceBody, text_body, object_body, SourceMessage, SqsMessage}

-- `a || b` on numbers.
abbrev pub number_or : Option ℕ → ℕ → ℕ
number_or none n = n
number_or (some zero) n = n
number_or (some (suc m)) n = suc m

-- resolveBody
unfoldable pub resolve_body : Option SourceBody → Option String → Option String
resolve_body (some (text_body t)) raw = some t
resolve_body (some (object_body t)) raw = some t
resolve_body none raw = truthy raw

-- resolveHeaders
unfoldable pub resolve_headers : Option JsonObject → JsonObject
resolve_headers (some (h ∷ hs)) = h ∷ hs
resolve_headers _ = ("Content-Type", "application/json") ∷ []

-- `path.replace(/^\//, "")`
unfoldable pub drop_slash : String → String
drop_slash String.[] = String.[]
drop_slash (String.◌∷◌ c s) = if code c == b'/' then s else String.◌∷◌ c s

-- `providedMessage?.body ?? sourceMessage.body`
abbrev pub body_of : SourceMessage → Option SourceBody
body_of m = or_else (then_get (λ p. then_map text_body p.body) m.lambda_proxy_message) m.body

unfoldable pub path_of : SourceMessage → String
path_of m = or_default (truthy (then_map (λ p. p.path) m.lambda_proxy_message)) (
    or_default (truthy m.path) (or_default (truthy (then_get (λ c. c.path) m.request_context)) "/"))

unfoldable pub http_method_of : SourceMessage → String
http_method_of m =
    or_default (truthy (then_map (λ p. p.http_method) m.lambda_proxy_message))
      (or_default (truthy m.http_method) (or_default (truthy m.method) "POST"))

unfoldable pub resource_of : SourceMessage → String
resource_of m = or_default (truthy (then_map (λ p. p.resource) m.lambda_proxy_message)) (
    or_default (truthy m.resource)
      (or_default (truthy (then_get (λ c. c.resource_path) m.request_context)) "/{proxy+}"))

-- buildLambdaProxyMessage
unfoldable pub build_lambda_proxy_message : SourceMessage → LambdaProxyMessage
build_lambda_proxy_message m =
    let provided = m.lambda_proxy_message in
    record {
      body = resolve_body (body_of m) m.raw_body;
      resource = resource_of m;
      path = path_of m;
      http_method = http_method_of m;
      is_base64_encoded =
          or_default (then_map (λ p. p.is_base64_encoded) provided)
            (or_default m.is_base64_encoded false);
      path_parameters =
          or_default (then_map (λ p. p.path_parameters) provided)
            (or_default m.path_parameters (("proxy", drop_slash (path_of m)) ∷ []));
      query_string_parameters =
          or_else (then_get (λ p. p.query_string_parameters) provided) m.query_string_parameters;
      headers = resolve_headers (or_else (then_map (λ p. p.headers) provided) m.headers);
      request_context = or_default (then_map (λ p. p.request_context) provided) (record {
        path = path_of m;
        resource_path = resource_of m;
        http_method = http_method_of m;
      });
    }

-- What one call of `transformMessage` is given by `randomUUID`, the clock and `Date.now()`.
pub record Generated : Type 0 where
  pub job_id : String
  pub key_suffix : String
  pub now : ℕ

-- transformMessage; it has no fields for a schedule.
unfoldable pub transform_message : SourceMessage → String → Generated → UnifiedJobMessage
transform_message m queue_name g = record {
  lambda_proxy_message = some (build_lambda_proxy_message m);
  execution = some (record {
    type = or_default m.execution_type (or_default (then_get (λ x. x.type) m.execution) rest_api);
    base_url = text_or m.base_url (then_get (λ x. x.base_url) m.execution);
    function_name = text_or m.function_name (then_get (λ x. x.function_name) m.execution);
    function_url = text_or m.function_url (then_get (λ x. x.function_url) m.execution);
    invocation_type = or_else m.invocation_type (then_get (λ x. x.invocation_type) m.execution);
    schedule_expression = none;
    target_job = none;
  });
  metadata = record {
    job_id = some (or_default (truthy m.job_id) g.job_id);
    app_id = text_or m.app_id (then_get (λ d. d.app_id) m.metadata);
    message_group_id =
        or_default (truthy m.message_group_id)
          (or_default (truthy (then_get (λ d. d.message_group_id) m.metadata)) queue_name);
    idempotency_key = some (
        or_default (truthy m.idempotency_key) (
          or_default (truthy (then_get (λ d. d.idempotency_key) m.metadata))
            (append queue_name (append "-" g.key_suffix))));
    created_at = g.now;
    retry_count =
        some (number_or m.retry_count (number_or (then_get (λ d. d.retry_count) m.metadata) 0));
  };
}

-- A source message with no field set.
abbrev pub blank_message : SourceMessage
blank_message = record {
  lambda_proxy_message = none;
  body = none;
  path = none;
  method = none;
  http_method = none;
  resource = none;
  is_base64_encoded = none;
  path_parameters = none;
  execution_type = none;
  base_url = none;
  function_name = none;
  function_url = none;
  invocation_type = none;
  app_id = none;
  job_id = none;
  message_group_id = none;
  idempotency_key = none;
  retry_count = none;
  query_string_parameters = none;
  headers = none;
  request_context = none;
  execution = none;
  metadata = none;
  raw_body = none;
}

-- parseAndValidateMessage; `parse` gives a message only where the text is JSON that is valid.
unfoldable pub parse_and_validate_message :
    (String → Option SourceMessage) → SqsMessage → SourceMessage
parse_and_validate_message parse m =
    or_default (parse (or_default (truthy m.body) "{}"))
      (record blank_message { raw_body = m.body; body = some (object_body "{}") })
