-- ===== src/Polling/Messages.antt =====
-- What becomes of the fields of a source message
-- (modules/job/services/multi-queue-polling.service.ts).
use Prim.Native.String.{◌++◌ as append}
use common_api.Base.{
  then_get, ◌≡◌, refl, sym, ap, ◌∙◌, String, true, Option, some, none, is_some, truthy, or_default,
}
use common_api.Exceptions.{plain_error}
use common_api.Action.{err}
use common_api.Job.Entities.{rest_api, schedule, LambdaProxyMessage, ExecutionConfig, JobMetadata}
use common_api.Job.Processor.{
  Call, Reply, Platform, process_execution, process_message, execute_schedule,
}
use common_api.Polling.Entities.{object_body, SourceMessage, SqsMessage}
use common_api.Polling.Transform.{
  Generated, transform_message, build_lambda_proxy_message, resolve_body, resolve_headers, path_of,
  http_method_of, resource_of, blank_message, parse_and_validate_message,
}

-- A source message that asks for a schedule is made a message that can never be processed: its
-- schedule expression and its target are dropped.
transform_message_schedule :
    (p : Platform) (answer : Call → Reply) (m : SourceMessage) (queue_name name : String)
    (g : Generated)
    → or_default m.execution_type (or_default (then_get (λ x. x.type) m.execution) rest_api)
      ≡ schedule
    → process_message p answer (transform_message m queue_name g) name
      ≡ err (plain_error "scheduleExpression and targetJob are required for schedule")
unfolding process_message process_execution transform_message execute_schedule
transform_message_schedule p answer m queue_name name g e = rw (e, process_execution) refl

parse_and_validate_message_malformed :
    (parse : String → Option SourceMessage) (x : SqsMessage)
    → parse (or_default (truthy x.body) "{}") ≡ none
    → parse_and_validate_message parse x
      ≡ (record blank_message { raw_body = x.body; body = some (object_body "{}") })
unfolding parse_and_validate_message
parse_and_validate_message_malformed parse x e = rw e refl

-- Two messages whose bodies are not valid are made the same message, with the body "{}": what they
-- held is not in it.
malformed_bodies_lost :
    (parse : String → Option SourceMessage) (x y : SqsMessage) (queue_name : String) (g : Generated)
    → parse (or_default (truthy x.body) "{}") ≡ none
    → parse (or_default (truthy y.body) "{}") ≡ none
    → (transform_message (parse_and_validate_message parse x) queue_name g
        ≡ transform_message (parse_and_validate_message parse y) queue_name g)
      × ((build_lambda_proxy_message (parse_and_validate_message parse x)).body ≡ some "{}")
unfolding transform_message build_lambda_proxy_message parse_and_validate_message resolve_body
    path_of http_method_of resource_of
malformed_bodies_lost parse x y queue_name g e e' =
    let ex = parse_and_validate_message_malformed parse x e in
    let ey = parse_and_validate_message_malformed parse y e' in
    (
      ap (λ m. transform_message m queue_name g) ex
          ∙ sym (ap (λ m. transform_message m queue_name g) ey),
      ap (λ m. (build_lambda_proxy_message m).body) ex,
    )

-- The source message that carries a whole unified message.
abbrev pub as_source : LambdaProxyMessage → ExecutionConfig → JobMetadata → SourceMessage
as_source l x d = record blank_message {
  lambda_proxy_message = some l;
  execution = some (record {
    type = some x.type;
    base_url = x.base_url;
    function_name = x.function_name;
    function_url = x.function_url;
    invocation_type = x.invocation_type;
  });
  metadata = some (record {
    app_id = d.app_id;
    job_id = d.job_id;
    message_group_id = some d.message_group_id;
    idempotency_key = d.idempotency_key;
    retry_count = d.retry_count;
  });
}

-- A unified message of which no text that must be given is empty, which has headers, and which is
-- no schedule.
pub record IsWhole (l : LambdaProxyMessage) (x : ExecutionConfig) (d : JobMetadata) : Type 0 where
  pub path : truthy (some l.path) ≡ some l.path
  pub method : truthy (some l.http_method) ≡ some l.http_method
  pub resource : truthy (some l.resource) ≡ some l.resource
  pub headers : resolve_headers (some l.headers) ≡ l.headers
  pub no_expression : x.schedule_expression ≡ none
  pub no_target : x.target_job ≡ none
  pub group : truthy (some d.message_group_id) ≡ some d.message_group_id
  pub key : truthy d.idempotency_key ≡ d.idempotency_key
  pub has_key : is_some d.idempotency_key ≡ true
  pub counted : is_some d.retry_count ≡ true
