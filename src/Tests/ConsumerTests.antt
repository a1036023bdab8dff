-- ===== src/Tests/ConsumerTests.antt =====
-- The consumer of the main queue at concrete inputs (modules/job/job.service.ts).
use common_api.Base.{
  ℕ, ◌+◌, ◌≡◌, refl, String, true, false, if◌then◌else◌, ◌==◌, [], ◌∷◌, some, none, length, str_eq,
}
use common_api.Base.Table.{find?}
use common_api.Action.{ok}
use common_api.Exceptions.{plain_error}
use common_api.Job.Entities.{rest_api, ExecutionConfig, LambdaProxyMessage, UnifiedJobMessage}
use common_api.Job.Repository.{job_of}
use common_api.Job.Processor.{
  status_code, process_message, execute_rest_api, process_execution, check_2xx,
}
use common_api.Job.Consumer.{
  ValidationErrors, no_errors, and_error, invalid, format_validation_errors, join_messages,
  push_text, error_messages, messages_of_error, MainQueue, ConsumerPlatform,
  parse_and_validate_job_message, consume_messages, consume_one, consume_message,
}
use common_api.Job.Consumption.{
  Consumed, consume_messages-Consumed, repeated, redelivered, outcome_of,
}
use common_api.Polling.Entities.{SqsMessage}
use common_api.Polling.Delivery.{receipt}

-- An error with a child that has a constraint, and one without any.
abbrev bad_fields : ValidationErrors
bad_fields =
    and_error
      (invalid none (and_error (invalid (some ("path must be a string" ∷ [])) no_errors) no_errors))
      (and_error (invalid (some ("metadata must be an object" ∷ [])) no_errors) no_errors)

formatted :
    format_validation_errors bad_fields ≡ "path must be a string; metadata must be an object"
unfolding format_validation_errors join_messages push_text error_messages messages_of_error
formatted = refl

abbrev proxy : LambdaProxyMessage
proxy = record {
  body = some "{}";
  resource = "/{proxy+}";
  path = "/jobs";
  http_method = "POST";
  is_base64_encoded = false;
  path_parameters = [];
  query_string_parameters = none;
  headers = [];
  request_context = record { path = "/jobs"; resource_path = "/{proxy+}"; http_method = "POST" };
}

abbrev call_rest : ExecutionConfig
call_rest = record {
  type = rest_api;
  function_name = none;
  invocation_type = none;
  function_url = none;
  base_url = some "https://api.example.com";
  schedule_expression = none;
  target_job = none;
}

abbrev unified : UnifiedJobMessage
unified = record {
  lambda_proxy_message = some proxy;
  execution = some call_rest;
  metadata = record {
    job_id = some "j";
    app_id = some "eb3fcbb2-7bb3-4ac7-aa38-1cb4bf00e405";
    idempotency_key = none;
    message_group_id = "rest-api";
    created_at = 0;
    retry_count = none;
  };
}

abbrev message : ℕ → String → SqsMessage
message receipt text = record { receipt_handle = receipt; body = some text }

-- The text "bad" fails its validation, and the call of the second message is refused.
abbrev consumer : ConsumerPlatform
consumer = record {
  queue_url = some "https://main";
  platform = record {
    scheduler_role_arn = none;
    scheduler_target_url = none;
    valid_url = λ _. true;
    valid_json = λ _. true;
  };
  instance_of = λ text. (unified, (if str_eq text "bad" then bad_fields else no_errors));
  answer = λ m call. status_code (if m.receipt_handle == 2 then 500 else 200) none;
  schedule_name = λ _. "s";
  deletes = λ _. true;
  receive = λ _ ms. ok ms;
}

abbrev main_queue : MainQueue
main_queue = record {
  waiting = message 1 "one" ∷ message 2 "two" ∷ message 3 "bad" ∷ [];
  store = record {
    jobs = [];
    apps = [];
    takes_job = λ j. str_eq j.app_id "eb3fcbb2-7bb3-4ac7-aa38-1cb4bf00e405";
    next_id = 1;
    now = 5;
    sent = [];
  };
}

one_done : (consume_messages consumer main_queue.waiting 0 main_queue).0 ≡ 1
unfolding consume_messages consume_one consume_message parse_and_validate_job_message
    process_message process_execution execute_rest_api check_2xx
one_done = refl

consume_messages-Consumed_example :
    let (n, s) = consume_messages consumer main_queue.waiting 0 main_queue in
    Consumed consumer main_queue.waiting 0 main_queue n s
consume_messages-Consumed_example =
    consume_messages-Consumed consumer main_queue.waiting 0 main_queue

redelivered_example :
    let (n, s) = consume_messages consumer (repeated consumer 2 (message 2 "two")) 0 main_queue in
    (n ≡ 0)
    × (length s.store.jobs ≡ length main_queue.store.jobs + 2)
    × ((r : ℕ) → find? receipt r s.waiting ≡ find? receipt r main_queue.waiting)
unfolding job_of outcome_of parse_and_validate_job_message process_message process_execution
    execute_rest_api check_2xx
redelivered_example =
    redelivered consumer 2 (message 2 "two") main_queue {u = unified}
      {e = plain_error "Request failed with status code"}
      {app = "eb3fcbb2-7bb3-4ac7-aa38-1cb4bf00e405"} {x = call_rest} refl refl refl refl
      (λ id. refl)
