-- ===== src/Tests/PollingTests.antt =====
-- Polling at concrete inputs (modules/job/services/multi-queue-polling.service.ts).
use common_api.Base.{
  str_eq, if◌then◌else◌, ◌≡◌, refl, String, true, false, [], ◌∷◌, Option, some, none,
}
use common_api.Action.{ok}
use common_api.Job.Entities.{schedule, rest_api, LambdaProxyMessage, ExecutionConfig, JobMetadata}
use common_api.Job.Processor.{Call, Reply, status_code, Platform}
use common_api.Polling.Entities.{SourceMessage, SqsMessage, Queues}
use common_api.Polling.Transform.{Generated, blank_message}
use common_api.Polling.Service.{
  PollPlatform, poll_messages, poll_one, forward_one, forward_to_main_queue, delete_message,
}
use common_api.Polling.Delivery.{Kept, poll_messages-Kept}

abbrev generated : Generated
generated = record { job_id = "u"; key_suffix = "1"; now = 5 }

-- A reader of two bodies.
abbrev parse : String → Option SourceMessage
parse text =
    if str_eq text "{\"jobId\":\"a\"}"
    then some
        (record blank_message { job_id = some "a"; base_url = some "https://api.example.com" })
    else if str_eq text "{\"jobId\":\"b\"}"
    then some
        (record blank_message { job_id = some "b"; base_url = some "https://api.example.com" })
    else none

abbrev first : SqsMessage
first = record { receipt_handle = 1; body = some "{\"jobId\":\"a\"}" }

abbrev second : SqsMessage
second = record { receipt_handle = 2; body = some "{\"jobId\":\"b\"}" }

abbrev platform : PollPlatform
platform = record {
  main_queue = record { queue_url = some "https://main"; accepts = λ _. true };
  number_text = λ _. "0";
  parse = parse;
  generated = λ _. generated;
  generated_again = λ _. generated;
  new_job_id = λ _. "v";
  deletes = λ _. true;
  receive = λ _ ms. ok ms;
}

abbrev queues : Queues
queues = record {
  source = first ∷ second ∷ [];
  store = record { jobs = []; apps = []; takes_job = λ _. true; next_id = 1; now = 5; sent = [] };
}

both_forwarded : (poll_messages platform "ox" (first ∷ second ∷ []) 0 queues).0 ≡ 2
unfolding poll_messages poll_one forward_one forward_to_main_queue delete_message
both_forwarded = refl

poll_messages-Kept_example :
    let (n, s) = poll_messages platform "ox" (first ∷ second ∷ []) 0 queues in
    Kept platform "ox" (first ∷ second ∷ []) 0 queues n s
poll_messages-Kept_example =
    poll_messages-Kept platform "ox" (first ∷ second ∷ []) 0 queues (refl, (refl, tt))

abbrev job_platform : Platform
job_platform = record {
  scheduler_role_arn = some "role";
  scheduler_target_url = some "arn";
  valid_url = λ _. true;
  valid_json = λ _. true;
}

abbrev answer : Call → Reply
answer call = status_code 200 none

abbrev schedule_message : SourceMessage
schedule_message = record blank_message { execution_type = some schedule }

abbrev proxy : LambdaProxyMessage
proxy = record {
  body = none;
  resource = "/{proxy+}";
  path = "/jobs";
  http_method = "POST";
  is_base64_encoded = false;
  path_parameters = [];
  query_string_parameters = none;
  headers = ("Accept", "text/plain") ∷ [];
  request_context = record { path = "/jobs"; resource_path = "/{proxy+}"; http_method = "POST" };
}

abbrev rest_config : ExecutionConfig
rest_config = record {
  type = rest_api;
  function_name = none;
  invocation_type = none;
  function_url = none;
  base_url = some "https://api.example.com";
  schedule_expression = none;
  target_job = none;
}

abbrev metadata : JobMetadata
metadata = record {
  job_id = some "j";
  app_id = some "a";
  idempotency_key = some "key";
  message_group_id = "group";
  created_at = 1;
  retry_count = some 3;
}
