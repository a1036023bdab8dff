-- ===== src/Job/Creation.antt =====
-- JobService, the unified jobs that are made and the failures that are kept
-- (modules/job/job.service.ts). The queue is an argument: it takes a message or refuses it.
-- `instanceToPlain` is a library's, and is taken to keep the fields of a message.
use Prim.Native.String.{◌++◌ as append}
use common_api.Base.{
  ℕ, String, Bool, [], ◌∷◌, ◌++◌, Option, some, none, if◌then◌else◌, truthy, or_default,
}
use common_api.Exceptions.{plain_error}
use common_api.Action.{Result, ok, err, Action}
use common_api.Job.Entities.{
  retrying, ExecutionType, lambda_invoke, lambda_url, rest_api, schedule, JobCreationMode, db, sqs,
  both, ExecutionConfig, UnifiedJobMessage, Job, SentMessage, JobStore,
}
use common_api.Job.Repository.{NewJob, create_job}
use common_api.Job.Processor.{Call, Reply, Platform, process_message}
use common_api.Job.Service.{calculate_next_retry, message_of}

-- The values of the enum `ExecutionType`
unfoldable pub execution_text : ExecutionType → String
execution_text lambda_invoke = "lambda-invoke"
execution_text lambda_url = "lambda-url"
execution_text rest_api = "rest-api"
execution_text schedule = "schedule"

-- `CreateUnifiedJobDto`
pub record UnifiedJobRequest : Type 0 where
  pub app_id : Option String
  pub message : UnifiedJobMessage
  pub mode : Option JobCreationMode

-- The queue's address in the configuration, and whether a sent message is taken.
pub record Queue : Type 0 where
  pub queue_url : Option String
  pub accepts : SentMessage → Bool

-- The row that `createJobInDb` asks for.
abbrev pub new_db_job : UnifiedJobMessage → String → ExecutionConfig → ℕ → NewJob
new_db_job m app_id x now = record {
  app_id = app_id;
  type = none;
  payload = none;
  execution_type = some x.type;
  lambda_proxy_message = m.lambda_proxy_message;
  execution_config = some x;
  message_group_id = some m.metadata.message_group_id;
  idempotency_key = truthy m.metadata.idempotency_key;
  schedule_arn = none;
  status = none;
  retry_count = none;
  max_retries = some 10;
  next_retry_at = some now;
  last_error = none;
}

-- createJobInDb
unfoldable pub create_job_in_db : UnifiedJobMessage → Action JobStore Job
create_job_in_db m s = elim (truthy m.metadata.app_id) [
  | none ↦ (err (plain_error "metadata.appId is required to create a job"), s)
  | some app_id ↦ elim m.execution [
    | none ↦ (err (plain_error "Cannot read properties of undefined"), s)
    | some x ↦ create_job (new_db_job m app_id x s.now) s
  ]
]

-- The row that `saveFailedJobToDb` asks for.
abbrev pub failed_db_job : UnifiedJobMessage → String → ExecutionConfig → ℕ → String → NewJob
failed_db_job m app_id x now message =
    let count = or_default m.metadata.retry_count 0 in
    record {
      app_id = app_id;
      type = none;
      payload = none;
      execution_type = some x.type;
      lambda_proxy_message = m.lambda_proxy_message;
      execution_config = some x;
      message_group_id = some m.metadata.message_group_id;
      idempotency_key = truthy m.metadata.idempotency_key;
      schedule_arn = none;
      status = some retrying;
      retry_count = some count;
      max_retries = some 10;
      next_retry_at = some (calculate_next_retry now count);
      last_error = some message;
    }

-- saveFailedJobToDb; what it throws inside is logged.
unfoldable pub save_failed_job_to_db : UnifiedJobMessage → String → JobStore → JobStore
save_failed_job_to_db m message s = elim (truthy m.metadata.app_id) [
  | none ↦ s
  | some app_id ↦ elim m.execution [
    | none ↦ s
    | some x ↦ (create_job (failed_db_job m app_id x s.now message) s).1
  ]
]

-- processScheduledMessage; `name` is the name that a schedule would have.
unfoldable pub process_scheduled_message :
    Platform → (Call → Reply) → UnifiedJobMessage → String → JobStore → JobStore
process_scheduled_message p answer m name s = elim (process_message p answer m name) [
  | ok _ ↦ s
  | err e ↦ save_failed_job_to_db m (message_of e) s
]

module _ (q : Queue) (number_text : ℕ → String) where
  -- The command that `sendToSqs` sends.
  unfoldable pub sent_message : UnifiedJobMessage → ℕ → SentMessage
  sent_message m now = record {
    message_body = m;
    message_group_id = m.metadata.message_group_id;
    deduplication_id =
        or_default (truthy m.metadata.idempotency_key)
          (append (or_default m.metadata.job_id "undefined") (append "-" (number_text now)));
  }

  -- sendToSqs
  unfoldable pub send_to_sqs : UnifiedJobMessage → Action JobStore (Unit {0})
  unfolding sent_message
  send_to_sqs m s = elim (truthy q.queue_url) [
    | none ↦ (err (plain_error "aws.sqs.queueUrl not configured"), s)
    | some url ↦
        if q.accepts (sent_message m s.now)
        then (ok tt, record s { sent = s.sent ++ sent_message m s.now ∷ [] })
        else (err (plain_error "SQS request failed"), s)
  ]

  -- The message with the metadata that `createUnifiedJob` sets.
  unfoldable pub stamped : UnifiedJobRequest → ExecutionConfig → String → ℕ → UnifiedJobMessage
  stamped r x job_id now =
      let m = r.message in
      record m {
        metadata = record m.metadata {
          job_id = some job_id;
          app_id = some (or_default r.app_id "eb3fcbb2-7bb3-4ac7-aa38-1cb4bf00e405");
          message_group_id = execution_text x.type;
          created_at = now;
          retry_count = some 0;
        };
      }

  -- The `case` of `BOTH`: a transaction that may fail to commit after the message is sent.
  unfoldable pub create_both : Bool → UnifiedJobMessage → Action JobStore (Option Job)
  create_both commits m s =
      let (made, s1) = create_job_in_db m s in
      elim made [
        | err e ↦ (err e, s)
        | ok j ↦
            let (put, s2) = send_to_sqs m s1 in
            elim put [
              | err e ↦ (err e, s)
              | ok _ ↦
                  if commits
                  then (ok (some j), s2)
                  else (err (plain_error "commit failed"), record s { sent = s2.sent })
            ]
      ]

  abbrev pub some_result : {A : Type 0} → Result A × JobStore → Result (Option A) × JobStore
  some_result (ok a, s) = (ok (some a), s)
  some_result (err e, s) = (err e, s)

  abbrev pub none_result :
      {A : Type 0} → Result (Unit {0}) × JobStore → Result (Option A) × JobStore
  none_result (ok _, s) = (ok none, s)
  none_result (err e, s) = (err e, s)

  unfoldable pub create_in_mode :
      JobCreationMode → Bool → UnifiedJobMessage → Action JobStore (Option Job)
  create_in_mode db commits m s = some_result (create_job_in_db m s)
  create_in_mode sqs commits m s = none_result (send_to_sqs m s)
  create_in_mode both commits m s = create_both commits m s

  -- createUnifiedJob, with the identifier that `randomUUID` gives.
  unfoldable pub create_unified_job :
      Bool → String → UnifiedJobRequest → Action JobStore (Option Job)
  create_unified_job commits job_id r s = elim r.message.execution [
    | none ↦ (err (plain_error "Cannot read properties of undefined"), s)
    | some x ↦ create_in_mode (or_default r.mode sqs) commits (stamped r x job_id s.now) s
  ]
