-- ===== src/Job/Entities.antt =====
-- The rows and messages of the job system (database/entities/job.entity.ts, app.entity.ts,
-- modules/job/dto/unified-job-message.dto.ts, create-job.dto.ts) and the enums in them.
-- Dates are milliseconds; a JSON object of texts is a list of pairs, other JSON is its text.
use common_api.Base.{ℕ, String, Bool, Option, List}

-- `JobStatus`
pub data JobStatus : Type 0 where
  pending retrying succeeded failed dead : JobStatus

-- `JobType`
pub data JobType : Type 0 where
  callback_http reward_grant : JobType

-- `ExecutionType`
pub data ExecutionType : Type 0 where
  lambda_invoke lambda_url rest_api schedule : ExecutionType

-- `InvocationType` of @aws-sdk/client-lambda
pub data InvocationType : Type 0 where
  event request_response dry_run : InvocationType

-- `JobCreationMode`
pub data JobCreationMode : Type 0 where
  db sqs both : JobCreationMode

abbrev pub JsonObject : Type 0
JsonObject = List (String × String)

pub record RequestContext : Type 0 where
  pub path : String
  pub resource_path : String
  pub http_method : String

-- `LambdaProxyMessageDto`
pub record LambdaProxyMessage : Type 0 where
  pub body : Option String
  pub resource : String
  pub path : String
  pub http_method : String
  pub is_base64_encoded : Bool
  pub path_parameters : JsonObject
  pub query_string_parameters : Option JsonObject
  pub headers : JsonObject
  pub request_context : RequestContext

-- `ExecutionConfigDto`; `target_job` is the text of its JSON.
pub record ExecutionConfig : Type 0 where
  pub type : ExecutionType
  pub function_name : Option String
  pub invocation_type : Option InvocationType
  pub function_url : Option String
  pub base_url : Option String
  pub schedule_expression : Option String
  pub target_job : Option String

-- `JobMetadataDto`
pub record JobMetadata : Type 0 where
  pub job_id : Option String
  pub app_id : Option String
  pub idempotency_key : Option String
  pub message_group_id : String
  pub created_at : ℕ
  pub retry_count : Option ℕ

-- `UnifiedJobMessageDto`; the first two parts are absent where a row's JSON column is null and the
-- object has none of their fields.
pub record UnifiedJobMessage : Type 0 where
  pub lambda_proxy_message : Option LambdaProxyMessage
  pub execution : Option ExecutionConfig
  pub metadata : JobMetadata

-- `CallbackJobPayload`
pub record CallbackJobPayload : Type 0 where
  pub method : String
  pub path : String
  pub body : Option String
  pub headers : JsonObject
  pub expected_statuses : List ℕ
  pub hmac_signature : String
  pub hmac_timestamp : ℕ

-- `JobEntity`
pub record Job : Type 0 where
  pub id : ℕ
  pub app_id : String
  pub type : Option JobType
  pub execution_type : Option ExecutionType
  pub status : JobStatus
  pub payload : Option CallbackJobPayload
  pub lambda_proxy_message : Option LambdaProxyMessage
  pub execution_config : Option ExecutionConfig
  pub retry_count : ℕ
  pub max_retries : ℕ
  pub next_retry_at : Option ℕ
  pub last_error : Option String
  pub schedule_arn : Option String
  pub idempotency_key : Option String
  pub message_group_id : Option String
  pub created_at : ℕ

-- The columns of `AppEntity` that jobs read
pub record App : Type 0 where
  pub id : String
  pub callback_base_url : Option String
  pub callback_secret_ref : Option String

-- A message on the main queue (`SendMessageCommand`)
pub record SentMessage : Type 0 where
  pub message_body : UnifiedJobMessage
  pub message_group_id : String
  pub deduplication_id : String

-- The tables, which rows of jobs the database takes (the columns of JobEntity hold a uuid, texts of
-- bounded length and integers), the next identifier, the clock and what has been sent to the
-- queue.
pub record JobStore : Type 0 where
  pub jobs : List Job
  pub apps : List App
  pub takes_job : Job → Bool
  pub next_id : ℕ
  pub now : ℕ
  pub sent : List SentMessage
