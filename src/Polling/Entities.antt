-- ===== src/Polling/Entities.antt =====
-- What a source queue holds (modules/job/dto/source-message.dto.ts) and its configuration
-- (modules/job/services/multi-queue-polling.service.ts). A JSON object is its text.
use common_api.Base.{ℕ, String, Bool, List, Option}
use common_api.Job.Entities.{
  ExecutionType, InvocationType, JsonObject, LambdaProxyMessage, JobStore,
}

-- A body that is given as text or as an object.
pub data SourceBody : Type 0 where
  text_body : String → SourceBody
  object_body : String → SourceBody

-- `requestContext` of a source message
pub record SourceContext : Type 0 where
  pub path : Option String
  pub resource_path : Option String
  pub http_method : Option String

-- `execution` of a source message
pub record SourceExecution : Type 0 where
  pub type : Option ExecutionType
  pub base_url : Option String
  pub function_name : Option String
  pub function_url : Option String
  pub invocation_type : Option InvocationType

-- `metadata` of a source message
pub record SourceMetadata : Type 0 where
  pub app_id : Option String
  pub job_id : Option String
  pub message_group_id : Option String
  pub idempotency_key : Option String
  pub retry_count : Option ℕ

-- `SourceMessageDto`
pub record SourceMessage : Type 0 where
  pub lambda_proxy_message : Option LambdaProxyMessage
  pub body : Option SourceBody
  pub path : Option String
  pub method : Option String
  pub http_method : Option String
  pub resource : Option String
  pub is_base64_encoded : Option Bool
  pub path_parameters : Option JsonObject
  pub execution_type : Option ExecutionType
  pub base_url : Option String
  pub function_name : Option String
  pub function_url : Option String
  pub invocation_type : Option InvocationType
  pub app_id : Option String
  pub job_id : Option String
  pub message_group_id : Option String
  pub idempotency_key : Option String
  pub retry_count : Option ℕ
  pub query_string_parameters : Option JsonObject
  pub headers : Option JsonObject
  pub request_context : Option SourceContext
  pub execution : Option SourceExecution
  pub metadata : Option SourceMetadata
  pub raw_body : Option String

-- `Message` of @aws-sdk/client-sqs, as the service reads it.
pub record SqsMessage : Type 0 where
  pub receipt_handle : ℕ
  pub body : Option String

-- `QueueConfig`
pub record QueueConfig : Type 0 where
  pub queue_url : String
  pub max_messages : ℕ
  pub visibility_timeout : ℕ
  pub enabled : Bool

-- A source queue, and the tables with the main queue.
pub record Queues : Type 0 where
  pub source : List SqsMessage
  pub store : JobStore
