-- ===== src/Job/Processor.antt =====
-- MessageProcessorService (modules/job/services/message-processor.service.ts): the call that a
-- message stands for, and whether its answer counts as success. The clients that make the calls,
-- `new URL` and `JSON.parse` are not code of this repository: the answer to a call and the two
-- tests are arguments.
use Prim.Native.Char.{code}
use Prim.Native.String.{◌++◌ as append}
use common_api.Base.{
  ℕ, String, Bool, true, ◌&&◌, ◌||◌, not, Option, some, none, leb, ltb, ◌==◌, if◌then◌else◌, truthy,
  or_default,
}
use common_api.Exceptions.{plain_error}
use common_api.Action.{Result, ok, err}
use common_api.Job.Entities.{
  ExecutionType, lambda_invoke, lambda_url, rest_api, schedule, InvocationType, event, JsonObject,
  LambdaProxyMessage, ExecutionConfig, UnifiedJobMessage,
}

-- The commands and requests that are sent.
pub data Call : Type 0 where
  invoke : String → InvocationType → Option LambdaProxyMessage → Call
  signed_request : String → String → Option String → Call
  request : String → String → Option String → JsonObject → Call
  create_schedule : String → String → String → String → Call

-- A status code with the `message` of the body, if it has one, or a request that fails without one.
pub data Reply : Type 0 where
  status_code : ℕ → Option String → Reply
  no_reply : Reply

-- The parts of the configuration and of the platform that the service reads.
pub record Platform : Type 0 where
  pub scheduler_role_arn : Option String
  pub scheduler_target_url : Option String
  pub valid_url : String → Bool
  pub valid_json : String → Bool

-- `path.startsWith('/') ? path : '/' + path`
unfoldable pub full_path : String → String
full_path String.[] = "/"
full_path (String.◌∷◌ c s) = if code c == b'/' then String.◌∷◌ c s else append "/" (String.◌∷◌ c s)

-- `url.replace(/\/$/, '')`
unfoldable pub strip_slash : String → String
strip_slash String.[] = String.[]
strip_slash (String.◌∷◌ c String.[]) = if code c == b'/' then String.[] else String.◌∷◌ c String.[]
strip_slash (String.◌∷◌ c (String.◌∷◌ d s)) = String.◌∷◌ c (strip_slash (String.◌∷◌ d s))

-- `validateStatus: (status) => status >= 200 && status < 300`
unfoldable pub check_2xx : Reply → Result (Unit {0})
check_2xx (status_code n _) =
    if leb 200 n && ltb n 300 then ok tt else err (plain_error "Request failed with status code")
check_2xx no_reply = err (plain_error "Network Error")

unfoldable pub check_invoked : Reply → Result (Unit {0})
check_invoked (status_code n _) =
    if n == 202 || n == 200 then ok tt else err (plain_error "Lambda invoke failed")
check_invoked no_reply = err (plain_error "Network Error")

abbrev pub check_created : Reply → Result (Unit {0})
check_created (status_code n _) = ok tt
check_created no_reply = err (plain_error "Network Error")

-- `body ? JSON.parse(body) : undefined`
abbrev pub body_parses : Platform → Option String → Bool
body_parses p body = elim (truthy body) [ none ↦ true | some t ↦ p.valid_json t ]

module _ (p : Platform) (answer : Call → Reply) where
  -- executeLambdaInvoke
  unfoldable pub execute_lambda_invoke :
      ExecutionConfig → Option LambdaProxyMessage → Result (Unit {0})
  unfolding check_invoked
  execute_lambda_invoke x m = elim (truthy x.function_name) [
    | none ↦ err (plain_error "functionName is required for lambda-invoke")
    | some name ↦ check_invoked (answer (invoke name (or_default x.invocation_type event) m))
  ]

  -- executeLambdaUrl
  unfoldable pub execute_lambda_url :
      ExecutionConfig → Option LambdaProxyMessage → Result (Unit {0})
  unfolding check_2xx
  execute_lambda_url x m = elim (truthy x.function_url) [
    | none ↦ err (plain_error "functionUrl is required for lambda-url")
    | some url ↦ if not (p.valid_url url) then err (plain_error "Invalid URL") else elim m [
      | none ↦ err (plain_error "Cannot read properties of undefined")
      | some message ↦
          if body_parses p message.body
          then check_2xx (
              answer (
                signed_request message.http_method
                  (append (strip_slash url) (full_path message.path)) message.body))
          else err (plain_error "Unexpected token in JSON")
    ]
  ]

  -- executeRestApi
  unfoldable pub execute_rest_api : ExecutionConfig → Option LambdaProxyMessage → Result (Unit {0})
  unfolding check_2xx
  execute_rest_api x m = elim (truthy x.base_url) [
    | none ↦ err (plain_error "baseUrl is required for rest-api")
    | some url ↦ elim m [
      | none ↦ err (plain_error "Cannot read properties of undefined")
      | some message ↦
          if body_parses p message.body
          then check_2xx (
              answer (
                request message.http_method (append (strip_slash url) (full_path message.path))
                  message.body message.headers))
          else err (plain_error "Unexpected token in JSON")
    ]
  ]

  -- executeSchedule; the name of the schedule holds the job's identifier and the time.
  unfoldable pub execute_schedule : ExecutionConfig → String → Result (Unit {0})
  execute_schedule x name = elim (truthy x.schedule_expression) [
    | none ↦ err (plain_error "scheduleExpression and targetJob are required for schedule")
    | some expression ↦ elim x.target_job [
      | none ↦ err (plain_error "scheduleExpression and targetJob are required for schedule")
      | some target ↦ elim (truthy p.scheduler_role_arn) [
        | none ↦ err (plain_error "aws.scheduler.roleArn not configured")
        | some role ↦ elim (truthy p.scheduler_target_url) [
          | none ↦ err (plain_error "aws.scheduler.targetUrl not configured")
          | some arn ↦ check_created (answer (create_schedule name expression arn target))
        ]
      ]
    ]
  ]

  unfoldable pub process_execution :
      ExecutionType → ExecutionConfig → Option LambdaProxyMessage → String → Result (Unit {0})
  process_execution lambda_invoke x m name = execute_lambda_invoke x m
  process_execution lambda_url x m name = execute_lambda_url x m
  process_execution rest_api x m name = execute_rest_api x m
  process_execution schedule x m name = execute_schedule x name

  -- processMessage; `name` is the name that a schedule would have.
  unfoldable pub process_message : UnifiedJobMessage → String → Result (Unit {0})
  unfolding process_execution
  process_message m name = elim m.execution [
    | none ↦ err (plain_error "Unknown execution type")
    | some x ↦ process_execution x.type x m.lambda_proxy_message name
  ]
