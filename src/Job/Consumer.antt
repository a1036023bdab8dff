-- ===== src/Job/Consumer.antt =====
-- JobService, the messages of the main queue (modules/job/job.service.ts, pollAndProcessSqs). What
-- the queue gives and lets be deleted, JSON and the class-validator are arguments.
use Prim.Native.String.{◌++◌ as append}
use common_api.Base.{
  ℕ, ◌+◌, min, String, Bool, List, [], ◌∷◌, ◌++◌, Option, some, none, if◌then◌else◌, truthy,
  or_default, or_else,
}
use common_api.Exceptions.{Exception, plain_error}
use common_api.Action.{Result, ok, err, Action}
use common_api.Job.Entities.{UnifiedJobMessage, JobStore}
use common_api.Job.Processor.{Call, Reply, Platform, process_message}
use common_api.Job.Service.{message_of}
use common_api.Job.Creation.{save_failed_job_to_db}
use common_api.Polling.Entities.{SqsMessage}
use common_api.Polling.Service.{remove_message}

-- `ValidationError` of class-validator: the constraints that failed, and the errors of children.
mutual
  pub data ValidationError : Type 0 where
    invalid : Option (List String) → ValidationErrors → ValidationError

  pub data ValidationErrors : Type 0 where
    no_errors : ValidationErrors
    and_error : ValidationError → ValidationErrors → ValidationErrors

-- `messages.join("; ")`
unfoldable pub join_messages : List String → String
join_messages [] = ""
join_messages (t ∷ []) = t
join_messages (t ∷ u ∷ ts) = append t (append "; " (join_messages (u ∷ ts)))

-- `if (text) messages.push(text)`
unfoldable pub push_text : Option String → List String → List String
push_text none ts = ts
push_text (some t) ts = t ∷ ts

unfoldable mutual
  -- The loop of formatValidationErrors
  pub error_messages : ValidationErrors → List String
  error_messages no_errors = []
  error_messages (and_error e es) = messages_of_error e ++ error_messages es

  pub messages_of_error : ValidationError → List String
  messages_of_error (invalid own no_errors) = or_default own []
  messages_of_error (invalid own (and_error e es)) =
      or_default own []
      ++ push_text (truthy (some (join_messages (messages_of_error e ++ error_messages es)))) []

-- formatValidationErrors
unfoldable pub format_validation_errors : ValidationErrors → String
format_validation_errors es = join_messages (error_messages es)

-- getErrorMessage
unfoldable pub get_error_message : Exception → String
get_error_message e = or_default (truthy (some (message_of e))) "Unknown error"

-- The messages that wait on the main queue, and the tables.
pub record MainQueue : Type 0 where
  pub waiting : List SqsMessage
  pub store : JobStore

-- What the service is given: `instance` is `plainToInstance` of parsed JSON with its validation.
pub record ConsumerPlatform : Type 0 where
  pub queue_url : Option String
  pub platform : Platform
  pub instance_of : String → UnifiedJobMessage × ValidationErrors
  pub answer : SqsMessage → Call → Reply
  pub schedule_name : SqsMessage → String
  pub deletes : SqsMessage → Bool
  pub receive : ℕ → List SqsMessage → Result (List SqsMessage)

-- The end of parseAndValidateJobMessage, on the errors of the validation.
abbrev pub accept_message : UnifiedJobMessage × ValidationErrors → Result UnifiedJobMessage
accept_message (m, no_errors) = ok m
accept_message (m, and_error e es) = err (
    plain_error (
      append "Invalid SQS message payload: " (
        or_default (truthy (some (format_validation_errors (and_error e es))))
          "validation failed")))

module _ (p : ConsumerPlatform) where
  -- parseAndValidateJobMessage
  unfoldable pub parse_and_validate_job_message : Option String → Result UnifiedJobMessage
  unfolding format_validation_errors
  parse_and_validate_job_message raw = elim (truthy raw) [
    | none ↦ err (plain_error "SQS message body is empty")
    | some text ↦
        if p.platform.valid_json text
        then accept_message (p.instance_of text)
        else err (plain_error "Invalid JSON in SQS message body")
  ]

  -- `message` after the `try`: it is set once the body has been read.
  abbrev pub read_message : SqsMessage → Option UnifiedJobMessage
  read_message m = elim (parse_and_validate_job_message m.body) [ err _ ↦ none | ok u ↦ some u ]

  -- The `try` of one round of `pollAndProcessSqs`.
  unfoldable pub consume_message : SqsMessage → Action MainQueue (Unit {0})
  consume_message m s = elim (parse_and_validate_job_message m.body) [
    | err e ↦ (err e, s)
    | ok u ↦ elim (process_message p.platform (p.answer m) u (p.schedule_name m)) [
      | err e ↦ (err e, s)
      | ok _ ↦
          if p.deletes m
          then (ok tt, record s { waiting = remove_message m.receipt_handle s.waiting })
          else (err (plain_error "SQS request failed"), s)
    ]
  ]

  -- The `catch` of the round: `message ?? parseAndValidate(body)` is kept in the database.
  unfoldable pub keep_failed_message : SqsMessage → Exception → MainQueue → MainQueue
  keep_failed_message m e s = elim (or_else (read_message m) (read_message m)) [
    | none ↦ s
    | some u ↦ record s { store = save_failed_job_to_db u (get_error_message e) s.store }
  ]

  abbrev pub after_message : SqsMessage → ℕ → Result (Unit {0}) × MainQueue → ℕ × MainQueue
  after_message m processed (ok _, s) = (processed + 1, s)
  after_message m processed (err e, s) = (processed, keep_failed_message m e s)

  unfoldable pub consume_one : SqsMessage → ℕ → MainQueue → ℕ × MainQueue
  consume_one m processed s = after_message m processed (consume_message m s)

  -- The loop of `pollAndProcessSqs`
  unfoldable pub consume_messages : List SqsMessage → ℕ → MainQueue → ℕ × MainQueue
  consume_messages [] processed s = (processed, s)
  consume_messages (m ∷ ms) processed s =
      let (n, s') = consume_one m processed s in consume_messages ms n s'

  -- pollAndProcessSqs
  unfoldable pub poll_and_process_sqs : ℕ → Action MainQueue ℕ
  poll_and_process_sqs limit s = elim (truthy p.queue_url) [
    | none ↦ (err (plain_error "aws.sqs.queueUrl not configured"), s)
    | some url ↦ elim (p.receive (min limit 10) s.waiting) [
      | err e ↦ (err e, s)
      | ok messages ↦ let (n, s') = consume_messages messages 0 s in (ok n, s')
    ]
  ]
