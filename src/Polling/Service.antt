-- ===== src/Polling/Service.antt =====
-- MultiQueuePollingService (modules/job/services/multi-queue-polling.service.ts): the messages of
-- a source queue are forwarded to the main queue, or kept in the database. Whether the queues take
-- a message and let one be deleted, and which messages they give, are arguments.
use common_api.Base.{
  ℕ, ◌+◌, min, String, Bool, true, not, List, [], ◌∷◌, ◌++◌, Option, some, none, ◌==◌,
  if◌then◌else◌, truthy, or_default,
}
use common_api.Exceptions.{plain_error}
use common_api.Action.{Result, ok, err, Action}
use common_api.Job.Entities.{db, UnifiedJobMessage, SentMessage}
use common_api.Job.Creation.{Queue, create_unified_job}
use common_api.Polling.Entities.{SourceMessage, SqsMessage, QueueConfig, Queues}
use common_api.Polling.Transform.{Generated, transform_message, parse_and_validate_message}

-- What the service is given by the platform; `second` marks the transformation that is made again
-- after a failure.
pub record PollPlatform : Type 0 where
  pub main_queue : Queue
  pub number_text : ℕ → String
  pub parse : String → Option SourceMessage
  pub generated : SqsMessage → Generated
  pub generated_again : SqsMessage → Generated
  pub new_job_id : SqsMessage → String
  pub deletes : SqsMessage → Bool
  pub receive : ℕ → List SqsMessage → Result (List SqsMessage)

-- Every message but those with one receipt.
unfoldable pub remove_message : ℕ → List SqsMessage → List SqsMessage
remove_message receipt [] = []
remove_message receipt (m ∷ ms) =
    let rest = remove_message receipt ms in if m.receipt_handle == receipt then rest else m ∷ rest

module _ (p : PollPlatform) (queue_name : String) where
  -- The unified message that is forwarded for a message.
  unfoldable pub unified_of : SqsMessage → UnifiedJobMessage
  unfolding parse_and_validate_message
  unified_of m = transform_message (parse_and_validate_message p.parse m) queue_name (p.generated m)

  abbrev pub forwarded_message : UnifiedJobMessage → SentMessage
  forwarded_message m = record {
    message_body = m;
    message_group_id = m.metadata.message_group_id;
    deduplication_id = or_default m.metadata.idempotency_key "";
  }

  -- forwardToMainQueue
  unfoldable pub forward_to_main_queue : UnifiedJobMessage → Action Queues (Unit {0})
  forward_to_main_queue m s = elim (truthy p.main_queue.queue_url) [
    | none ↦ (err (plain_error "Main queue URL not configured (AWS_SQS_QUEUE_URL)"), s)
    | some url ↦
        if p.main_queue.accepts (forwarded_message m)
        then (
          ok tt,
          record s { store = record s.store { sent = s.store.sent ++ forwarded_message m ∷ [] } },
        )
        else (err (plain_error "SQS request failed"), s)
  ]

  -- deleteMessage
  unfoldable pub delete_message : SqsMessage → Action Queues (Unit {0})
  delete_message m s =
      if p.deletes m
      then (ok tt, record s { source = remove_message m.receipt_handle s.source })
      else (err (plain_error "SQS request failed"), s)

  -- saveFailedMessage
  unfoldable pub save_failed_message : SqsMessage → Queues → Queues
  unfolding parse_and_validate_message
  save_failed_message m s =
      let unified =
        transform_message (parse_and_validate_message p.parse m) queue_name (p.generated_again m) in
      record s {
        store =
            (create_unified_job p.main_queue p.number_text true (p.new_job_id m)
              (record { app_id = unified.metadata.app_id; message = unified; mode = some db })
              s.store).1;
      }

  -- The `try` of one round of `pollQueue`.
  unfoldable pub forward_one : SqsMessage → Action Queues (Unit {0})
  forward_one m s =
      let (sent, s1) = forward_to_main_queue (unified_of m) s in
      elim sent [ err e ↦ (err e, s1) | ok _ ↦ delete_message m s1 ]

  -- The rest of the round: a success is counted, and a failure is kept in the database.
  abbrev pub after_attempt : SqsMessage → ℕ → Result (Unit {0}) × Queues → ℕ × Queues
  after_attempt m forwarded (ok _, s) = (forwarded + 1, s)
  after_attempt m forwarded (err _, s) = (forwarded, save_failed_message m s)

  -- One round of `pollQueue`: the count of the forwarded messages and the queues.
  unfoldable pub poll_one : SqsMessage → ℕ → Queues → ℕ × Queues
  poll_one m forwarded s = after_attempt m forwarded (forward_one m s)

  -- The loop of `pollQueue` over the messages that it has received.
  unfoldable pub poll_messages : List SqsMessage → ℕ → Queues → ℕ × Queues
  poll_messages [] forwarded s = (forwarded, s)
  poll_messages (m ∷ ms) forwarded s = let (n, s') = poll_one m forwarded s in poll_messages ms n s'

  abbrev pub max_messages_of : QueueConfig → Option ℕ → ℕ
  max_messages_of c none = min c.max_messages 10
  max_messages_of c (some limit) = min (min limit 10) 10

  -- pollQueue
  unfoldable pub poll_queue : Option QueueConfig → Option ℕ → Action Queues ℕ
  poll_queue none limit s = (err (plain_error "Queue not found in configuration"), s)
  poll_queue (some c) limit s =
      if not c.enabled then (ok 0, s) else elim (truthy (some c.queue_url)) [
        | none ↦ (ok 0, s)
        | some url ↦ elim (p.receive (max_messages_of c limit) s.source) [
          | err e ↦ (err e, s)
          | ok messages ↦ let (n, s') = poll_messages messages 0 s in (ok n, s')
        ]
      ]
