-- ===== src/Job/Consumption.antt =====
-- What polling the main queue does with the messages that it receives (modules/job/job.service.ts,
-- pollAndProcessSqs).
use mathlib.Core.Path.{subst}
use mathlib.Core.List.{append-nil, append_assoc}
use common_api.Base.{
  String, ap, zero, suc, ℕ, ◌+◌, ◌≡◌, refl, sym, ◌∙◌, Bool, true, false, ◌&&◌, ◌||◌, Bool-cases,
  Option-cases, List, [], ◌∷◌, ◌++◌, some, none, ◌==◌, if◌then◌else◌, truthy, length, length-append,
  select, inl, inr, arith,
}
use common_api.Base.Table.{find?}
use common_api.Exceptions.{Exception, plain_error}
use common_api.Action.{Result, ok, err, Result-cases}
use common_api.Job.Entities.{Job, JobStore, UnifiedJobMessage, ExecutionConfig}
use common_api.Job.Repository.{job_of, create_job}
use common_api.Job.Processor.{process_message}
use common_api.Job.Creation.{failed_db_job, save_failed_job_to_db}
use common_api.Job.Consumer.{
  MainQueue, ConsumerPlatform, get_error_message, parse_and_validate_job_message, read_message,
  consume_message, keep_failed_message, consume_one, consume_messages,
}
use common_api.Polling.Entities.{SqsMessage}
use common_api.Polling.Service.{remove_message}
use common_api.Polling.Delivery.{receipt, find?-remove_message}

module _ (p : ConsumerPlatform) where
  -- What a message comes to, whatever waits and whatever the tables hold.
  unfoldable pub outcome_of : SqsMessage → Result (Unit {0})
  outcome_of m = elim (parse_and_validate_job_message p m.body) [
    | err e ↦ err e
    | ok u ↦ elim (process_message p.platform (p.answer m) u (p.schedule_name m)) [
      | err e ↦ err e
      | ok _ ↦ if p.deletes m then ok tt else err (plain_error "SQS request failed")
    ]
  ]

  abbrev pub succeeds : SqsMessage → Bool
  succeeds m = elim (outcome_of m) [ ok _ ↦ true | err _ ↦ false ]

  -- Whether a message of that receipt is among those that succeed.
  abbrev pub done : ℕ → List SqsMessage → Bool
  done k [] = false
  done k (m ∷ ms) = (succeeds m && (k == m.receipt_handle)) || done k ms

  -- The row that a failure is kept as: none where the message names no app or no
  -- execution, or where the database refuses the row.
  abbrev pub row_of : (Job → Bool) → UnifiedJobMessage → Exception → ℕ → ℕ → List Job
  row_of takes u e id now = elim (truthy u.metadata.app_id) [
    | none ↦ []
    | some app_id ↦ elim u.execution [
      | none ↦ []
      | some x ↦
          let j = job_of (failed_db_job u app_id x now (get_error_message e)) id now in
          if takes j then j ∷ [] else []
    ]
  ]

  -- The rows that a message adds: none where it succeeds or cannot be read.
  abbrev pub failure_rows : (Job → Bool) → SqsMessage → ℕ → ℕ → List Job
  failure_rows takes m id now = elim (outcome_of m) [
    | ok _ ↦ []
    | err e ↦ elim (read_message p m) [ none ↦ [] | some u ↦ row_of takes u e id now ]
  ]

  -- The rows that a list of messages adds, under consecutive identifiers.
  abbrev pub all_failure_rows : (Job → Bool) → List SqsMessage → ℕ → ℕ → List Job
  all_failure_rows takes [] id now = []
  all_failure_rows takes (m ∷ ms) id now =
      failure_rows takes m id now
      ++ all_failure_rows takes ms (id + length (failure_rows takes m id now)) now

  -- The tables with rows added at the end, which use up as many identifiers.
  abbrev pub with_rows : List Job → JobStore → JobStore
  with_rows rows s = record s { jobs = s.jobs ++ rows; next_id = s.next_id + length rows }

  with_rows-nil : (s : JobStore) → with_rows [] s ≡ s
  with_rows-nil s = ground (arith, append-nil s.jobs)

  with_rows-append :
      (xs ys : List Job) (s : JobStore) → with_rows ys (with_rows xs s) ≡ with_rows (xs ++ ys) s
  with_rows-append xs ys s = ground (arith, append_assoc s.jobs xs ys, length-append xs ys)

  save_failed-rows :
      (u : UnifiedJobMessage) (e : Exception) (s : JobStore)
      → save_failed_job_to_db u (get_error_message e) s
        ≡ with_rows (row_of s.takes_job u e s.next_id s.now) s
  unfolding save_failed_job_to_db create_job
  save_failed-rows u e s = elim (Option-cases (truthy u.metadata.app_id)) [
    | inl h ↦ ground (arith, h, with_rows-nil s)
    | inr (app_id, h) ↦ elim (Option-cases u.execution) [
      | inl none_run ↦ ground (arith, h, none_run, with_rows-nil s)
      | inr (x, run) ↦
          elim (Bool-cases (
            s.takes_job
              (job_of (failed_db_job u app_id x s.now (get_error_message e)) s.next_id s.now))) [
                | inl taken ↦ ground (arith, h, run, taken)
                | inr refused ↦ ground (arith, h, run, refused, with_rows-nil s)
              ]
    ]
  ]

  -- What one round does.
  abbrev pub after_round : SqsMessage → MainQueue → MainQueue
  after_round m s = record {
    waiting = if succeeds m then remove_message m.receipt_handle s.waiting else s.waiting;
    store = with_rows (failure_rows s.store.takes_job m s.store.next_id s.store.now) s.store;
  }

  consume_one_lem :
      (m : SqsMessage) (n : ℕ) (s : MainQueue)
      → consume_one p m n s ≡ ((if succeeds m then n + 1 else n), after_round m s)
  unfolding consume_one consume_message keep_failed_message outcome_of
  consume_one_lem m n s = elim (Result-cases (parse_and_validate_job_message p m.body)) [
    | inr (e, h) ↦ ground (arith, h, with_rows-nil s.store)
    | inl (u, h) ↦
        elim (Result-cases (process_message p.platform (p.answer m) u (p.schedule_name m))) [
          | inr (e, run) ↦ ground (arith, h, run, save_failed-rows u e s.store)
          | inl (_, run) ↦ elim (Bool-cases (p.deletes m)) [
            | inl gone ↦ ground (arith, h, run, gone, with_rows-nil s.store)
            | inr stays ↦ ground (
              arith,
              h,
              run,
              stays,
              save_failed-rows u (plain_error "SQS request failed") s.store,
            )
          ]
        ]
  ]

  -- What the rounds over a list of messages have done.
  pub record Consumed (ms : List SqsMessage) (n : ℕ) (s : MainQueue) (n' : ℕ) (s' : MainQueue)
      : Type 0 where
    pub counted : n' ≡ n + length (select succeeds ms)
    pub waiting :
        (k : ℕ)
        → find? receipt k s'.waiting ≡ (if done k ms then none else find? receipt k s.waiting)
    pub kept :
        s'.store
        ≡ with_rows (all_failure_rows s.store.takes_job ms s.store.next_id s.store.now) s.store

  -- Polling counts exactly the messages that are read, processed and deleted, takes exactly
  -- those off the queue, and adds to the table, in their order, a row for each other message that
  -- can be read and names an app and an execution, if the database takes the row; nothing else of
  -- the tables changes.
  pub consume_messages-Consumed :
      (ms : List SqsMessage) (n : ℕ) (s : MainQueue)
      → let (n', s') = consume_messages p ms n s in Consumed ms n s n' s'
  unfolding consume_messages
  consume_messages-Consumed [] n s = record {
    counted = omega arith;
    waiting = λ k. refl;
    kept = sym (with_rows-nil s.store);
  }
  consume_messages-Consumed (m ∷ ms) n s =
      let rows = failure_rows s.store.takes_job m s.store.next_id s.store.now in
      let ih = consume_messages-Consumed ms (if succeeds m then n + 1 else n) (after_round m s) in
      subst (λ r. let (n', s') = consume_messages p ms r.0 r.1 in Consumed (m ∷ ms) n s n' s')
        (sym (consume_one_lem m n s))
        (record {
          counted = ground (arith, ih.counted);
          waiting =
              λ k. ground (arith, ih.waiting k, find?-remove_message k m.receipt_handle s.waiting);
          kept =
              ih.kept
              ∙ with_rows-append rows
                  (all_failure_rows s.store.takes_job ms (s.store.next_id + length rows)
                    s.store.now)
                  s.store;
        })

  abbrev pub repeated : ℕ → SqsMessage → List SqsMessage
  repeated zero m = []
  repeated (suc k) m = m ∷ repeated k m

  repeated_rows :
      (takes : Job → Bool) (k : ℕ) (m : SqsMessage) (id now : ℕ) {u : UnifiedJobMessage}
      {e : Exception} {app : String} {x : ExecutionConfig}
      → outcome_of m ≡ err e
      → read_message p m ≡ some u
      → truthy u.metadata.app_id ≡ some app
      → u.execution ≡ some x
      → ((id : ℕ) → takes (job_of (failed_db_job u app x now (get_error_message e)) id now) ≡ true)
      → length (all_failure_rows takes (repeated k m) id now) ≡ k
  repeated_rows takes zero m id now failed read named run all = refl
  repeated_rows takes (suc k) m id now failed read named run all = ground (
    arith,
    failed,
    read,
    named,
    run,
    all id,
    repeated_rows takes k m (id + 1) now failed read named run all,
  )

  repeated_none :
      (k : ℕ) (m : SqsMessage) {e : Exception}
      → outcome_of m ≡ err e
      → (length (select succeeds (repeated k m)) ≡ 0) × ((r : ℕ) → done r (repeated k m) ≡ false)
  repeated_none zero m failed = (refl, λ r. refl)
  repeated_none (suc k) m failed = (
    ground (arith, failed, repeated_none k m failed),
    λ r. ground (arith, failed, (repeated_none k m failed).1 r),
  )

  -- A message that is read, names an app and an execution, and fails, be it that only its deletion
  -- fails, is never counted, stays on the queue, and adds a row each time that it is received, where
  -- the database takes its rows.
  pub redelivered :
      (k : ℕ) (m : SqsMessage) (s : MainQueue) {u : UnifiedJobMessage} {e : Exception}
      {app : String} {x : ExecutionConfig}
      → outcome_of m ≡ err e
      → read_message p m ≡ some u
      → truthy u.metadata.app_id ≡ some app
      → u.execution ≡ some x
      → ((id : ℕ)
          → s.store.takes_job
              (job_of (failed_db_job u app x s.store.now (get_error_message e)) id s.store.now)
            ≡ true)
      → let (n, s') = consume_messages p (repeated k m) 0 s in
        (n ≡ 0)
        × (length s'.store.jobs ≡ length s.store.jobs + k)
        × ((r : ℕ) → find? receipt r s'.waiting ≡ find? receipt r s.waiting)
  redelivered k m s {u} {e} {app} {x} failed read named run all =
      let c = consume_messages-Consumed (repeated k m) 0 s in
      let (uncounted, left) = repeated_none k m failed in
      let rows = all_failure_rows s.store.takes_job (repeated k m) s.store.next_id s.store.now in
      (
        ground (arith, c.counted, uncounted),
        ap (λ (t : JobStore). length t.jobs) c.kept
            ∙ length-append s.store.jobs rows
            ∙ ap (λ n. length s.store.jobs + n)
                (repeated_rows s.store.takes_job k m s.store.next_id s.store.now failed read named
                  run all),
        λ r. ground (arith, c.waiting r, left r),
      )
