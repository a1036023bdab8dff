-- ===== src/Job/Service.antt =====
-- JobService, the jobs in the database (modules/job/job.service.ts). The answers of the outside
-- world are given for each job that is run, so that two runs may be answered differently; `id_text`
-- is the text of an identifier or a number.
use Prim.Native.String.{◌++◌ as append}
use common_api.Base.{
  ℕ, ◌+◌, ◌*◌, ◌^◌, min, String, Bool, false, List, [], ◌∷◌, ◌++◌, Option, some, none, leb, ◌==◌,
  ◌||◌, if◌then◌else◌, truthy, or_default,
}
use common_api.Exceptions.{Exception, bad_request, not_found, conflict, unauthorized, plain_error}
use common_api.Action.{Result, ok, err, Action, or_throw}
use common_api.Job.Entities.{
  pending, retrying, succeeded, failed, dead, callback_http, reward_grant, UnifiedJobMessage,
  CallbackJobPayload, Job, App, JobStore,
}
use common_api.Job.Repository.{find_job, get_due_jobs_for_update, update_job, find_app}
use common_api.Job.Processor.{
  Call, request, Reply, status_code, no_reply, Platform, process_message,
}

-- `error.message`
abbrev pub message_of : Exception → String
message_of (bad_request t) = t
message_of (not_found t) = t
message_of (conflict t) = t
message_of (unauthorized t) = t
message_of (plain_error t) = t

-- `Math.min(Math.pow(2, retryCount) * 60, 86400)`
unfoldable pub delay_seconds : ℕ → ℕ
delay_seconds n = min (2 ^ n * 60) 86400

-- calculateNextRetry
unfoldable pub calculate_next_retry : ℕ → ℕ → ℕ
calculate_next_retry now n = now + delay_seconds n * 1000

-- The update after a success.
abbrev pub set_succeeded : Job → Job
set_succeeded j = record j { status = succeeded; next_retry_at = none; last_error = none }

-- The update after the last failure.
abbrev pub set_failed : ℕ → String → Job → Job
set_failed count message j = record j {
  status = failed;
  retry_count = count;
  next_retry_at = none;
  last_error = some message;
}

-- The update after any other failure of `runDueDbJobs`.
abbrev pub set_retrying : ℕ → ℕ → String → Job → Job
set_retrying count at message j = record j {
  status = retrying;
  retry_count = count;
  next_retry_at = some at;
  last_error = some message;
}

-- The update after any other failure of `executeHttpCallback`, which leaves the status.
abbrev pub set_next_try : ℕ → ℕ → String → Job → Job
set_next_try count at message j = record j {
  retry_count = count;
  next_retry_at = some at;
  last_error = some message;
}

-- dbJobToMessage; `plainToInstance` is a library's, and is taken to keep the fields.
unfoldable pub db_job_to_message : (ℕ → String) → Job → Result UnifiedJobMessage
db_job_to_message id_text j = elim (truthy j.message_group_id) [
  | none ↦ err (plain_error "Job is missing messageGroupId")
  | some group ↦ ok (record {
    lambda_proxy_message = j.lambda_proxy_message;
    execution = j.execution_config;
    metadata = record {
      job_id = some (id_text j.id);
      app_id = some j.app_id;
      idempotency_key = truthy j.idempotency_key;
      message_group_id = group;
      created_at = j.created_at;
      retry_count = some j.retry_count;
    };
  })
]

module _ (p : Platform) (id_text : ℕ → String) (answer : ℕ → Call → Reply) where
  -- What the `try` of one round of `runDueDbJobs` comes to.
  unfoldable pub process_db_job : Job → Result (Unit {0})
  unfolding db_job_to_message
  process_db_job j = elim (db_job_to_message id_text j) [
    | err e ↦ err e
    | ok message ↦ process_message p (answer j.id) message (append "job-" (id_text j.id))
  ]

  -- The row that one round of `runDueDbJobs` leaves of the job that it has fetched.
  unfoldable pub settle_db_job : ℕ → Job → Job → Job
  settle_db_job now fetched j = elim (process_db_job fetched) [
    | ok _ ↦ set_succeeded j
    | err e ↦
        let count = fetched.retry_count + 1 in
        if leb fetched.max_retries count
        then set_failed count (message_of e) j
        else set_retrying count (calculate_next_retry now count) (message_of e) j
  ]

  abbrev pub count_ok : {A : Type 0} → Result A → ℕ → ℕ
  count_ok (ok _) n = n + 1
  count_ok (err _) n = n

  -- The loop of `runDueDbJobs` over the jobs that it has fetched.
  unfoldable pub run_db_jobs : List Job → ℕ → JobStore → ℕ × JobStore
  run_db_jobs [] processed s = (processed, s)
  run_db_jobs (j ∷ rest) processed s =
      run_db_jobs rest (count_ok (process_db_job j) processed)
        (record s { jobs = update_job j.id (settle_db_job s.now j) s.jobs })

  -- runDueDbJobs
  unfoldable pub run_due_db_jobs : ℕ → JobStore → ℕ × JobStore
  run_due_db_jobs limit s = run_db_jobs (get_due_jobs_for_update limit s) 0 s

  abbrev pub expects : List ℕ → ℕ → Bool
  expects [] n = false
  expects (m ∷ ms) n = m == n || expects ms n

  -- `axios` in executeHttpCallback, with `validateStatus`
  unfoldable pub send_callback : Job → App → CallbackJobPayload → Result (Unit {0})
  send_callback j app c =
      elim (answer j.id (
        request c.method (append (or_default app.callback_base_url "null") c.path) c.body (
          c.headers
          ++ ("Content-Type", "application/json")
            ∷ ("X-HMAC-Signature", c.hmac_signature)
            ∷ ("X-HMAC-Timestamp", id_text c.hmac_timestamp)
            ∷ []))) [
              | status_code n said ↦
                  if expects c.expected_statuses n
                  then ok tt
                  else err
                      (plain_error (or_default (truthy said) "Request failed with status code"))
              | no_reply ↦ err (plain_error "Network Error")
            ]

  -- The row that executeHttpCallback leaves.
  unfoldable pub settle_callback : ℕ → Job → App → CallbackJobPayload → Job → Job
  settle_callback now fetched app c j = elim (send_callback fetched app c) [
    | ok _ ↦ set_succeeded j
    | err e ↦
        let count = fetched.retry_count + 1 in
        if leb fetched.max_retries count
        then set_failed count (message_of e) j
        else set_next_try count (calculate_next_retry now count) (message_of e) j
  ]

  -- executeJob; taking the fields of a payload that is null throws.
  unfoldable pub execute_job : Job → Action JobStore (Unit {0})
  execute_job j s = elim (find_app j.app_id s.apps) [
    | none ↦ (err (plain_error "App not found"), s)
    | some app ↦ elim j.type [
      | some callback_http ↦ elim j.payload [
        | none ↦ (err (plain_error "Cannot destructure property of null"), s)
        | some c ↦
            (ok tt, record s { jobs = update_job j.id (settle_callback s.now j app c) s.jobs })
      ]
      | some reward_grant ↦ (err (plain_error "Unknown job type"), s)
      | none ↦ (err (plain_error "Unknown job type"), s)
    ]
  ]

  -- The loop of `runDueJobs`; an exception is logged.
  unfoldable pub execute_jobs : List Job → ℕ → JobStore → ℕ × JobStore
  execute_jobs [] processed s = (processed, s)
  execute_jobs (j ∷ rest) processed s =
      let (r, s') = execute_job j s in execute_jobs rest (count_ok r processed) s'

  -- runDueJobs
  unfoldable pub run_due_jobs : ℕ → JobStore → ℕ × JobStore
  run_due_jobs limit s = execute_jobs (get_due_jobs_for_update limit s) 0 s

-- getJob
unfoldable pub get_job : ℕ → Action JobStore Job
get_job id s = (or_throw (find_job id s.jobs) (not_found "Job not found"), s)

-- The update of `retryJob`.
abbrev pub set_pending : ℕ → Job → Job
set_pending now j = record j {
  status = pending;
  retry_count = 0;
  next_retry_at = some now;
  last_error = none;
}

-- The update of `deadletterJob`.
abbrev pub set_dead : Job → Job
set_dead j = record j { status = dead; next_retry_at = none }

-- A transaction that finds a job, updates it and reads it again.
unfoldable pub change_job : ℕ → (Job → Job) → Action JobStore (Option Job)
change_job id change s = elim (find_job id s.jobs) [
  | none ↦ (err (not_found "Job not found"), s)
  | some _ ↦
      let jobs = update_job id change s.jobs in (ok (find_job id jobs), record s { jobs = jobs })
]

-- retryJob
unfoldable pub retry_job : ℕ → Action JobStore (Option Job)
retry_job id s = change_job id (set_pending s.now) s

-- deadletterJob
unfoldable pub deadletter_job : ℕ → Action JobStore (Option Job)
deadletter_job id s = change_job id set_dead s
