-- ===== src/Job/History.antt =====
-- Histories of the job service: its jobs of both kinds, runs, retries and the passing of time, in any order, with any
-- answers of the outside world (modules/job/job.service.ts).
use mathlib.Core.Path.{subst}
use common_api.Base.{
  ◌/◌, ℕ, ◌≡◌, ◌⊎◌, refl, sym, Bool, true, List, [], ◌∷◌, ◌++◌, some, none, String, inl, inr,
  Option-cases, truthy, All, All-map, or_default, arith,
}
use common_api.Base.Table.{find?, modify, Distinct}
use common_api.Action.{Result-cases}
use common_api.Job.Entities.{
  callback_http, reward_grant, Job, JobStore, App, CallbackJobPayload, UnifiedJobMessage,
  JobCreationMode, db, sqs, both,
}
use common_api.Job.Repository.{
  job_key, is_live, is_due, update_job, find_app, get_due_jobs_for_update,
}
use common_api.Job.Processor.{Call, Reply, Platform, process_message}
use common_api.Job.Service.{
  run_due_db_jobs, settle_callback, execute_job, execute_jobs, run_due_jobs, retry_job,
  deadletter_job, count_ok, message_of,
}
use common_api.Job.Creation.{
  UnifiedJobRequest, Queue, create_job_in_db, new_db_job, failed_db_job, save_failed_job_to_db,
  process_scheduled_message, send_to_sqs, create_both, create_in_mode, create_unified_job, stamped,
  sent_message,
}
use common_api.Job.Callbacks.{
  Signer, CallbackRequest, create_callback_job, signed_payload, callback_job,
}
use common_api.Job.Runs.{Fetched, get_due_jobs_for_update-Fetched, modify-Fetched}
use common_api.Job.Scheduling.{
  IsSound, create_job-IsSound, retry_job-IsSound, deadletter_job-IsSound, run_due_db_jobs-IsSound,
  settle_callback-IsScheduled, settle_callback-IsSound,
}

sent-IsSound :
    (s s' : JobStore) → s'.jobs ≡ s.jobs → s'.next_id ≡ s.next_id → IsSound s → IsSound s'
sent-IsSound s s' e n h = record {
  distinct = rw e h.distinct;
  below = rw e (rw n h.below);
  scheduled = rw e h.scheduled;
}

create_job_in_db-IsSound :
    (m : UnifiedJobMessage) (s : JobStore) → IsSound s → IsSound (create_job_in_db m s).1
unfolding create_job_in_db
create_job_in_db-IsSound m s h = elim (Option-cases (truthy m.metadata.app_id)) [
  | inl e ↦ rw (e, create_job_in_db) h
  | inr (a, e) ↦ elim (Option-cases m.execution) [
    | inl e' ↦ rw (e, create_job_in_db) (rw (e') h)
    | inr (x, e') ↦
        rw (e, create_job_in_db) (rw (e') (create_job-IsSound (new_db_job m a x s.now) s refl h))
  ]
]

create_callback_job-IsSound :
    (g : Signer) (app_id : String) (r : CallbackRequest) (s : JobStore)
    → IsSound s
    → IsSound (create_callback_job g app_id r s).1
unfolding create_callback_job
create_callback_job-IsSound g app_id r s h = elim (Option-cases (find_app app_id s.apps)) [
  | inl e ↦ rw (e, create_callback_job) h
  | inr (app, e) ↦ elim (Option-cases (truthy app.callback_base_url)) [
    | inl e' ↦ rw (e, create_callback_job) (rw e' h)
    | inr (url, e') ↦ elim (Option-cases (truthy app.callback_secret_ref)) [
      | inl e'' ↦ rw (e, create_callback_job) (rw e' (rw e'' h))
      | inr (secret, e'') ↦
          rw (e, create_callback_job)
            (rw e' (
              rw e'' (
                create_job-IsSound
                  (callback_job app_id (signed_payload g secret r (s.now / 1000)) s.now) s refl h)))
    ]
  ]
]

save_failed_job_to_db-IsSound :
    (m : UnifiedJobMessage) (message : String) (s : JobStore)
    → IsSound s
    → IsSound (save_failed_job_to_db m message s)
unfolding save_failed_job_to_db
save_failed_job_to_db-IsSound m message s h = elim (Option-cases (truthy m.metadata.app_id)) [
  | inl e ↦ rw (e, save_failed_job_to_db) h
  | inr (a, e) ↦ elim (Option-cases m.execution) [
    | inl e' ↦ rw (e, save_failed_job_to_db) (rw (e') h)
    | inr (x, e') ↦
        rw (e, save_failed_job_to_db)
          (rw (e') (create_job-IsSound (failed_db_job m a x s.now message) s refl h))
  ]
]

module _ (q : Queue) (number_text : ℕ → String) where
  send_to_sqs-IsSound :
      (m : UnifiedJobMessage) (s : JobStore) → IsSound s → IsSound (send_to_sqs q number_text m s).1
  unfolding send_to_sqs
  send_to_sqs-IsSound m s h = ground (
    arith,
    h,
    sent-IsSound s (record s { sent = s.sent ++ sent_message q number_text m s.now ∷ [] }) refl refl
        h,
  )

  create_both-IsSound :
      (commits : Bool) (m : UnifiedJobMessage) (s : JobStore)
      → IsSound s
      → IsSound (create_both q number_text commits m s).1
  unfolding create_both
  create_both-IsSound commits m s h =
      let s1 = (create_job_in_db m s).1 in
      let s2 = (send_to_sqs q number_text m s1).1 in
      ground (
        arith,
        h,
        send_to_sqs-IsSound m s1 (create_job_in_db-IsSound m s h),
        sent-IsSound s (record s { sent = s2.sent }) refl refl h,
      )

  create_in_mode-IsSound :
      (mode : JobCreationMode) (commits : Bool) (m : UnifiedJobMessage) (s : JobStore)
      → IsSound s
      → IsSound (create_in_mode q number_text mode commits m s).1
  unfolding create_in_mode
  create_in_mode-IsSound db commits m s h = ground (arith, create_job_in_db-IsSound m s h)
  create_in_mode-IsSound sqs commits m s h = ground (arith, send_to_sqs-IsSound m s h)
  create_in_mode-IsSound both commits m s h = create_both-IsSound commits m s h

  create_unified_job-IsSound :
      (commits : Bool) (job_id : String) (r : UnifiedJobRequest) (s : JobStore)
      → IsSound s
      → IsSound (create_unified_job q number_text commits job_id r s).1
  unfolding create_unified_job
  create_unified_job-IsSound commits job_id r s h = elim (Option-cases r.message.execution) [
    | inl e ↦ rw (e, create_unified_job) h
    | inr (x, e) ↦
        simp (e, create_unified_job)
          (create_in_mode-IsSound (or_default r.mode sqs) commits
            (stamped q number_text r x job_id s.now) s h)
  ]

module _ (p : Platform) (id_text : ℕ → String) where
  process_scheduled_message-IsSound :
      (answer : Call → Reply) (m : UnifiedJobMessage) (name : String) (s : JobStore)
      → IsSound s
      → IsSound (process_scheduled_message p answer m name s)
  unfolding process_scheduled_message
  process_scheduled_message-IsSound answer m name s h =
      elim (Result-cases (process_message p answer m name)) [
        | inl (a, e) ↦ rw (e, process_scheduled_message) h
        | inr (x, e) ↦
            rw (e, process_scheduled_message) (save_failed_job_to_db-IsSound m (message_of x) s h)
      ]

  module _ (answer : ℕ → Call → Reply) where
    -- Running a job leaves the table, or settles the job's row.
    execute_job-cases :
        (j : Job) (s : JobStore)
        → ((execute_job p id_text answer j s).1 ≡ s)
          ⊎ ((app : App) × (c : CallbackJobPayload) × ((execute_job p id_text answer j s).1
                ≡ (record s {
                  jobs =
                      modify job_key j.id (settle_callback p id_text answer s.now j app c) s.jobs;
                })))
    unfolding execute_job update_job
    execute_job-cases j s = elim (Option-cases (find_app j.app_id s.apps)) [
      | inl e ↦ inl (rw (e, execute_job) refl)
      | inr (app, e) ↦ elim (Option-cases j.type) [
        | inl e' ↦ inl (rw (e, execute_job) (rw e' refl))
        | inr (reward_grant, e') ↦ inl (rw (e, execute_job) (rw e' refl))
        | inr (callback_http, e') ↦ elim (Option-cases j.payload) [
          | inl e'' ↦ inl (rw (e, execute_job) (rw e' (rw e'' refl)))
          | inr (c, e'') ↦ inr (app, c, simp (e, e', e'', execute_job) refl)
        ]
      ]
    ]

    -- Running one job that is fetched keeps the rest as they were fetched.
    execute_job-IsSound :
        (j : Job) (rest : List Job) (s : JobStore)
        → IsSound s
        → find? job_key j.id s.jobs ≡ some j
        → is_live j.status ≡ true
        → find? job_key j.id rest ≡ none
        → Fetched s.jobs rest
        → let s' = (execute_job p id_text answer j s).1 in IsSound s' × Fetched s'.jobs rest
    execute_job-IsSound j rest s h here live apart f = elim (execute_job-cases j s) [
      | inl e ↦ subst (λ t. IsSound t × Fetched t.jobs rest) (sym e) (h, f)
      | inr (app, c, e) ↦
          subst (λ t. IsSound t × Fetched t.jobs rest) (sym e)
            (
              settle_callback-IsSound p id_text answer j app c s here live h,
              modify-Fetched p id_text answer s.jobs rest j
                  (settle_callback p id_text answer s.now j app c)
                  (λ r. (settle_callback-IsScheduled p id_text answer s.now j app c r).0) apart f,
            )
    ]

    execute_jobs-IsSound :
        (jobs : List Job) (n : ℕ) (s : JobStore)
        → IsSound s
        → Fetched s.jobs jobs
        → Distinct job_key jobs
        → All (λ j. is_live j.status ≡ true) jobs
        → IsSound (execute_jobs p id_text answer jobs n s).1
    unfolding execute_jobs
    execute_jobs-IsSound [] n s h f d live = h
    execute_jobs-IsSound (j ∷ rest) n s h f d live =
        let (r, s') = execute_job p id_text answer j s in
        let (sound, found) = execute_job-IsSound j rest s h f.0 live.0 d.0 f.1 in
        execute_jobs-IsSound rest (count_ok p id_text answer r n) s' sound found d.1 live.1

  run_due_jobs-IsSound :
      (answer : ℕ → Call → Reply) (limit : ℕ) (s : JobStore)
      → IsSound s
      → IsSound (run_due_jobs p id_text answer limit s).1
  unfolding run_due_jobs
  run_due_jobs-IsSound answer limit s h =
      let due = get_due_jobs_for_update limit s in
      let (found, apart, all_due, few) =
        get_due_jobs_for_update-Fetched p id_text answer limit s h.distinct in
      execute_jobs-IsSound answer due 0 s h found apart (
        All-map (λ j. is_due s.now j ≡ true) (λ j. is_live j.status ≡ true) due
          (λ j e. ground (arith, e)) all_due)

-- One call of a method, with what the outside world answers it, or the passing of time.
pub data JobStep (p : Platform) (id_text : ℕ → String) : JobStore → JobStore → Type 0 where
  created :
      {s : JobStore} (q : Queue) (commits : Bool) (job_id : String) (r : UnifiedJobRequest)
      → JobStep p id_text s (create_unified_job q id_text commits job_id r s).1
  callback_created :
      {s : JobStore} (g : Signer) (app_id : String) (r : CallbackRequest)
      → JobStep p id_text s (create_callback_job g app_id r s).1
  ran_db_jobs :
      {s : JobStore} (answer : ℕ → Call → Reply) (limit : ℕ)
      → JobStep p id_text s (run_due_db_jobs p id_text answer limit s).1
  ran_jobs :
      {s : JobStore} (answer : ℕ → Call → Reply) (limit : ℕ)
      → JobStep p id_text s (run_due_jobs p id_text answer limit s).1
  processed :
      {s : JobStore} (answer : Call → Reply) (m : UnifiedJobMessage) (name : String)
      → JobStep p id_text s (process_scheduled_message p answer m name s)
  retried : {s : JobStore} (id : ℕ) → JobStep p id_text s (retry_job id s).1
  deadlettered : {s : JobStore} (id : ℕ) → JobStep p id_text s (deadletter_job id s).1
  waited : {s : JobStore} (later : ℕ) → JobStep p id_text s (record s { now = later })

pub data JobReach (p : Platform) (id_text : ℕ → String) : JobStore → JobStore → Type 0 where
  here : {s : JobStore} → JobReach p id_text s s
  then_step :
      {s t u : JobStore} → JobReach p id_text s t → JobStep p id_text t u → JobReach p id_text s u

module _ (p : Platform) (id_text : ℕ → String) where
  JobStep-IsSound : {s t : JobStore} → JobStep p id_text s t → IsSound s → IsSound t
  JobStep-IsSound (JobStep.created {s} q commits job_id r) h =
      create_unified_job-IsSound q id_text commits job_id r s h
  JobStep-IsSound (JobStep.callback_created {s} g app_id r) h =
      create_callback_job-IsSound g app_id r s h
  JobStep-IsSound (JobStep.ran_db_jobs {s} answer limit) h =
      run_due_db_jobs-IsSound p id_text answer limit s h
  JobStep-IsSound (JobStep.ran_jobs {s} answer limit) h =
      run_due_jobs-IsSound p id_text answer limit s h
  JobStep-IsSound (JobStep.processed {s} answer m name) h =
      process_scheduled_message-IsSound p id_text answer m name s h
  JobStep-IsSound (JobStep.retried {s} id) h = retry_job-IsSound id s h
  JobStep-IsSound (JobStep.deadlettered {s} id) h = deadletter_job-IsSound id s h
  JobStep-IsSound (JobStep.waited {s} later) h =
      sent-IsSound s (record s { now = later }) refl refl h

  -- Every history keeps the invariant.
  pub JobReach-IsSound : {s t : JobStore} → JobReach p id_text s t → IsSound s → IsSound t
  JobReach-IsSound JobReach.here h = h
  JobReach-IsSound (JobReach.then_step past step) h = JobStep-IsSound step (JobReach-IsSound past h)
