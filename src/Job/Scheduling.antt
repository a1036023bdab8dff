-- ===== src/Job/Scheduling.antt =====
-- When a job is scheduled: a row is live (PENDING or RETRYING) exactly while it has a time for its
-- next try, and rows keep distinct identifiers, under every method of the job service.
use mathlib.Core.Path.{subst}
use mathlib.Core.Option.{some_inj}
use common_api.Base.{
  Bool-cases, inl, inr, ℕ, ◌≡◌, refl, ◌∙◌, sym, Bool, true, List, [], ◌∷◌, Option, some, none,
  is_some, String, All, All-append, arith,
}
use common_api.Base.Table.{
  find?, modify, Distinct, Below, modify-Distinct, modify-Below, append-Distinct, append-Below,
  All-modify_found,
}
use common_api.Job.Entities.{JobStatus, Job, JobStore, App, CallbackJobPayload}
use common_api.Job.Repository.{
  job_key, is_live, NewJob, job_of, create_job, update_job, find_job, get_due_jobs_for_update,
}
use common_api.Job.Processor.{Call, Reply, Platform}
use common_api.Job.Service.{
  settle_db_job, run_db_jobs, run_due_db_jobs, settle_callback, change_job, set_pending, set_dead,
  retry_job, deadletter_job, count_ok, process_db_job,
}

-- Live exactly while a next try is scheduled.
abbrev pub IsScheduled : Job → Type 0
IsScheduled j = is_live j.status ≡ is_some j.next_retry_at

pub record IsSound (s : JobStore) : Type 0 where
  pub distinct : Distinct job_key s.jobs
  pub below : Below job_key s.next_id s.jobs
  pub scheduled : All IsScheduled s.jobs

update-IsSound :
    (k : ℕ) (f : Job → Job) (s : JobStore)
    → ((r : Job) → (f r).id ≡ r.id)
    → ((r : Job) → find? job_key k s.jobs ≡ some r → IsScheduled r → IsScheduled (f r))
    → IsSound s
    → IsSound (record s { jobs = modify job_key k f s.jobs })
update-IsSound k f s same keep h = record {
  distinct = modify-Distinct job_key k f s.jobs same h.distinct;
  below = modify-Below job_key s.next_id k f s.jobs same h.below;
  scheduled = All-modify_found job_key IsScheduled k f s.jobs h.distinct keep h.scheduled;
}

-- A new row that starts live.
abbrev pub starts_live : Option JobStatus → Bool
starts_live none = true
starts_live (some status) = is_live status

pub create_job-IsSound :
    (d : NewJob) (s : JobStore)
    → starts_live d.status ≡ true
    → IsSound s
    → IsSound (create_job d s).1
unfolding create_job job_of
create_job-IsSound d s live h =
    let j = job_of d s.next_id s.now in
    elim (Bool-cases (s.takes_job j)) [
      | inr refused ↦ rw refused h
      | inl taken ↦ rw taken (record {
        distinct = append-Distinct job_key s.next_id s.jobs j h.below refl h.distinct;
        below = append-Below job_key s.next_id s.jobs j h.below refl;
        scheduled = All-append IsScheduled s.jobs (j ∷ []) h.scheduled (ground arith, tt);
      })
    ]

pub retry_job-IsSound : (id : ℕ) (s : JobStore) → IsSound s → IsSound (retry_job id s).1
unfolding retry_job change_job find_job update_job
retry_job-IsSound id s h =
    ground (arith, h, update-IsSound id (set_pending s.now) s (λ r. refl) (λ r _ _. refl) h)

pub deadletter_job-IsSound : (id : ℕ) (s : JobStore) → IsSound s → IsSound (deadletter_job id s).1
unfolding deadletter_job change_job find_job update_job
deadletter_job-IsSound id s h =
    ground (arith, h, update-IsSound id set_dead s (λ r. refl) (λ r _ _. refl) h)

module _ (p : Platform) (id_text : ℕ → String) (answer : ℕ → Call → Reply) where
  settle_db_job-IsScheduled :
      (now : ℕ) (fetched j : Job)
      → ((settle_db_job p id_text answer now fetched j).id ≡ j.id)
        × IsScheduled (settle_db_job p id_text answer now fetched j)
  unfolding settle_db_job
  settle_db_job-IsScheduled now fetched j = ground arith

  run_db_jobs-IsSound :
      (jobs : List Job) (n : ℕ) (s : JobStore)
      → IsSound s
      → IsSound (run_db_jobs p id_text answer jobs n s).1
  unfolding run_db_jobs update_job
  run_db_jobs-IsSound [] n s h = h
  run_db_jobs-IsSound (j ∷ rest) n s h =
      run_db_jobs-IsSound rest (count_ok p id_text answer (process_db_job p id_text answer j) n) _ (
        update-IsSound j.id (settle_db_job p id_text answer s.now j) s
          (λ r. (settle_db_job-IsScheduled s.now j r).0)
          (λ r _ _. (settle_db_job-IsScheduled s.now j r).1) h)

  pub run_due_db_jobs-IsSound :
      (limit : ℕ) (s : JobStore) → IsSound s → IsSound (run_due_db_jobs p id_text answer limit s).1
  unfolding run_due_db_jobs
  run_due_db_jobs-IsSound limit s h = run_db_jobs-IsSound (get_due_jobs_for_update limit s) 0 s h

  pub settle_callback-IsScheduled :
      (now : ℕ) (fetched : Job) (app : App) (c : CallbackJobPayload) (j : Job)
      → ((settle_callback p id_text answer now fetched app c j).id ≡ j.id)
        × (is_live j.status ≡ true
            → IsScheduled (settle_callback p id_text answer now fetched app c j))
  unfolding settle_callback
  settle_callback-IsScheduled now fetched app c j = ground arith

  -- The callback of a row that is still as it was fetched.
  pub settle_callback-IsSound :
      (j : Job) (app : App) (c : CallbackJobPayload) (s : JobStore)
      → find? job_key j.id s.jobs ≡ some j
      → is_live j.status ≡ true
      → IsSound s
      → IsSound (record s {
        jobs = modify job_key j.id (settle_callback p id_text answer s.now j app c) s.jobs;
      })
  settle_callback-IsSound j app c s here live h =
      update-IsSound j.id (settle_callback p id_text answer s.now j app c) s
        (λ r. (settle_callback-IsScheduled s.now j app c r).0)
        (λ r found _.
          (settle_callback-IsScheduled s.now j app c r).1
            (subst (λ x. is_live x.status ≡ true) (some_inj.0 (sym here ∙ found)) live))
        h
