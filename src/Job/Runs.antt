-- ===== src/Job/Runs.antt =====
-- What a run of the due jobs does to the table (JobService.runDueDbJobs): every job that is
-- fetched is settled once, by its own outcome, and no other row changes.
use mathlib.Core.Path.{subst}
use common_api.Base.{
  ==_iff, ◌∙◌, ℕ, ◌+◌, ◌≤◌, ◌≡◌, refl, true, List, [], ◌∷◌, Option, some, none, String, ◌==◌,
  Bool-cases, inl, inr, select, total, length, All, All-select, All-take, select-passes,
  length-take-le, arith,
}
use common_api.Base.Table.{find?, modify, Distinct, find?-modify, find?_self}
use common_api.Base.Sort.{sort_rows, All-sort_rows}
use common_api.Base.Query.{select-Distinct, sort_rows-Distinct, take-Distinct}
use common_api.Action.{ok, err}
use common_api.Job.Entities.{Job, JobStore}
use common_api.Job.Repository.{job_key, is_due, retry_column, get_due_jobs_for_update, update_job}
use common_api.Job.Processor.{Call, Reply, Platform}
use common_api.Job.Service.{process_db_job, settle_db_job, run_db_jobs, run_due_db_jobs, count_ok}

abbrev pub Fetched : List Job → List Job → Type 0
Fetched table = All (λ j. find? job_key j.id table ≡ some j)

module _ (p : Platform) (id_text : ℕ → String) (answer : ℕ → Call → Reply) where
  settle_db_job-key :
      (now : ℕ) (fetched j : Job) → (settle_db_job p id_text answer now fetched j).id ≡ j.id
  unfolding settle_db_job
  settle_db_job-key now fetched j = ground arith

  -- The row under one key after the jobs of a list are run.
  abbrev pub settled : ℕ → List Job → JobStore → Option Job
  settled k jobs s = elim (find? job_key k jobs) [
    | none ↦ find? job_key k s.jobs
    | some j ↦ some (settle_db_job p id_text answer s.now j j)
  ]

  pub modify-Fetched :
      (table rest : List Job) (j : Job) (f : Job → Job)
      → ((r : Job) → (f r).id ≡ r.id)
      → find? job_key j.id rest ≡ none
      → Fetched table rest
      → Fetched (modify job_key j.id f table) rest
  modify-Fetched table [] j f keep h t = tt
  modify-Fetched table (x ∷ rest) j f keep h t = (
    ground (arith, t.0, find?-modify job_key x.id j.id f table keep),
    modify-Fetched table rest j f keep (ground arith) t.1,
  )

  settled-cons :
      (k : ℕ) (j : Job) (rest : List Job) (s : JobStore)
      → find? job_key j.id s.jobs ≡ some j
      → find? job_key j.id rest ≡ none
      → settled k rest
          (record s { jobs = modify job_key j.id (settle_db_job p id_text answer s.now j) s.jobs })
        ≡ settled k (j ∷ rest) s
  settled-cons k j rest s here apart =
      let change = settle_db_job p id_text answer s.now j in
      let moved = find?-modify job_key k j.id change s.jobs (settle_db_job-key s.now j) in
      elim (Bool-cases (j.id == k)) [
        | inl e ↦
            let same : j.id ≡ k = (==_iff j.id k).0 e in
            ground (
              arith,
              moved,
              subst (λ m. find? job_key m s.jobs ≡ some j) same here,
              subst (λ m. find? job_key m rest ≡ none) same apart,
            )
        | inr e ↦ ground (arith, moved)
      ]

  run_db_jobs-settled :
      (jobs : List Job) (n : ℕ) (s : JobStore) (k : ℕ)
      → Fetched s.jobs jobs
      → Distinct job_key jobs
      → find? job_key k (run_db_jobs p id_text answer jobs n s).1.jobs ≡ settled k jobs s
  unfolding run_db_jobs update_job
  run_db_jobs-settled [] n s k f d = refl
  run_db_jobs-settled (j ∷ rest) n s k f d =
      let change = settle_db_job p id_text answer s.now j in
      let s' : JobStore = record s { jobs = modify job_key j.id change s.jobs } in
      run_db_jobs-settled rest (count_ok p id_text answer (process_db_job p id_text answer j) n) s'
        k (modify-Fetched s.jobs rest j change (settle_db_job-key s.now j) d.0 f.1) d.1
      ∙ settled-cons k j rest s f.0 d.0

  -- The jobs that a run fetches.
  pub get_due_jobs_for_update-Fetched :
      (limit : ℕ) (s : JobStore)
      → Distinct job_key s.jobs
      → Fetched s.jobs (get_due_jobs_for_update limit s)
        × Distinct job_key (get_due_jobs_for_update limit s)
        × All (λ j. is_due s.now j ≡ true) (get_due_jobs_for_update limit s)
        × (length (get_due_jobs_for_update limit s) ≤ limit)
  unfolding get_due_jobs_for_update
  get_due_jobs_for_update-Fetched limit s d =
      let due = select (is_due s.now) s.jobs in
      let ordered = sort_rows retry_column due in
      (
        All-take _ limit ordered (
            All-sort_rows retry_column _ due
              (All-select _ (is_due s.now) s.jobs (find?_self job_key s.jobs d))),
        take-Distinct job_key retry_column limit ordered (
            sort_rows-Distinct job_key retry_column due
              (select-Distinct job_key retry_column (is_due s.now) s.jobs d)),
        All-take _ limit ordered
            (All-sort_rows retry_column _ due (select-passes (is_due s.now) s.jobs)),
        length-take-le limit ordered,
      )

  abbrev pub succeeds : Job → ℕ
  succeeds j = elim (process_db_job p id_text answer j) [ ok _ ↦ 1 | err _ ↦ 0 ]

  run_db_jobs-count :
      (jobs : List Job) (n : ℕ) (s : JobStore)
      → ((run_db_jobs p id_text answer jobs n s).0 ≡ n + total succeeds jobs)
        × (total succeeds jobs ≤ length jobs)
  unfolding run_db_jobs
  run_db_jobs-count [] n s = omega arith
  run_db_jobs-count (j ∷ rest) n s = ground (
    arith,
    run_db_jobs-count rest (count_ok p id_text answer (process_db_job p id_text answer j) n)
        (record s { jobs = update_job j.id (settle_db_job p id_text answer s.now j) s.jobs }),
  )

  -- What a run has done.
  pub record Ran (limit : ℕ) (s : JobStore) (processed : ℕ) (s' : JobStore) : Type 0 where
    pub only_due : All (λ j. is_due s.now j ≡ true) (get_due_jobs_for_update limit s)
    pub rows : (k : ℕ) → find? job_key k s'.jobs ≡ settled k (get_due_jobs_for_update limit s) s
    pub counted : processed ≡ total succeeds (get_due_jobs_for_update limit s)
    pub within_limit : processed ≤ limit

  -- A run of a table with distinct keys fetches only jobs that are due; each that it fetches is
  -- left as its own outcome settles it, every other row as it was; and it returns the number of
  -- successes, at most the limit.
  pub run_due_db_jobs-Ran :
      (limit : ℕ) (s : JobStore)
      → Distinct job_key s.jobs
      → let (processed, s') = run_due_db_jobs p id_text answer limit s in Ran limit s processed s'
  unfolding run_due_db_jobs
  run_due_db_jobs-Ran limit s d =
      let due = get_due_jobs_for_update limit s in
      let (found, apart, all_due, few) = get_due_jobs_for_update-Fetched limit s d in
      let count = run_db_jobs-count due 0 s in
      record {
        only_due = all_due;
        rows = λ k. run_db_jobs-settled due 0 s k found apart;
        counted = omega (arith, count);
        within_limit = omega (arith, count, few);
      }
