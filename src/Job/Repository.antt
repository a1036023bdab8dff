-- ===== src/Job/Repository.antt =====
-- JobRepository (modules/job/repositories/job.repository.ts) and AppRepository.findById.
use common_api.Base.{
  ℕ, ◌+◌, String, Bool, true, false, ◌&&◌, List, [], ◌∷◌, ◌++◌, Option, some, none, leb, str_eq,
  if◌then◌else◌, or_default, select, take,
}
use common_api.Base.Table.{find?, modify}
use common_api.Base.Sort.{sort_rows}
use common_api.Action.{ok, err, Action}
use common_api.Exceptions.{plain_error}
use common_api.Job.Entities.{
  JobStatus, pending, retrying, JobType, ExecutionType, LambdaProxyMessage, ExecutionConfig,
  CallbackJobPayload, Job, App, JobStore,
}

-- The key of a job.
abbrev pub job_key : Job → ℕ
job_key j = j.id

-- JobRepository.findById
unfoldable pub find_job : ℕ → List Job → Option Job
find_job id jobs = find? job_key id jobs

-- What JobRepository.create is given.
pub record NewJob : Type 0 where
  pub app_id : String
  pub type : Option JobType
  pub payload : Option CallbackJobPayload
  pub execution_type : Option ExecutionType
  pub lambda_proxy_message : Option LambdaProxyMessage
  pub execution_config : Option ExecutionConfig
  pub message_group_id : Option String
  pub idempotency_key : Option String
  pub schedule_arn : Option String
  pub status : Option JobStatus
  pub retry_count : Option ℕ
  pub max_retries : Option ℕ
  pub next_retry_at : Option ℕ
  pub last_error : Option String

-- The row that JobRepository.create saves, with its defaults.
unfoldable pub job_of : NewJob → ℕ → ℕ → Job
job_of d id now = record {
  id = id;
  app_id = d.app_id;
  type = d.type;
  execution_type = d.execution_type;
  status = or_default d.status pending;
  payload = d.payload;
  lambda_proxy_message = d.lambda_proxy_message;
  execution_config = d.execution_config;
  retry_count = or_default d.retry_count 0;
  max_retries = or_default d.max_retries 10;
  next_retry_at = some (or_default d.next_retry_at now);
  last_error = d.last_error;
  schedule_arn = d.schedule_arn;
  idempotency_key = d.idempotency_key;
  message_group_id = d.message_group_id;
  created_at = now;
}

-- JobRepository.create; the database may refuse the row.
unfoldable pub create_job : NewJob → Action JobStore Job
create_job d s =
    let j = job_of d s.next_id s.now in
    if s.takes_job j
    then (ok j, record s { jobs = s.jobs ++ j ∷ []; next_id = s.next_id + 1 })
    else (err (plain_error "the database refuses the row"), s)

abbrev pub is_live : JobStatus → Bool
is_live pending = true
is_live retrying = true
is_live _ = false

abbrev pub due_by : ℕ → Option ℕ → Bool
due_by now none = false
due_by now (some t) = leb t now

-- The `WHERE` of JobRepository.getDueJobsForUpdate
abbrev pub is_due : ℕ → Job → Bool
is_due now j = is_live j.status && due_by now j.next_retry_at

abbrev pub retry_column : Job → ℕ
retry_column j = or_default j.next_retry_at 0

-- JobRepository.getDueJobsForUpdate, where no other transaction holds a row.
unfoldable pub get_due_jobs_for_update : ℕ → JobStore → List Job
get_due_jobs_for_update limit s = take limit (sort_rows retry_column (select (is_due s.now) s.jobs))

-- JobRepository.update
unfoldable pub update_job : ℕ → (Job → Job) → List Job → List Job
update_job id change jobs = modify job_key id change jobs

-- AppRepository.findById
unfoldable pub find_app : String → List App → Option App
find_app id [] = none
find_app id (a ∷ apps) = if str_eq a.id id then some a else find_app id apps
