-- ===== src/Tests/JobTests.antt =====
-- Jobs at concrete inputs (modules/job/job.service.ts).
use common_api.Base.{ℕ, ◌≡◌, refl, true, false, [], ◌∷◌, some, none, String, arith}
use common_api.Exceptions.{Exception, plain_error}
use common_api.Action.{err}
use common_api.Job.Entities.{
  pending, db, rest_api, ExecutionConfig, LambdaProxyMessage, Job, JobStore,
}
use common_api.Job.Repository.{get_due_jobs_for_update}
use common_api.Job.Processor.{
  Call, Reply, status_code, Platform, process_message, execute_rest_api, full_path, strip_slash,
}
use common_api.Job.Service.{
  delay_seconds, db_job_to_message, process_db_job, run_db_jobs, run_due_db_jobs, retry_job,
}
use common_api.Job.Creation.{UnifiedJobRequest, Queue}
use common_api.Job.Runs.{Ran, run_due_db_jobs-Ran}
use common_api.Job.Scheduling.{IsSound}
use common_api.Job.History.{JobStep, JobReach, JobReach-IsSound}

-- No two rows of these tests need texts that differ.
abbrev id_text : ℕ → String
id_text n = "7"

abbrev platform : Platform
platform = record {
  scheduler_role_arn = none;
  scheduler_target_url = none;
  valid_url = λ _. true;
  valid_json = λ _. true;
}

abbrev queue : Queue
queue = record { queue_url = some "https://queue"; accepts = λ _. true }

abbrev proxy : LambdaProxyMessage
proxy = record {
  body = some "{}";
  resource = "/{proxy+}";
  path = "/jobs";
  http_method = "POST";
  is_base64_encoded = false;
  path_parameters = [];
  query_string_parameters = none;
  headers = [];
  request_context = record { path = "/jobs"; resource_path = "/{proxy+}"; http_method = "POST" };
}

abbrev rest_config : ExecutionConfig
rest_config = record {
  type = rest_api;
  function_name = none;
  invocation_type = none;
  function_url = none;
  base_url = some "https://api.example.com/";
  schedule_expression = none;
  target_job = none;
}

abbrev rest_request : UnifiedJobRequest
rest_request = record {
  app_id = none;
  message = record {
    lambda_proxy_message = some proxy;
    execution = some rest_config;
    metadata = record {
      job_id = none;
      app_id = none;
      idempotency_key = some "key";
      message_group_id = "";
      created_at = 0;
      retry_count = none;
    };
  };
  mode = some db;
}

abbrev empty_store : JobStore
empty_store = record {
  jobs = [];
  apps = [];
  takes_job = λ _. true;
  next_id = 1;
  now = 1000;
  sent = [];
}

-- One job that calls a REST interface.
abbrev one_job : Job
one_job = record {
  id = 1;
  app_id = "a";
  type = none;
  execution_type = some rest_api;
  status = pending;
  payload = none;
  lambda_proxy_message = some proxy;
  execution_config = some rest_config;
  retry_count = 0;
  max_retries = 2;
  next_retry_at = some 500;
  last_error = none;
  schedule_arn = none;
  idempotency_key = none;
  message_group_id = some "rest-api";
  created_at = 0;
}

abbrev store : JobStore
store = record empty_store { jobs = one_job ∷ []; next_id = 2 }

abbrev answers : ℕ → Call → Reply
answers id call = status_code 201 none

abbrev refuses : ℕ → Call → Reply
refuses id call = status_code 500 none

-- A job without a message group fails whatever is answered.
abbrev legacy_job : Job
legacy_job = record one_job { message_group_id = none }

delays :
    delay_seconds 0 ∷ delay_seconds 3 ∷ delay_seconds 10 ∷ delay_seconds 11 ∷ []
    ≡ 60 ∷ 480 ∷ 61440 ∷ 86400 ∷ []
unfolding delay_seconds
delays = refl

urls :
    strip_slash "https://a/" ∷ full_path "b" ∷ full_path "/b" ∷ [] ≡ "https://a" ∷ "/b" ∷ "/b" ∷ []
unfolding strip_slash full_path
urls = refl

one_run_processes : (run_due_db_jobs platform id_text answers 10 store).0 ≡ 1
unfolding run_due_db_jobs run_db_jobs get_due_jobs_for_update process_db_job process_message
    execute_rest_api
one_run_processes = refl

run_due_db_jobs-Ran_example :
    let (processed, s) = run_due_db_jobs platform id_text answers 10 store in
    Ran platform id_text answers 10 store processed s
run_due_db_jobs-Ran_example = run_due_db_jobs-Ran platform id_text answers 10 store (refl, tt)

store-Reach :
    JobReach platform id_text store
      (retry_job 1 (run_due_db_jobs platform id_text refuses 10 store).1).1
store-Reach =
    JobReach.then_step (JobReach.then_step JobReach.here (JobStep.ran_db_jobs refuses 10))
      (JobStep.retried 1)

store-IsSound : IsSound store
store-IsSound = record { distinct = (refl, tt); below = (omega arith, tt); scheduled = (refl, tt) }

JobReach-IsSound_example :
    IsSound (retry_job 1 (run_due_db_jobs platform id_text refuses 10 store).1).1
JobReach-IsSound_example = JobReach-IsSound platform id_text store-Reach store-IsSound

legacy_fails :
    (x : Job)
    → x.id ≡ 1
    → x.message_group_id ≡ none
    → (e : Exception) × (process_db_job platform id_text answers x ≡ err e)
unfolding process_db_job db_job_to_message
legacy_fails x _ e = (plain_error "Job is missing messageGroupId", ground (arith, e))
