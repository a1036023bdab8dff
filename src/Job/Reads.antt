-- ===== src/Job/Reads.antt =====
-- The reads of jobs with filters (modules/job/repositories/job.repository.ts, findWithFilters).
use common_api.Base.{
  ℕ, zero, suc, String, Bool, true, false, ◌&&◌, List, Option, some, none, str_eq, or_default,
  length, select,
}
use common_api.Base.Pages.{page}
use common_api.Job.Entities.{
  JobStatus, pending, retrying, succeeded, failed, dead, JobType, callback_http, reward_grant, Job,
  JobStore,
}

abbrev pub same_job_status : JobStatus → JobStatus → Bool
same_job_status pending pending = true
same_job_status retrying retrying = true
same_job_status succeeded succeeded = true
same_job_status failed failed = true
same_job_status dead dead = true
same_job_status _ _ = false

abbrev pub has_job_status : Option JobStatus → Job → Bool
has_job_status none j = true
has_job_status (some status) j = same_job_status j.status status

abbrev pub same_type : JobType → Option JobType → Bool
same_type callback_http (some callback_http) = true
same_type reward_grant (some reward_grant) = true
same_type _ _ = false

abbrev pub has_job_type : Option JobType → Job → Bool
has_job_type none j = true
has_job_type (some type) j = same_type type j.type

-- The `WHERE` of findWithFilters
abbrev pub passes_filters : String → Option JobStatus → Option JobType → Job → Bool
passes_filters app status type j =
    str_eq j.app_id app && (has_job_status status j && has_job_type type j)

-- `if (filters.limit)`: a limit of 0 is none.
abbrev pub limit_of : Option ℕ → ℕ → ℕ
limit_of none all = all
limit_of (some zero) all = all
limit_of (some (suc n)) all = suc n

-- JobRepository.findWithFilters, under the order of `ORDER BY createdAt DESC`.
unfoldable pub find_with_filters :
    (List Job → List Job)
    → String
    → Option JobStatus
    → Option JobType
    → Option ℕ
    → Option ℕ
    → JobStore
    → List Job × ℕ
find_with_filters newest_jobs app status type limit offset s =
    page newest_jobs (passes_filters app status type) s.jobs
      (limit_of limit (length (select (passes_filters app status type) s.jobs)))
      (or_default offset 0)
