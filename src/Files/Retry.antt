-- ===== src/Files/Retry.antt =====
-- `retry_failed`: the jobs that failed for good are queued again, within the limits of the queue.
use ctfd_challenge_container.Prelude.{
  ℕ, suc, ◌+◌, ◌-◌, ◌/◌, Bool, false, not, ◌&&◌, ◌||◌, Option, none, some, List, [], ◌∷◌, map,
  if◌then◌else◌, select, sum, leb, length,
}
use ctfd_challenge_container.Schema.{OwnerKind, kind_eq}
use ctfd_challenge_container.Files.{
  JobState, JobError, Job, Store, Usage, Error, Outcome, done, raised, is_failed, is_pending,
  is_configuration_changed, is_recipe, fits_space,
}
use ctfd_challenge_container.Files.Jobs.{available_recipe, write_job, takes_precedence, sorted}
use ctfd_challenge_container.Files.Retire.{Limits}

abbrev pub is_retriable : OwnerKind → Store → Job → Bool
is_retriable kind store job =
    is_failed job.state
    && leb 3 job.attempts
    && not job.obsolete
    && not (is_configuration_changed job.error)
    && kind_eq job.owner.kind kind
    && is_recipe (available_recipe store job.challenge_id) job.recipe

abbrev pub requeued : ℕ → Job → Job
requeued now job = record job {
  state = JobState.queued;
  attempts = 0;
  next_attempt = 0;
  error = JobError.no_error;
  updated = now;
}

abbrev pub queue_limit : Limits → Job → ℕ
queue_limit limits job = if job.background then limits.max_pending / 2 else limits.max_pending

-- The loop over the failed jobs, with the number pending and the bytes reserved; it counts the
-- retried.
unfoldable pub retry_each : Limits → Usage → ℕ → ℕ → ℕ → ℕ → List Job → Store → ℕ × Store
retry_each limits usage now pending reserved retried [] store = (retried, store)
retry_each limits usage now pending reserved retried (job ∷ jobs) store =
    if leb (queue_limit limits job) pending
      || not (fits_space usage (reserved + job.recipe.max_output_bytes))
    then retry_each limits usage now pending reserved retried jobs store
    else retry_each limits usage now (suc pending) (reserved + job.recipe.max_output_bytes)
        (suc retried) jobs (record store { jobs = write_job (requeued now job) store.jobs })

abbrev pub is_mode : Option OwnerKind → OwnerKind → Bool
is_mode none kind = false
is_mode (some mode) kind = kind_eq mode kind

-- The numbers of jobs retried and remaining.
unfoldable pub retry_failed : Limits → Usage → OwnerKind → ℕ → Store → Outcome (ℕ × ℕ) × Store
retry_failed limits usage kind now store =
    if not (is_mode store.owner_mode kind)
    then (raised Error.store_error, store)
    else let waiting = sorted takes_precedence (select (is_retriable kind store) store.jobs) in
      let pending = select is_pending store.jobs in
      let (retried, store') =
        retry_each limits usage now (length pending)
          (sum (map (λ j. j.recipe.max_output_bytes) pending)) 0 waiting store in
      (done (retried, length waiting - retried), store')
