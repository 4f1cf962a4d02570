-- ===== src/Files/Work.antt =====
-- `claim`, `current`, `fail`, `publish` and `interrupted`: how a worker takes a job and ends it.
use ctfd_challenge_container.Prelude.{
  ℕ, suc, ◌+◌, ◌*◌, ◌^◌, Bool, false, not, ◌&&◌, ◌||◌, String, Option, none, some, List, [], ◌∷◌,
  map, if◌then◌else◌, str_eq, ◌==◌, select, any, all, sum, leb,
}
use ctfd_challenge_container.Schema.{seconds}
use ctfd_challenge_container.Table.{delete_where}
use ctfd_challenge_container.Files.{
  JobState, Recipe, JobError, Job, Artifact, Store, Usage, Error, Outcome, done, raised, is_queued,
  is_running, is_recipe, fits_space, generation_eq,
}
use ctfd_challenge_container.Files.Jobs.{
  available_recipe, read_job, write_job, takes_precedence, sorted,
}
use ctfd_challenge_container.Files.Retire.{superseded}

abbrev pub is_due : ℕ → Job → Bool
is_due now job = is_queued job.state && leb job.next_attempt now

abbrev pub taken : String → ℕ → Job → Job
taken generation now job = record job {
  state = JobState.running;
  attempts = suc job.attempts;
  updated = now;
  generation = some generation;
}

-- The loop over the candidates.
unfoldable pub claim_each : Usage → String → ℕ → List Job → Store → Option Job × Store
claim_each usage generation now [] store = (none, store)
claim_each usage generation now (job ∷ jobs) store =
    if not (is_recipe (available_recipe store job.challenge_id) job.recipe)
    then claim_each usage generation now jobs
        (record store { jobs = write_job (superseded now job) store.jobs })
    else if not (fits_space usage job.recipe.max_output_bytes)
    then claim_each usage generation now jobs store
    else (
      some (taken generation now job),
      record store { jobs = write_job (taken generation now job) store.jobs },
    )

-- The section of `claim` under the exclusive lock.
unfoldable pub claim_locked : Usage → String → ℕ → Store → Option Job × Store
claim_locked usage generation now store =
    claim_each usage generation now (sorted takes_precedence (select (is_due now) store.jobs)) store

-- `claim`; `between` is what others do after the first look, at `first`, and before the lock.
unfoldable pub claim : Usage → String → ℕ → (Store → Store) → ℕ → Store → Option Job × Store
claim usage generation first between now store =
    if any (is_due first) store.jobs
    then claim_locked usage generation now (between store)
    else (none, between store)

-- The job on disk is still the attempt that the worker holds.
abbrev pub is_held : Job → Job → Bool
is_held job current =
    is_running current.state
    && current.attempts == job.attempts
    && generation_eq current.generation job.generation

unfoldable pub current : Job → Store → Bool
current job store = elim (read_job job.key store) [
  | none ↦ false
  | some now_there ↦
      is_held job now_there && is_recipe (available_recipe store job.challenge_id) job.recipe
]

unfoldable pub interrupted : Store → List Job
interrupted store = select (λ j. is_running j.state) store.jobs

-- The two readings of the clock in `fail` are taken as one.
abbrev pub after_failure : Bool → JobError → ℕ → Job → Job
after_failure changed error now job = record job {
  state = if leb 3 job.attempts || changed then JobState.failed else JobState.queued;
  error = if changed then JobError.configuration_changed else error;
  updated = now;
  next_attempt = now + seconds (5 * 2 ^ job.attempts);
}

unfoldable pub fail : Job → JobError → ℕ → Store → Store
fail job error now store = elim (read_job job.key store) [
  | none ↦ store
  | some there ↦
      if not (is_held job there)
      then store
      else let changed = not (is_recipe (available_recipe store there.challenge_id) there.recipe) in
        record store { jobs = write_job (after_failure changed error now there) store.jobs }
]

-- An entry of the stage directory.
pub record StageFile : Type 0 where
  pub name : String
  pub is_regular : Bool
  pub size : ℕ

abbrev has_name : String → List StageFile → Bool
has_name name stage = any (λ f. str_eq f.name name) stage

-- The checks before the lock.
unfoldable pub stage_valid : Recipe → List StageFile → Bool
stage_valid recipe stage =
    all (λ f. any (λ name. str_eq name f.name) recipe.outputs) stage
    && all (λ name. has_name name stage) recipe.outputs
    && all (λ f. f.is_regular) stage
    && leb (sum (map (λ f. f.size) stage)) recipe.max_output_bytes

abbrev pub published : ℕ → Job → Job
published now job = record job { state = JobState.ready; updated = now; error = JobError.no_error }

abbrev pub put_artifact : String → List StageFile → List Artifact → List Artifact
put_artifact key stage artifacts =
    record { job_key = key; files = map (λ f. f.name) stage }
    ∷ delete_where (λ a. str_eq a.job_key key) artifacts

unfoldable pub publish : Job → List StageFile → ℕ → Store → Outcome (Unit {0}) × Store
publish job stage now store =
    if not (stage_valid job.recipe stage)
    then (raised Error.artifact_unavailable, store)
    else elim (read_job job.key store) [
      | none ↦ (raised Error.recipe_changed, store)
      | some there ↦
          if not (is_held job there)
          then (raised Error.recipe_changed, store)
          else if not (is_recipe (available_recipe store job.challenge_id) job.recipe)
          then (raised Error.recipe_changed, store)
          else (
            done tt,
            record store {
              artifacts = put_artifact job.key stage store.artifacts;
              jobs = write_job (published now there) store.jobs;
            },
          )
    ]
