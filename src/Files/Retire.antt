-- ===== src/Files/Retire.antt =====
-- `_retire_obsolete`, `_retire_matching`, `set_recipe`, `delete_recipe` and `_collect`: how jobs end.
use ctfd_challenge_container.Prelude.{
  ℕ, ◌+◌, ◌-◌, Bool, true, false, not, ◌&&◌, ◌||◌, String, Option, none, some, List, [], ◌∷◌,
  if◌then◌else◌, str_eq, ◌==◌, length, select, any, leb, ltb,
}
use ctfd_challenge_container.Schema.{OwnerKey, seconds, owner_eq}
use ctfd_challenge_container.Table.{delete_where}
use ctfd_challenge_container.Files.{
  JobState, Recipe, JobError, Job, RecipeFile, Store, Error, Outcome, done, raised, is_ready,
  is_running, is_pending, is_recipe,
}
use ctfd_challenge_container.Files.Jobs.{available_recipe, write_job, drop_job, sorted}

abbrev pub superseded : ℕ → Job → Job
superseded now job = record job {
  state = JobState.failed;
  error = JobError.configuration_changed;
  updated = now;
}

-- A job that another recipe of its challenge replaces; `recipe` is none when the recipe is deleted.
abbrev pub is_obsolete : ℕ → Option Recipe → Job → Bool
is_obsolete challenge_id recipe job =
    job.challenge_id == challenge_id
    && not (is_recipe recipe job.recipe)
    && not (is_ready job.state)

-- The loop over the jobs: a running one is failed by `mark`, any other goes with its artifacts.
unfoldable pub retire_each : (Job → Bool) → (Job → Job) → List Job → Store → Store
retire_each obsolete mark [] store = store
retire_each obsolete mark (job ∷ jobs) store =
    if not (obsolete job)
    then retire_each obsolete mark jobs store
    else if is_running job.state
    then retire_each obsolete mark jobs (record store { jobs = write_job (mark job) store.jobs })
    else retire_each obsolete mark jobs (drop_job job.key store)

-- `_retire_obsolete`
unfoldable pub retire_obsolete : ℕ → Option Recipe → ℕ → Store → Store
retire_obsolete challenge_id recipe now store =
    retire_each (is_obsolete challenge_id recipe) (superseded now) store.jobs store

abbrev pub outdated : ℕ → Job → Job
outdated now job = record (superseded now job) { obsolete = true }

-- `_retire_matching`
unfoldable pub retire_matching : (Job → Bool) → ℕ → Store → Store
retire_matching obsolete now store = retire_each obsolete (outdated now) store.jobs store

-- `_retire_identity`: the owner's other jobs for the challenge.
unfoldable pub retire_identity : ℕ → OwnerKey → String → ℕ → Store → Store
retire_identity challenge_id owner key now =
    retire_matching
      (λ job.
        job.challenge_id == challenge_id && owner_eq job.owner owner && not (str_eq job.key key))
      now

abbrev pub of_challenge : ℕ → RecipeFile → Bool
of_challenge challenge_id f = f.challenge == challenge_id

abbrev pub put_recipe : ℕ → Recipe → List RecipeFile → List RecipeFile
put_recipe challenge_id recipe files =
    record { challenge = challenge_id; content = some recipe }
    ∷ delete_where (of_challenge challenge_id) files

-- `set_recipe` of a recipe that was validated.
unfoldable pub set_recipe : ℕ → Recipe → ℕ → Store → Outcome Recipe × Store
set_recipe challenge_id recipe now store =
    if is_recipe (available_recipe store challenge_id) recipe
    then (done recipe, store)
    else if not (any (of_challenge challenge_id) store.recipes) && leb 2048 (length store.recipes)
    then (raised Error.queue_full, store)
    else (
      done recipe,
      retire_obsolete challenge_id (some recipe) now
          (record store { recipes = put_recipe challenge_id recipe store.recipes }),
    )

unfoldable pub delete_recipe : ℕ → ℕ → Store → Store
delete_recipe challenge_id now store =
    retire_obsolete challenge_id none now
      (record store { recipes = delete_where (of_challenge challenge_id) store.recipes })

-- `max_jobs` (0 for no limit) and `retention_seconds` of the store.
pub record Limits : Type 0 where
  pub max_pending : ℕ
  pub max_jobs : ℕ
  pub retention_seconds : Option ℕ

abbrev is_expired : Option ℕ → ℕ → Job → Bool
is_expired none now job = false
is_expired (some keep) now job = leb (job.updated + seconds keep) now

abbrev under_pressure : Bool → ℕ → ℕ → Bool
under_pressure evict max_jobs remaining = evict && ltb 0 max_jobs && leb max_jobs remaining

-- Neither expired nor obsolete, and no pressure to evict.
abbrev pub spared : Limits → Bool → ℕ → ℕ → Store → Job → Bool
spared limits evict now remaining store job =
    not (is_expired limits.retention_seconds now job)
    && not (not (is_recipe (available_recipe store job.challenge_id) job.recipe) || job.obsolete)
    && not (under_pressure evict limits.max_jobs remaining)

-- The loop of `_collect`; the recipes do not change in it.
unfoldable pub collect_each : Limits → Bool → ℕ → ℕ → List Job → Store → Store
collect_each limits evict now remaining [] store = store
collect_each limits evict now remaining (job ∷ jobs) store =
    if spared limits evict now remaining store job
    then collect_each limits evict now remaining jobs store
    else collect_each limits evict now (remaining - 1) jobs (drop_job job.key store)

unfoldable pub collect : Limits → Bool → ℕ → Store → Store
collect limits evict now store =
    collect_each limits evict now (length store.jobs)
      (sorted (λ a b. leb a.updated b.updated) (select (λ j. not (is_pending j)) store.jobs)) store
