-- ===== src/Files/Tests.antt =====
-- A store with a job that waits and one that failed for good, and the properties of the store applied
-- to it.
use ctfd_challenge_container.Prelude.{
  ℕ, ◌+◌, ◌≤◌, true, false, ◌≡◌, refl, ◌⊎◌, some, List, [], ◌∷◌, arith, length, select,
}
use ctfd_challenge_container.Schema.{OwnerKind}
use ctfd_challenge_container.Table.{fits, update_where}
use ctfd_challenge_container.Files.{
  JobState, Recipe, JobError, Job, Store, Usage, Error, done, raised, is_pending, recipe_eq,
  names_eq, fits_space,
}
use ctfd_challenge_container.Files.Jobs.{
  read_job, write_job, available_recipe, complete, sorted, insert_sorted, takes_precedence,
}
use ctfd_challenge_container.Files.Retire.{Limits, collect}
use ctfd_challenge_container.Files.Work.{
  taken, claim, claim_locked, claim_each, StageFile, stage_valid, published, publish, fail, current,
}
use ctfd_challenge_container.Files.Retry.{requeued, retry_each, retry_failed}
use ctfd_challenge_container.Files.Attempts.{
  Op, claims, fails, collects, retries, AllBounded, run, run-AllBounded,
}
use ctfd_challenge_container.Files.Fencing.{claim-publish, claim_fences}
use ctfd_challenge_container.Files.Kept.{IsKeyed, collect-pending, retry_failed_limits}

abbrev recipe : Recipe
recipe = record {
  version = "1";
  image = "sha256:00";
  outputs = "flag.txt" ∷ [];
  timeout_seconds = 120;
  max_output_bytes = 100;
}

abbrev waiting : Job
waiting = record {
  key = "a";
  challenge_id = 1;
  owner = record { kind = OwnerKind.user; number = 5 };
  recipe = recipe;
  environment = [];
  state = JobState.queued;
  attempts = 1;
  created = 1000;
  updated = 1000;
  next_attempt = 0;
  background = false;
  requested_at = some 1;
  obsolete = false;
  error = JobError.no_error;
  generation = some "old";
}

abbrev lost : Job
lost = record waiting {
  key = "b";
  owner = record { kind = OwnerKind.user; number = 6 };
  state = JobState.failed;
  attempts = 3;
}

abbrev store : Store
store = record {
  recipes = record { challenge = 1; content = some recipe } ∷ [];
  jobs = waiting ∷ lost ∷ [];
  artifacts = [];
  owner_mode = some OwnerKind.user;
}

abbrev disk : Usage
disk = record { total = 20000; free = 5000 }

abbrev limits : Limits
limits = record { max_pending = 4; max_jobs = 2; retention_seconds = some 60 }

store-IsKeyed : IsKeyed store
unfolding fits
store-IsKeyed = (refl, (refl, tt))

store-AllBounded : AllBounded store
store-AllBounded =
    ((omega arith, λ e. omega arith), ((omega arith, λ e. absurd (ground arith)), tt))

abbrev new : Job
new = taken "g" 2000 waiting

abbrev same : Store → Store
same s = s

claimed : (claim disk "g" 2000 same 2000 store).0 ≡ some new
unfolding claim claim_locked claim_each sorted insert_sorted takes_precedence available_recipe
    recipe_eq names_eq fits_space
claimed = refl

abbrev stage : List StageFile
stage = record { name = "flag.txt"; is_regular = true; size = 40 } ∷ []

stage_checked : stage_valid recipe stage ≡ true
unfolding stage_valid
stage_checked = refl

claim-publish_example :
    let (result, store') = publish new stage 3000 (claim disk "g" 2000 same 2000 store).1 in
    (result ≡ done tt)
    × (read_job "a" store' ≡ some (published 3000 new))
    × (complete store' new ≡ true)
claim-publish_example =
    claim-publish disk "g" 2000 same 2000 3000 store new stage claimed stage_checked

claim_fences_example :
    let store' = (claim disk "g" 2000 same 2000 store).1 in
    ((e : Error) × (publish waiting stage 3000 store' ≡ (raised e, store')))
    × (fail waiting JobError.no_error 3000 store' ≡ store')
    × (current waiting store' ≡ false)
claim_fences_example =
    claim_fences disk "g" 2000 same 2000 3000 store new waiting stage JobError.no_error claimed refl
      refl

abbrev ops : List Op
ops =
    claims disk "g" 2000
    ∷ fails new (JobError.message "boom") 3000
    ∷ retries limits disk OwnerKind.user 4000
    ∷ collects limits true 5000
    ∷ []

run-AllBounded_example : AllBounded (run ops store)
run-AllBounded_example = run-AllBounded ops store store-AllBounded

collect-pending_example : read_job "a" (collect limits true 900000000 store) ≡ some waiting
collect-pending_example =
    collect-pending limits true 900000000 store "a" waiting store-IsKeyed refl refl

abbrev retried : Store
retried = record store { jobs = waiting ∷ requeued 4000 lost ∷ [] }

retried_one : retry_failed limits disk OwnerKind.user 4000 store ≡ (done (1, 0), retried)
unfolding retry_failed retry_each sorted insert_sorted available_recipe recipe_eq names_eq
    fits_space write_job update_where
retried_one = refl

retry_failed_limits_example : (◌≡◌ {A = ℕ} 1 0) ⊎ (length (select is_pending store.jobs) + 1 ≤ 4)
retry_failed_limits_example =
    retry_failed_limits limits disk OwnerKind.user 4000 store retried 1 0 retried_one
