-- ===== src/Files/Jobs.antt =====
-- The reads and writes of jobs and recipes, and the order in which jobs are taken.
use Prim.Native.Nat.{compare as compare_num, Ordering}
use Prim.Native.String.{compare as compare_str}
use ctfd_challenge_container.Prelude.{
  ℕ, ◌*◌, ◌==◌, Bool, true, false, not, ◌&&◌, ◌||◌, String, Option, none, some, List, [], ◌∷◌,
  if◌then◌else◌, str_eq, find, all, any,
}
use ctfd_challenge_container.Table.{update_where, delete_where}
use ctfd_challenge_container.Files.{
  Recipe, Job, Store, is_ready, is_failed, is_configuration_changed,
}

-- `_available_recipe`
unfoldable pub available_recipe : Store → ℕ → Option Recipe
available_recipe store challenge_id = elim (find (λ f. f.challenge == challenge_id) store.recipes) [
  | none ↦ none
  | some f ↦ f.content
]

abbrev pub has_key : String → Job → Bool
has_key key j = str_eq j.key key

-- `_read(_job_path(key))`
abbrev pub read_job : String → Store → Option Job
read_job key store = find (has_key key) store.jobs

-- `_write` of a job that has its file.
unfoldable pub write_job : Job → List Job → List Job
write_job job jobs = update_where (has_key job.key) (λ j. job) jobs

-- Removal of a job's artifacts and of its file.
abbrev pub drop_job : String → Store → Store
drop_job key store = record store {
  jobs = delete_where (has_key key) store.jobs;
  artifacts = delete_where (λ a. str_eq a.job_key key) store.artifacts;
}

-- `_complete`
unfoldable pub complete : Store → Job → Bool
complete store job = elim (find (λ a. str_eq a.job_key job.key) store.artifacts) [
  | none ↦ all (λ name. false) job.recipe.outputs
  | some a ↦ all (λ name. any (λ f. str_eq f name) a.files) job.recipe.outputs
]

-- `_reusable`
unfoldable pub reusable : Store → Option Job → Bool
reusable store none = false
reusable store (some job) =
    not (is_failed job.state && is_configuration_changed job.error)
    && (not (is_ready job.state) || complete store job)

-- `_request_order`, in nanoseconds.
abbrev pub request_order : Job → ℕ
request_order job = elim job.requested_at [ none ↦ job.created * 1000 | some order ↦ order ]

-- The second part of the sort key: seconds for background jobs, nanoseconds for the others. The first
-- part keeps the two apart.
abbrev pub turn : Job → ℕ
turn job = if job.background then job.created else request_order job

abbrev key_le : String → String → Bool
key_le a b = elim (compare_str a b) [ Ordering.gt ↦ false | _ ↦ true ]

-- The sort key (background, turn, key) of `a` is at most that of `b`.
unfoldable pub takes_precedence : Job → Job → Bool
takes_precedence a b =
    (not a.background && b.background)
    || ((a.background && b.background || not a.background && not b.background)
        && elim (compare_num (turn a) (turn b)) [
          | Ordering.lt ↦ true
          | Ordering.eq ↦ key_le a.key b.key
          | Ordering.gt ↦ false
        ])

module _ {ℓ} {A : Type ℓ} (before : A → A → Bool) where
  unfoldable pub insert_sorted : A → List A → List A
  insert_sorted a [] = a ∷ []
  insert_sorted a (b ∷ bs) = if before a b then a ∷ b ∷ bs else b ∷ insert_sorted a bs

  -- `sorted`
  unfoldable pub sorted : List A → List A
  sorted [] = []
  sorted (a ∷ xs) = insert_sorted a (sorted xs)
