-- ===== src/Files.antt =====
-- src/files/store.py: the jobs and recipes of the store of generated files. The directories `recipes`,
-- `jobs` and `artifacts` are lists; the jobs stand in the order of their file names, which are their
-- keys. A section under the store's lock is one function; StoreBusy, raised before it, changes nothing.
pub mod Jobs
pub mod Retire
pub mod Work
pub mod Retry
pub mod Attempts
pub mod Fencing
pub mod Kept
mod Tests
use ctfd_challenge_container.Prelude.{
  ℕ, ◌+◌, ◌*◌, ◌/◌, Bool, true, false, not, ◌&&◌, ◌||◌, String, Option, none, some, List, [], ◌∷◌,
  str_eq, ◌==◌, leb,
}
use ctfd_challenge_container.Schema.{OwnerKind, OwnerKey}

pub data JobState : Type 0 where
  queued running ready failed : JobState

-- A recipe that `validate_recipe` passes.
pub record Recipe : Type 0 where
  pub version : String
  pub image : String
  pub outputs : List String
  pub timeout_seconds : ℕ
  pub max_output_bytes : ℕ

-- The `error` of a job: None, "configuration changed" or another message.
pub data JobError : Type 0 where
  no_error configuration_changed : JobError
  message : String → JobError

pub record Job : Type 0 where
  pub key : String
  pub challenge_id : ℕ
  pub owner : OwnerKey
  pub recipe : Recipe
  pub environment : List (String × String)
  pub state : JobState
  pub attempts : ℕ
  pub created : ℕ
  pub updated : ℕ
  pub next_attempt : ℕ
  pub background : Bool
  pub requested_at : Option ℕ
  pub obsolete : Bool
  pub error : JobError
  pub generation : Option String

-- A file of `recipes`, with none for one that is unreadable or invalid.
pub record RecipeFile : Type 0 where
  pub challenge : ℕ
  pub content : Option Recipe

-- A directory of `artifacts` with its regular files.
pub record Artifact : Type 0 where
  pub job_key : String
  pub files : List String

-- `owner_mode` is the kind in `.owner-mode.json`, none if the file is absent or of another namespace.
pub record Store : Type 0 where
  pub recipes : List RecipeFile
  pub jobs : List Job
  pub artifacts : List Artifact
  pub owner_mode : Option OwnerKind

-- `shutil.disk_usage`
pub record Usage : Type 0 where
  pub total : ℕ
  pub free : ℕ

pub data Error : Type 0 where
  store_error queue_full recipe_changed artifact_unavailable : Error

pub data Outcome {ℓ} (A : Type ℓ) : Type ℓ where
  done : A → Outcome A
  raised : Error → Outcome A

abbrev pub is_queued : JobState → Bool
is_queued JobState.queued = true
is_queued _ = false

abbrev pub is_running : JobState → Bool
is_running JobState.running = true
is_running _ = false

abbrev pub is_ready : JobState → Bool
is_ready JobState.ready = true
is_ready _ = false

abbrev pub is_failed : JobState → Bool
is_failed JobState.failed = true
is_failed _ = false

-- `job["state"] in ("queued", "running")`
abbrev pub is_pending : Job → Bool
is_pending j = is_queued j.state || is_running j.state

abbrev pub is_configuration_changed : JobError → Bool
is_configuration_changed JobError.configuration_changed = true
is_configuration_changed _ = false

unfoldable pub names_eq : List String → List String → Bool
names_eq [] [] = true
names_eq (a ∷ as') (b ∷ bs) = str_eq a b && names_eq as' bs
names_eq _ _ = false

-- `==` of two recipes.
unfoldable pub recipe_eq : Recipe → Recipe → Bool
recipe_eq a b =
    str_eq a.version b.version
    && str_eq a.image b.image
    && names_eq a.outputs b.outputs
    && a.timeout_seconds == b.timeout_seconds
    && a.max_output_bytes == b.max_output_bytes

-- `found == recipe` where `found` may be None.
abbrev pub is_recipe : Option Recipe → Recipe → Bool
is_recipe none recipe = false
is_recipe (some found) recipe = recipe_eq found recipe

-- `size > available_space()` with a twentieth of the disk kept free; the difference may be negative.
unfoldable pub fits_space : Usage → ℕ → Bool
fits_space usage size = leb (size + usage.total / 20) usage.free

abbrev pub generation_eq : Option String → Option String → Bool
generation_eq none none = true
generation_eq (some a) (some b) = str_eq a b
generation_eq _ _ = false
