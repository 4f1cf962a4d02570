-- ===== src/Files/Fencing.antt =====
-- A worker that claimed a job can publish it, and one whose job was claimed again cannot touch it.
use ctfd_challenge_container.Prelude.{
  ℕ, true, false, ◌||◌, ◌≡◌, refl, ap, sym, subst, ◌∙◌, inl, inr, String, some, List, [], ◌∷◌, map,
  arith, All, Bool-cases, Option-cases, select, find, any, all, is_some, some_injective, str_eq,
  str_eq_iff,
}
use ctfd_challenge_container.Table.{rewritten, update_where}
use ctfd_challenge_container.Table.Laws.{applied, All-imp, All-select, by_key-map, find-test}
use ctfd_challenge_container.Files.{
  Job, Store, Usage, done, raised, Error, is_running, is_recipe, fits_space, generation_eq,
}
use ctfd_challenge_container.Files.Jobs.{
  write_job, has_key, read_job, available_recipe, takes_precedence, complete,
}
use ctfd_challenge_container.Files.Retire.{superseded}
use ctfd_challenge_container.Files.Attempts.{sorted-All}
use ctfd_challenge_container.Files.Work.{
  is_due, taken, claim_each, claim_locked, claim, is_held, fail, current, StageFile, stage_valid,
  published, put_artifact, publish,
}
use ctfd_challenge_container.Files.{JobError}

-- The job has a file.
abbrev Stored : List Job → Job → Type 0
Stored jobs j = is_some (find (has_key j.key) jobs) ≡ true

find-write_job :
    (job : Job) (k : String) (jobs : List Job)
    → find (has_key k) (write_job job jobs)
      ≡ applied (rewritten (has_key job.key) (λ j. job)) (find (has_key k) jobs)
unfolding write_job update_where
find-write_job job k jobs =
    by_key-map (λ j. j.key) k (rewritten (has_key job.key) (λ j. job)) jobs
      (λ r. elim (Bool-cases (has_key job.key r)) [
        | inl e ↦ rw e (sym ((str_eq_iff r.key job.key).0 e))
        | inr e ↦ rw e refl
      ])

find-written :
    (job : Job) (jobs : List Job)
    → Stored jobs job
    → find (has_key job.key) (write_job job jobs) ≡ some job
find-written job jobs h = elim (Option-cases (find (has_key job.key) jobs)) [
  | inl e ↦ absurd (ground arith)
  | inr (r, e) ↦
      let own = find-test (has_key job.key) jobs r e in
      find-write_job job job.key jobs ∙ rw (e, own) refl
]

Stored-write_job : (job j : Job) (jobs : List Job) → Stored jobs j → Stored (write_job job jobs) j
Stored-write_job job j jobs h = elim (Option-cases (find (has_key j.key) jobs)) [
  | inl e ↦ absurd (ground arith)
  | inr (r, e) ↦ rw (find-write_job job j.key jobs, e) refl
]

-- A claimed job stands in the store as it was handed out, with the recipe that is in force.
record IsHandedOut (new : Job) (store : Store) : Type 0 where
  there : read_job new.key store ≡ some new
  in_force : is_recipe (available_recipe store new.challenge_id) new.recipe ≡ true
  runs : is_running new.state ≡ true

claim_each-IsHandedOut :
    (usage : Usage) (generation : String) (now : ℕ) (jobs : List Job) (store : Store) (new : Job)
    → All (Stored store.jobs) jobs
    → (claim_each usage generation now jobs store).0 ≡ some new
    → IsHandedOut new (claim_each usage generation now jobs store).1
      × (new.generation ≡ some generation)
unfolding claim_each available_recipe
claim_each-IsHandedOut usage generation now [] store new stored h = absurd (ground arith)
claim_each-IsHandedOut usage generation now (j ∷ jobs) store new stored h =
    elim (Bool-cases (is_recipe (available_recipe store j.challenge_id) j.recipe)) [
      | inr e ↦
          rw (claim_each, e)
            (claim_each-IsHandedOut usage generation now jobs
              (record store { jobs = write_job (superseded now j) store.jobs }) new
              (All-imp (Stored store.jobs) _ jobs
                (λ k s. Stored-write_job (superseded now j) k store.jobs s) stored.1)
              (rw (claim_each, e) at h))
      | inl e ↦ elim (Bool-cases (fits_space usage j.recipe.max_output_bytes)) [
        | inr f ↦
            rw (claim_each, e, f)
              (claim_each-IsHandedOut usage generation now jobs store new stored.1
                (rw (claim_each, e, f) at h))
        | inl f ↦
            let same : taken generation now j ≡ new =
              some_injective _ _ (rw (claim_each, e, f) at h) in
            rw (← same) (
              rw (claim_each, e, f)
                (
                  record {
                    there = find-written (taken generation now j) store.jobs stored.0;
                    in_force = e;
                    runs = refl;
                  },
                  refl,
                ))
      ]
    ]

All-Stored : (jobs : List Job) → All (Stored jobs) jobs
All-Stored [] = tt
All-Stored (j ∷ jobs) = (
  rw ((str_eq_iff j.key j.key).1 refl) refl,
  All-imp (Stored jobs) _ jobs
      (λ k s. elim (Bool-cases (has_key k.key j)) [ inl e ↦ rw e refl | inr e ↦ rw e s ])
      (All-Stored jobs),
)

claim-IsHandedOut :
    (usage : Usage) (generation : String) (first : ℕ) (between : Store → Store) (now : ℕ)
    (store : Store) (new : Job)
    → (claim usage generation first between now store).0 ≡ some new
    → IsHandedOut new (claim usage generation first between now store).1
      × (new.generation ≡ some generation)
unfolding claim claim_locked
claim-IsHandedOut usage generation first between now store new h =
    elim (Bool-cases (any (is_due first) store.jobs)) [
      | inr e ↦ absurd (ground arith)
      | inl e ↦
          let jobs = (between store).jobs in
          rw (claim, e)
            (claim_each-IsHandedOut usage generation now _ (between store) new
              (sorted-All (Stored jobs) takes_precedence (select (is_due now) jobs)
                (All-select (Stored jobs) (is_due now) jobs (All-Stored jobs)))
              (rw (claim, e) at h))
    ]

any-names :
    (name : String) (stage : List StageFile)
    → any (λ f. str_eq f name) (map (λ f. f.name) stage) ≡ any (λ f. str_eq f.name name) stage
any-names name [] = refl
any-names name (f ∷ stage) = ap (λ b. str_eq f.name name || b) (any-names name stage)

all-names :
    (names : List String) (stage : List StageFile)
    → all (λ name. any (λ f. str_eq f.name name) stage) names ≡ true
    → all (λ name. any (λ f. str_eq f name) (map (λ f. f.name) stage)) names ≡ true
all-names [] stage h = refl
all-names (n ∷ names) stage h = rw (any-names n stage) (ground (arith, all-names names stage))

stage-complete :
    (new : Job) (stage : List StageFile) (store : Store) (jobs : List Job)
    → stage_valid new.recipe stage ≡ true
    → complete
        (record store { artifacts = put_artifact new.key stage store.artifacts; jobs = jobs })
        new
      ≡ true
unfolding complete stage_valid
stage-complete new stage store jobs valid =
    rw (complete, (str_eq_iff new.key new.key).1 refl)
      (all-names new.recipe.outputs stage (ground arith))

-- Whatever happens between the first look of a claim and its lock, the job that it hands out can be
-- published from a valid stage: `publish` raises nothing, the job on disk becomes ready, and all its
-- outputs are among its artifacts.
pub claim-publish :
    (usage : Usage) (generation : String) (first : ℕ) (between : Store → Store) (now later : ℕ)
    (store : Store) (new : Job) (stage : List StageFile)
    → (claim usage generation first between now store).0 ≡ some new
    → stage_valid new.recipe stage ≡ true
    → let (result, store') =
        publish new stage later (claim usage generation first between now store).1 in
      (result ≡ done tt)
      × (read_job new.key store' ≡ some (published later new))
      × (complete store' new ≡ true)
unfolding publish
claim-publish usage generation first between now later store new stage h valid =
    let (out, generated) = claim-IsHandedOut usage generation first between now store new h in
    let store' = (claim usage generation first between now store).1 in
    let held : is_held new new ≡ true =
      rw (out.runs, generated, (str_eq_iff generation generation).1 refl) (ground arith) in
    rw (publish, valid, out.there, held, out.in_force)
      (
        refl,
        find-written (published later new) store'.jobs (rw out.there refl),
        stage-complete new stage store' (write_job (published later new) store'.jobs) valid,
      )

-- Once a job is claimed again, the worker that holds an earlier generation of it can no longer touch
-- it: `publish` raises and `fail` does nothing, both leave the store as it was, and `current` is false.
pub claim_fences :
    (usage : Usage) (generation : String) (first : ℕ) (between : Store → Store) (now later : ℕ)
    (store : Store) (new old : Job) (stage : List StageFile) (error : JobError)
    → (claim usage generation first between now store).0 ≡ some new
    → old.key ≡ new.key
    → generation_eq (some generation) old.generation ≡ false
    → let store' = (claim usage generation first between now store).1 in
      ((e : Error) × (publish old stage later store' ≡ (raised e, store')))
      × (fail old error later store' ≡ store')
      × (current old store' ≡ false)
unfolding publish fail current
claim_fences usage generation first between now later store new old stage error h same_key other =
    let (out, generated) = claim-IsHandedOut usage generation first between now store new h in
    let store' = (claim usage generation first between now store).1 in
    let there : read_job old.key store' ≡ some new =
      subst (λ k. read_job k store' ≡ some new) (sym same_key) out.there in
    let lost : is_held old new ≡ false = rw (generated, other) (ground arith) in
    (
      elim (Bool-cases (stage_valid old.recipe stage)) [
        | inr v ↦ (Error.artifact_unavailable, rw (publish, v) refl)
        | inl v ↦ (Error.recipe_changed, rw (publish, v, there, lost) refl)
      ],
      rw (fail, there, lost) refl,
      rw (current, there, lost) refl,
    )
