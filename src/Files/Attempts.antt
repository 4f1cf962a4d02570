-- ===== src/Files/Attempts.antt =====
-- The count of attempts of a job: an invariant of all that the worker, the administration and the
-- collection do to the jobs. `retry_failed` starts the count again.
use ctfd_challenge_container.Prelude.{
  ℕ, suc, ◌≤◌, ◌<◌, ◌+◌, ◌-◌, ◌||◌, &&_both, any, Bool, true, not, ◌&&◌, ◌≡◌, inl, inr, String,
  Option, none, some, List, [], ◌∷◌, arith, All, Bool-cases, Option-cases, select, length, leb,
}
use ctfd_challenge_container.Schema.{OwnerKind}
use ctfd_challenge_container.Table.{rewritten, update_where, delete_where}
use ctfd_challenge_container.Table.Laws.{All-map, All-select, All-select_imp, All-find}
use ctfd_challenge_container.Files.{
  Recipe, JobError, Job, Store, Usage, is_queued, is_recipe, fits_space, is_running,
}
use ctfd_challenge_container.Files.Jobs.{
  write_job, drop_job, has_key, read_job, available_recipe, takes_precedence, insert_sorted, sorted,
}
use ctfd_challenge_container.Files.Retire.{
  of_challenge, spared, superseded, retire_each, retire_obsolete, set_recipe, delete_recipe, Limits,
  collect_each, collect,
}
use ctfd_challenge_container.Files.Work.{
  is_due, taken, claim_each, claim_locked, is_held, fail, StageFile, stage_valid, published,
  publish,
}
use ctfd_challenge_container.Files.Retry.{
  is_mode, is_retriable, requeued, queue_limit, retry_each, retry_failed,
}

-- At most three attempts of a job are counted, and fewer if it waits for one.
abbrev pub IsBounded : Job → Type 0
IsBounded j = (j.attempts ≤ 3) × (is_queued j.state ≡ true → j.attempts < 3)

abbrev pub AllBounded : Store → Type 0
AllBounded store = All IsBounded store.jobs

pub write_job-All :
    (P : Job → Type 0) (job : Job) (jobs : List Job)
    → P job
    → All P jobs
    → All P (write_job job jobs)
unfolding write_job update_where
write_job-All P job jobs p h =
    All-map P P (rewritten (has_key job.key) (λ j. job)) jobs
      (λ j q. elim (Bool-cases (has_key job.key j)) [ inl e ↦ rw e p | inr e ↦ rw e q ]) h

module _ (P : Job → Type 0) (before : Job → Job → Bool) where
  insert_sorted-All :
      (j : Job) (jobs : List Job) → P j → All P jobs → All P (insert_sorted before j jobs)
  unfolding insert_sorted
  insert_sorted-All j [] p h = (p, tt)
  insert_sorted-All j (b ∷ bs) p h = elim (Bool-cases (before j b)) [
    | inl e ↦ rw e (p, h)
    | inr e ↦ rw e (h.0, insert_sorted-All j bs p h.1)
  ]

  pub sorted-All : (jobs : List Job) → All P jobs → All P (sorted before jobs)
  unfolding sorted
  sorted-All [] h = tt
  sorted-All (j ∷ jobs) h = insert_sorted-All j (sorted before jobs) h.0 (sorted-All jobs h.1)

drop_job-IsBounded :
    (key : String) (store : Store) → AllBounded store → AllBounded (drop_job key store)
unfolding delete_where
drop_job-IsBounded key store h = All-select IsBounded _ store.jobs h

retire_each-IsBounded :
    (obsolete : Job → Bool) (mark : Job → Job) (jobs : List Job) (store : Store)
    → ((j : Job) → IsBounded j → IsBounded (mark j))
    → All IsBounded jobs
    → AllBounded store
    → AllBounded (retire_each obsolete mark jobs store)
unfolding retire_each
retire_each-IsBounded obsolete mark [] store keeps js h = h
retire_each-IsBounded obsolete mark (j ∷ jobs) store keeps js h = elim (Bool-cases (obsolete j)) [
  | inr e ↦ rw e (retire_each-IsBounded obsolete mark jobs store keeps js.1 h)
  | inl e ↦ elim (Bool-cases (is_running j.state)) [
    | inl r ↦
        rw (e, r)
          (retire_each-IsBounded obsolete mark jobs _ keeps js.1
            (write_job-All IsBounded (mark j) store.jobs (keeps j js.0) h))
    | inr r ↦
        rw (e, r)
          (retire_each-IsBounded obsolete mark jobs _ keeps js.1 (drop_job-IsBounded j.key store h))
  ]
]

superseded-IsBounded : (now : ℕ) (j : Job) → IsBounded j → IsBounded (superseded now j)
superseded-IsBounded now j h = (h.0, λ e. absurd (ground arith))

retire_obsolete-IsBounded :
    (challenge : ℕ) (recipe : Option Recipe) (now : ℕ) (store : Store)
    → AllBounded store
    → AllBounded (retire_obsolete challenge recipe now store)
unfolding retire_obsolete
retire_obsolete-IsBounded challenge recipe now store h =
    retire_each-IsBounded _ (superseded now) store.jobs store (superseded-IsBounded now) h h

claim_each-IsBounded :
    (usage : Usage) (generation : String) (now : ℕ) (jobs : List Job) (store : Store)
    → All (λ j. IsBounded j × (is_queued j.state ≡ true)) jobs
    → AllBounded store
    → AllBounded (claim_each usage generation now jobs store).1
unfolding claim_each
claim_each-IsBounded usage generation now [] store js h = h
claim_each-IsBounded usage generation now (j ∷ jobs) store js h =
    elim (Bool-cases (is_recipe (available_recipe store j.challenge_id) j.recipe)) [
      | inr e ↦ rw e (
          claim_each-IsBounded usage generation now jobs _ js.1 (
            write_job-All IsBounded (superseded now j) store.jobs
              (superseded-IsBounded now j js.0.0) h))
      | inl e ↦ elim (Bool-cases (fits_space usage j.recipe.max_output_bytes)) [
        | inr f ↦ rw (e, f) (claim_each-IsBounded usage generation now jobs store js.1 h)
        | inl f ↦
            rw (e, f)
              (write_job-All IsBounded (taken generation now j) store.jobs
                (js.0.0.1 js.0.1, λ q. absurd (ground arith)) h)
      ]
    ]

fail-IsBounded :
    (job : Job) (error : JobError) (now : ℕ) (store : Store)
    → AllBounded store
    → AllBounded (fail job error now store)
unfolding fail
fail-IsBounded job error now store h = elim (Option-cases (read_job job.key store)) [
  | inl e ↦ rw (fail, e) h
  | inr (there, e) ↦ elim (Bool-cases (is_held job there)) [
    | inr n ↦ rw (fail, e, n) h
    | inl n ↦
        let old : IsBounded there = All-find IsBounded (has_key job.key) store.jobs there e h in
        rw (fail, e, n) (write_job-All IsBounded _ store.jobs (old.0, λ q. ground (arith, old.0)) h)
  ]
]

publish-IsBounded :
    (job : Job) (stage : List StageFile) (now : ℕ) (store : Store)
    → AllBounded store
    → AllBounded (publish job stage now store).1
unfolding publish
publish-IsBounded job stage now store h = elim (Bool-cases (stage_valid job.recipe stage)) [
  | inr v ↦ rw v h
  | inl v ↦ elim (Option-cases (read_job job.key store)) [
    | inl e ↦ rw (v, e) h
    | inr (there, e) ↦ elim (Bool-cases (is_held job there)) [
      | inr n ↦ rw (v, e, n) h
      | inl n ↦ elim (Bool-cases (is_recipe (available_recipe store job.challenge_id) job.recipe)) [
        | inr r ↦ rw (v, e, n, r) h
        | inl r ↦
            let old : IsBounded there = All-find IsBounded (has_key job.key) store.jobs there e h in
            rw (v, e, n, r)
              (write_job-All IsBounded (published now there) store.jobs
                (old.0, λ q. absurd (ground arith)) h)
      ]
    ]
  ]
]

collect_each-IsBounded :
    (limits : Limits) (evict : Bool) (now remaining : ℕ) (jobs : List Job) (store : Store)
    → AllBounded store
    → AllBounded (collect_each limits evict now remaining jobs store)
unfolding collect_each
collect_each-IsBounded limits evict now remaining [] store h = h
collect_each-IsBounded limits evict now remaining (j ∷ jobs) store h =
    elim (Bool-cases (spared limits evict now remaining store j)) [
      | inl e ↦ rw e (collect_each-IsBounded limits evict now remaining jobs store h)
      | inr e ↦ rw e (
          collect_each-IsBounded limits evict now (remaining - 1) jobs (drop_job j.key store)
            (drop_job-IsBounded j.key store h))
    ]

retry_each-IsBounded :
    (limits : Limits) (usage : Usage) (now pending reserved retried : ℕ) (jobs : List Job)
    (store : Store)
    → All IsBounded jobs
    → AllBounded store
    → AllBounded (retry_each limits usage now pending reserved retried jobs store).1
unfolding retry_each
retry_each-IsBounded limits usage now pending reserved retried [] store js h = h
retry_each-IsBounded limits usage now pending reserved retried (j ∷ jobs) store js h =
    elim (Bool-cases (
      leb (queue_limit limits j) pending
      || not (fits_space usage (reserved + j.recipe.max_output_bytes)))) [
        | inl e ↦
            rw e (retry_each-IsBounded limits usage now pending reserved retried jobs store js.1 h)
        | inr e ↦ rw e (
            retry_each-IsBounded limits usage now (suc pending)
              (reserved + j.recipe.max_output_bytes) (suc retried) jobs _ js.1
              (write_job-All IsBounded (requeued now j) store.jobs (omega arith, λ q. omega arith)
                h))
      ]

-- What happens to the jobs that are there. A claim is its section under the exclusive lock: its first
-- look, under the shared one, changes nothing.
pub data Op : Type 0 where
  sets : ℕ → Recipe → ℕ → Op
  deletes : ℕ → ℕ → Op
  claims : Usage → String → ℕ → Op
  fails : Job → JobError → ℕ → Op
  publishes : Job → List StageFile → ℕ → Op
  collects : Limits → Bool → ℕ → Op
  retries : Limits → Usage → OwnerKind → ℕ → Op

unfoldable pub perform : Op → Store → Store
perform (sets challenge recipe now) store = (set_recipe challenge recipe now store).1
perform (deletes challenge now) store = delete_recipe challenge now store
perform (claims usage generation now) store = (claim_locked usage generation now store).1
perform (fails job error now) store = fail job error now store
perform (publishes job stage now) store = (publish job stage now store).1
perform (collects limits evict now) store = collect limits evict now store
perform (retries limits usage kind now) store = (retry_failed limits usage kind now store).1

unfoldable pub run : List Op → Store → Store
run [] store = store
run (op ∷ ops) store = run ops (perform op store)

set_recipe-IsBounded :
    (challenge : ℕ) (recipe : Recipe) (now : ℕ) (store : Store)
    → AllBounded store
    → AllBounded (set_recipe challenge recipe now store).1
unfolding set_recipe
set_recipe-IsBounded challenge recipe now store h =
    elim (Bool-cases (is_recipe (available_recipe store challenge) recipe)) [
      | inl e ↦ rw (set_recipe, e) h
      | inr e ↦
          elim (Bool-cases
            (not (any (of_challenge challenge) store.recipes) && leb 2048 (length store.recipes))) [
              | inl f ↦ rw (set_recipe, e, f) h
              | inr f ↦
                  rw (set_recipe, e, f) (retire_obsolete-IsBounded challenge (some recipe) now _ h)
            ]
    ]

retry_failed-IsBounded :
    (limits : Limits) (usage : Usage) (kind : OwnerKind) (now : ℕ) (store : Store)
    → AllBounded store
    → AllBounded (retry_failed limits usage kind now store).1
unfolding retry_failed
retry_failed-IsBounded limits usage kind now store h =
    elim (Bool-cases (is_mode store.owner_mode kind)) [
      | inr e ↦ rw (retry_failed, e) h
      | inl e ↦
          rw (retry_failed, e)
            (retry_each-IsBounded limits usage now _ _ 0 _ store
              (sorted-All IsBounded takes_precedence _
                (All-select IsBounded (is_retriable kind store) store.jobs h))
              h)
    ]

perform-IsBounded : (op : Op) (store : Store) → AllBounded store → AllBounded (perform op store)
unfolding perform
perform-IsBounded (sets challenge recipe now) store h =
    set_recipe-IsBounded challenge recipe now store h
perform-IsBounded (deletes challenge now) store h =
    unfold delete_recipe in retire_obsolete-IsBounded challenge none now _ h
perform-IsBounded (claims usage generation now) store h =
    unfold claim_locked in
    claim_each-IsBounded usage generation now _ store
      (sorted-All (λ j. IsBounded j × (is_queued j.state ≡ true)) takes_precedence
        (select (is_due now) store.jobs)
        (All-select_imp IsBounded (λ j. IsBounded j × (is_queued j.state ≡ true)) (is_due now)
          store.jobs (λ j e b. (b, (&&_both _ _ e).0)) h))
      h
perform-IsBounded (fails job error now) store h = fail-IsBounded job error now store h
perform-IsBounded (publishes job stage now) store h = publish-IsBounded job stage now store h
perform-IsBounded (collects limits evict now) store h =
    unfold collect in collect_each-IsBounded limits evict now _ _ store h
perform-IsBounded (retries limits usage kind now) store h =
    retry_failed-IsBounded limits usage kind now store h

-- Whatever the workers, the administration and the collection do, the count of attempts of a job, which
-- `retry_failed` starts again, never goes above three, and that of a queued job never above two.
pub run-AllBounded : (ops : List Op) (store : Store) → AllBounded store → AllBounded (run ops store)
unfolding run
run-AllBounded [] store h = h
run-AllBounded (op ∷ ops) store h =
    run-AllBounded ops (perform op store) (perform-IsBounded op store h)
