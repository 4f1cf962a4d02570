-- ===== src/Files/Kept.antt =====
-- What the collection spares, and how much `retry_failed` may queue.
use ctfd_challenge_container.Prelude.{
  ℕ, suc, ◌+◌, ◌-◌, ◌≤◌, ◌<◌, Bool, true, false, not, ◌||◌, ◌≡◌, refl, ap, sym, ◌∙◌, ◌⊎◌, inl, inr,
  String, some, List, [], ◌∷◌, map, arith, All, Bool-cases, select, find, sum, length, leb,
  some_injective, str_eq, str_eq_iff,
}
use ctfd_challenge_container.Schema.{OwnerKind}
use ctfd_challenge_container.Table.{fits, delete_where}
use ctfd_challenge_container.Table.Unique.{NoClash}
use ctfd_challenge_container.Table.Laws.{All-select}
use ctfd_challenge_container.Files.{
  Job, Store, Usage, Outcome, done, raised, is_pending, fits_space,
}
use ctfd_challenge_container.Files.Jobs.{
  has_key, read_job, write_job, drop_job, takes_precedence, sorted,
}
use ctfd_challenge_container.Files.Retire.{Limits, spared, collect_each, collect}
use ctfd_challenge_container.Files.Retry.{
  queue_limit, is_mode, is_retriable, requeued, retry_each, retry_failed,
}
use ctfd_challenge_container.Files.Attempts.{sorted-All}

abbrev pub same_key : Job → Job → Bool
same_key a b = str_eq a.key b.key

-- No two jobs share a file.
abbrev pub IsKeyed : Store → Type 0
IsKeyed store = NoClash same_key store.jobs

find-deleted :
    (k j : String) (jobs : List Job)
    → str_eq j k ≡ false
    → find (has_key k) (delete_where (has_key j) jobs) ≡ find (has_key k) jobs
unfolding delete_where
find-deleted k j [] ne = refl
find-deleted k j (r ∷ jobs) ne = elim (Bool-cases (has_key j r)) [
  | inr e ↦ rw e (rw (find-deleted k j jobs ne) refl)
  | inl e ↦
      let other : has_key k r ≡ false = rw ((str_eq_iff r.key j).0 e) ne in
      rw (e, other) (find-deleted k j jobs ne)
]

fits-All :
    (j : Job) (jobs : List Job) (k : String)
    → fits same_key j jobs ≡ true
    → j.key ≡ k
    → All (λ c. str_eq c.key k ≡ false) jobs
unfolding fits
fits-All j [] k h e = tt
fits-All j (c ∷ jobs) k h e = (
  ground (arith, e, str_eq_iff c.key k, str_eq_iff j.key c.key),
  fits-All j jobs k (ground arith) e,
)

-- Apart from a pending job, no finished one has its key.
finished-All :
    (k : String) (jobs : List Job) (j : Job)
    → NoClash same_key jobs
    → find (has_key k) jobs ≡ some j
    → is_pending j ≡ true
    → All (λ c. str_eq c.key k ≡ false) (select (λ c. not (is_pending c)) jobs)
finished-All k [] j keyed found p = tt
finished-All k (c ∷ jobs) j keyed found p = elim (Bool-cases (has_key k c)) [
  | inl e ↦
      let same : c ≡ j = some_injective _ _ (rw e at found) in
      let pending : is_pending c ≡ true = rw same p in
      rw pending (
        All-select (λ d. str_eq d.key k ≡ false) _ jobs
          (fits-All c jobs k keyed.0 ((str_eq_iff c.key k).0 e)))
  | inr e ↦
      let later = finished-All k jobs j keyed.1 (rw e at found) p in
      elim (Bool-cases (is_pending c)) [ inl q ↦ rw q later | inr q ↦ rw q (e, later) ]
]

collect_each-read :
    (limits : Limits) (evict : Bool) (now remaining : ℕ) (jobs : List Job) (store : Store)
    (k : String)
    → All (λ c. str_eq c.key k ≡ false) jobs
    → read_job k (collect_each limits evict now remaining jobs store) ≡ read_job k store
unfolding collect_each
collect_each-read limits evict now remaining [] store k others = refl
collect_each-read limits evict now remaining (c ∷ jobs) store k others =
    elim (Bool-cases (spared limits evict now remaining store c)) [
      | inl e ↦
          rw (collect_each, e) (collect_each-read limits evict now remaining jobs store k others.1)
      | inr e ↦
          rw (collect_each, e)
            (collect_each-read limits evict now (remaining - 1) jobs (drop_job c.key store) k
                others.1
              ∙ find-deleted k c.key store.jobs others.0)
    ]

-- The collection never removes or changes a job that is queued or running, whatever the limits and
-- however full the store.
pub collect-pending :
    (limits : Limits) (evict : Bool) (now : ℕ) (store : Store) (k : String) (j : Job)
    → IsKeyed store
    → read_job k store ≡ some j
    → is_pending j ≡ true
    → read_job k (collect limits evict now store) ≡ some j
unfolding collect
collect-pending limits evict now store k j keyed found pending =
    collect_each-read limits evict now _ _ store k (
      sorted-All (λ c. str_eq c.key k ≡ false) _ _
        (finished-All k store.jobs j keyed found pending))
    ∙ found

-- The loop queues no more than fits the queue and the disk.
retry_each-limits :
    (limits : Limits) (usage : Usage) (now pending reserved retried : ℕ) (jobs : List Job)
    (store : Store)
    → let n = (retry_each limits usage now pending reserved retried jobs store).0 in
      (n ≡ retried) ⊎ ((retried ≤ n) × (pending + n ≤ limits.max_pending + retried))
unfolding retry_each
retry_each-limits limits usage now pending reserved retried [] store = inl refl
retry_each-limits limits usage now pending reserved retried (j ∷ jobs) store =
    elim (Bool-cases (
      leb (queue_limit limits j) pending
      || not (fits_space usage (reserved + j.recipe.max_output_bytes)))) [
        | inl e ↦
            rw (retry_each, e)
              (retry_each-limits limits usage now pending reserved retried jobs store)
        | inr e ↦
            let room : pending < limits.max_pending = elim (Bool-cases j.background) [
              | inl b ↦ ground arith
              | inr b ↦ ground arith
            ] in
            rw (retry_each, e)
              (elim (retry_each-limits limits usage now (suc pending)
                (reserved + j.recipe.max_output_bytes) (suc retried) jobs
                (record store { jobs = write_job (requeued now j) store.jobs })) [
                  | inl same ↦ inr (rw same (omega (arith, room)), rw same (omega (arith, room)))
                  | inr (more, below) ↦ inr (omega (arith, more), omega (arith, below))
                ])
      ]

abbrev retried_of : Outcome (ℕ × ℕ) × Store → ℕ
retried_of (done counts, store) = counts.0
retried_of (raised e, store) = 0

-- What `retry_failed` queues again fits the queue: when it answers that it retried `n` jobs, then `n` is
-- 0, or the jobs that were pending and the `n` are no more than `max_pending`.
pub retry_failed_limits :
    (limits : Limits) (usage : Usage) (kind : OwnerKind) (now : ℕ) (store store' : Store) (n m : ℕ)
    → retry_failed limits usage kind now store ≡ (done (n, m), store')
    → (n ≡ 0) ⊎ (length (select is_pending store.jobs) + n ≤ limits.max_pending)
unfolding retry_failed
retry_failed_limits limits usage kind now store store' n m h =
    elim (Bool-cases (is_mode store.owner_mode kind)) [
      | inr e ↦ absurd (ground arith)
      | inl e ↦
          let pending = select is_pending store.jobs in
          let waiting = sorted takes_precedence (select (is_retriable kind store) store.jobs) in
          let loop =
            retry_each limits usage now (length pending)
              (sum (map (λ j. j.recipe.max_output_bytes) pending)) 0 waiting store in
          let counted : loop.0 ≡ n = ap retried_of (rw (retry_failed, e) at h) in
          elim (retry_each-limits limits usage now (length pending)
            (sum (map (λ j. j.recipe.max_output_bytes) pending)) 0 waiting store) [
              | inl none_yet ↦ inl (sym counted ∙ none_yet)
              | inr (more, below) ↦ inr (omega (arith, below, counted))
            ]
    ]
