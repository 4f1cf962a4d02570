-- ===== src/Coordination/Lease.antt =====
-- The lease of a cleanup: who holds an operation token, and what it takes to delete an instance.
use ctfd_challenge_container.Prelude.{
  ℕ, ◌+◌, ◌≤◌, Bool, true, false, not, ◌&&◌, ◌≡◌, refl, ap, ◌∙◌, String, Option, none, some, List,
  [], ◌∷◌, arith, &&_both, Bool-cases, Option-cases, inl, inr, ◌⊎◌, if◌then◌else◌, is_none, str_eq,
  str_eq_iff, ◌==◌, any, All, find, select,
}
use ctfd_challenge_container.Schema.{Instance, Reason, Db, clash, is_provisioning, seconds}
use ctfd_challenge_container.Table.{delete_where, count_where}
use ctfd_challenge_container.Table.Unique.{NoClash}
use ctfd_challenge_container.Table.Laws.{
  passes, count-by_key, by_key-select, by_key-of_find, find-test,
}
use ctfd_challenge_container.Coordination.{Error, ok, err, Result-cases, find_instance}
use ctfd_challenge_container.Coordination.Lifecycle.Finalize.{
  Finalization, is_reserved, mark_running, checked_entry,
}
use ctfd_challenge_container.Coordination.Lifecycle.Cleanup.{
  Claim, Deletion, claim_operation, claim_args_valid, claimed, is_claimable, state_eq,
  version_matches, is_maintainable, lease_free, tokens_match, is_deletable,
  delete_after_confirmed_cleanup,
}
use ctfd_challenge_container.Coordination.Renewal.{update_instance-passes, find-update_instance}
use ctfd_challenge_container.Coordination.Steps.{claims, perform, perform-Effect}
use ctfd_challenge_container.Coordination.Invariant.Progress.{clash_of_id}
use ctfd_challenge_container.Coordination.Invariant.Uniqueness.{IsUnique, Effect-NoClash}

All-not-select {ℓ} :
    {A : Type ℓ} (test : A → Bool) (rows : List A)
    → All (λ r. test r ≡ false) (select (λ r. not (test r)) rows)
All-not-select test [] = tt
All-not-select test (r ∷ rows) = elim (Bool-cases (test r)) [
  | inl e ↦ rw e (All-not-select test rows)
  | inr e ↦ rw e (e, All-not-select test rows)
]

find_narrow :
    (d : Deletion) (rows : List Instance) (r : Instance)
    → find_instance d.instance_id rows ≡ some r
    → tokens_match d r ≡ true
    → find (is_deletable d) rows ≡ some r
find_narrow d [] r found tokens = cc
find_narrow d (x ∷ rows) r found tokens = elim (Bool-cases (str_eq x.id d.instance_id)) [
  | inl e ↦
      let same : x ≡ r = ground arith in
      let t : tokens_match d x ≡ true = rw same tokens in rw (e, t) (ap some same)
  | inr e ↦ rw e (find_narrow d rows r (ground arith) tokens)
]

count_one :
    (d : Deletion) (rows : List Instance) (r : Instance)
    → NoClash clash rows
    → find_instance d.instance_id rows ≡ some r
    → tokens_match d r ≡ true
    → (count_where (is_deletable d) rows == 1) ≡ true
count_one d rows r unique found tokens =
    rw
      (count-by_key (λ s. s.id) clash d.instance_id (tokens_match d) rows clash_of_id unique, found)
      (rw tokens refl)

-- What a claim asks of the row, besides its id.
abbrev pub may_claim : Claim → ℕ → Instance → Bool
may_claim c now r =
    any (λ s. state_eq s r.state) c.expected_states
    && version_matches c.expected_state_version r.state_version
    && is_maintainable c.maintenance_cutoff c.reconcile_safety_age_seconds r
    && lease_free now c.stale_after_seconds r

-- A claim with valid arguments is granted exactly when the row found under its id may be claimed.
claim_answer :
    (c : Claim) (token : String) (now : ℕ) (db : Db)
    → IsUnique db
    → claim_args_valid c ≡ true
    → (claim_operation c token now db).0
      ≡ ok (
          if passes (may_claim c now) (find_instance c.instance_id db.instances)
          then some token
          else none)
unfolding claim_operation
claim_answer c token now db unique valid =
    rw
      (
        valid,
        update_instance-passes c.instance_id (may_claim c now) (claimed c token now) db unique,
      )
      refl

-- The row that a granted claim leaves.
claim_leaves :
    (c : Claim) (token : String) (now : ℕ) (db : Db)
    → IsUnique db
    → claim_args_valid c ≡ true
    → (claim_operation c token now db).0 ≡ ok (some token)
    → (r : Instance) × (find_instance c.instance_id db.instances ≡ some r)
      × (find_instance c.instance_id (claim_operation c token now db).1.instances
          ≡ some (claimed c token now r))
unfolding claim_operation
claim_leaves c token now db unique valid granted =
    let said = claim_answer c token now db unique valid in
    let moved =
      find-update_instance c.instance_id (is_claimable c now) (claimed c token now) db
        (λ r. refl) in
    elim (Option-cases (find_instance c.instance_id db.instances)) [
      | inl f ↦ absurd (ground (arith, said))
      | inr (r, f) ↦
          let own = find-test (λ (s : Instance). str_eq s.id c.instance_id) db.instances r f in
          elim (Bool-cases (may_claim c now r)) [
            | inr t ↦ absurd (ground (arith, said))
            | inl t ↦ (r, f, rw valid (moved ∙ rw f (ground arith)))
          ]
    ]

claim-IsUnique :
    (c : Claim) (token : String) (now : ℕ) (db : Db)
    → IsUnique db
    → IsUnique (claim_operation c token now db).1
claim-IsUnique c token now db unique =
    unfold perform in Effect-NoClash (perform-Effect (claims c token now) db) unique

-- While a granted lease has not run out, no other claim of the instance is granted, whatever states it
-- expects and whoever makes it: at a time no later than the grant plus the other claim's stale period
-- its answer is None.
pub claim_exclusive :
    (c c' : Claim) (token token' : String) (now later : ℕ) (db : Db)
    → IsUnique db
    → claim_args_valid c ≡ true
    → claim_args_valid c' ≡ true
    → c'.instance_id ≡ c.instance_id
    → later ≤ now + seconds c'.stale_after_seconds
    → (claim_operation c token now db).0 ≡ ok (some token)
    → (claim_operation c' token' later (claim_operation c token now db).1).0 ≡ ok none
claim_exclusive c c' token token' now later db unique valid valid' same_id early granted =
    let (r, _, row) = claim_leaves c token now db unique valid granted in
    claim_answer c' token' later (claim_operation c token now db).1
      (claim-IsUnique c token now db unique) valid'
    ∙ rw (same_id, row) (ground arith)

-- The deletion that a cleanup asks for once the containers are gone.
abbrev pub confirmed : Claim → String → Option Reason → Option ℕ → Deletion
confirmed c token reason stopped = record {
  instance_id = c.instance_id;
  provision_token = none;
  operation_token = some token;
  reason = reason;
  stopped_at = stopped;
}

pub delete_found :
    (d : Deletion) (now : ℕ) (db : Db) (r : Instance)
    → IsUnique db
    → (is_none d.provision_token && is_none d.operation_token) ≡ false
    → find_instance d.instance_id db.instances ≡ some r
    → tokens_match d r ≡ true
    → let (result, db') = delete_after_confirmed_cleanup d now db in
      (result ≡ ok true)
      × (find_instance d.instance_id db'.instances ≡ none)
      × All (λ i. str_eq i.instance_id d.instance_id ≡ false) db'.infos
unfolding delete_after_confirmed_cleanup delete_where
delete_found d now db r unique given found tokens =
    let own = find-test (λ (s : Instance). str_eq s.id d.instance_id) db.instances r found in
    let hit : find (is_deletable d) db.instances ≡ some r =
      find_narrow d db.instances r found tokens in
    rw (given, hit)
      (
        ap ok (count_one d db.instances r unique found tokens),
        by_key-select (λ s. s.id) clash d.instance_id (λ s. not (is_deletable d s)) db.instances
              clash_of_id unique
            ∙ rw found (ground arith),
        All-not-select (λ i. str_eq i.instance_id d.instance_id) db.infos,
      )

-- A cleanup that holds the lease always completes: after a granted claim the deletion under its token
-- answers True, the instance is found no more, and no container row of it is left.
pub claim-delete :
    (c : Claim) (token : String) (now later : ℕ) (reason : Option Reason) (stopped : Option ℕ)
    (db : Db)
    → IsUnique db
    → claim_args_valid c ≡ true
    → (claim_operation c token now db).0 ≡ ok (some token)
    → let (result, db') =
        delete_after_confirmed_cleanup
          (confirmed c token reason stopped)
          later
          (claim_operation c token now db).1 in
      (result ≡ ok true)
      × (find_instance c.instance_id db'.instances ≡ none)
      × All (λ i. str_eq i.instance_id c.instance_id ≡ false) db'.infos
claim-delete c token now later reason stopped db unique valid granted =
    let (r, _, row) = claim_leaves c token now db unique valid granted in
    delete_found (confirmed c token reason stopped) later (claim_operation c token now db).1
      (claimed c token now r) (claim-IsUnique c token now db unique) refl row
      (ground (arith, str_eq_iff token token))

checked_entry-error :
    (f : Finalization) (e : Error) → checked_entry f ≡ err e → e ≡ Error.value_error
unfolding checked_entry
checked_entry-error f e h = ground arith

-- A worker whose reservation has left provisioning, since it runs or was claimed for cleanup, cannot
-- finalize it: `mark_running` raises ValueError or answers None, and commits nothing.
pub late_finalize :
    (f : Finalization) (now : ℕ) (db : Db) (r : Instance)
    → IsUnique db
    → find_instance f.instance_id db.instances ≡ some r
    → is_provisioning r.state ≡ false
    → (((mark_running f now db).0 ≡ ok none) ⊎ ((mark_running f now db).0 ≡ err Error.value_error))
      × ((mark_running f now db).1 ≡ db)
unfolding mark_running
late_finalize f now db r unique found left = elim (Result-cases (checked_entry f)) [
  | inr (e, checked) ↦
      let bad : e ≡ Error.value_error = checked_entry-error f e checked in
      (inr (ground arith), ground arith)
  | inl (entry, checked) ↦ elim (Option-cases (find (is_reserved f) db.instances)) [
    | inl missed ↦ (inl (ground arith), ground arith)
    | inr (s, hit) ↦
        let there =
          by_key-of_find (λ x. x.id) clash f.instance_id (is_reserved f) db.instances s clash_of_id
            unique (λ x e. (&&_both _ _ e).0) hit in
        let reserved = find-test (is_reserved f) db.instances s hit in
        let same : s ≡ r = ground arith in absurd (ground arith)
  ]
]
