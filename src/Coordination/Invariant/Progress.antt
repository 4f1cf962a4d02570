-- ===== src/Coordination/Invariant/Progress.antt =====
-- The life of one instance: how a transaction may change the row that is found under an id.
use ctfd_challenge_container.Prelude.{
  ℕ, ◌≤◌, ◌+◌, ◌<◌, Bool, true, ◌≡◌, refl, String, Option, none, some, List, ◌∷◌, arith, Bool-cases,
  inl, inr, ◌⊎◌, ap, sym, false, ◌&&◌, &&_both, str_eq_iff, str_eq, is_some, is_none, not, ◌≢◌,
}
use ctfd_challenge_container.Schema.{
  Instance, InstanceState, Db, clash, is_provisioning, is_running,
}
use ctfd_challenge_container.Table.{rewritten, update_where, delete_where, fits}
use ctfd_challenge_container.Table.Unique.{NoClash}
use ctfd_challenge_container.Table.Laws.{applied, kept, by_key-map, by_key-select, absent_of_fits}
use ctfd_challenge_container.Coordination.{find_instance}
use ctfd_challenge_container.Coordination.Reserve.{ReserveRequest, Draw, provisioning_row}
use ctfd_challenge_container.Coordination.Lifecycle.Finalize.{Finalization, is_reserved, started}
use ctfd_challenge_container.Coordination.Lifecycle.Cleanup.{
  Deletion, claim_args_valid, is_deletable, token_matches,
}
use ctfd_challenge_container.Coordination.Invariant.Uniqueness.{IsUnique}
use ctfd_challenge_container.Coordination.Steps.{
  Op, reserves, deletes, perform, Effect, same, inserting, starting, rewriting, removing, Rewriting,
  abandoning, claiming, releasing, shortening, renewing, extending, perform-Effect,
}

-- provisioning, then running, then cleanup_pending; a stage may be skipped, and none is taken back.
abbrev pub stage : InstanceState → ℕ
stage InstanceState.provisioning = 0
stage InstanceState.running = 1
stage InstanceState.cleanup_pending = 2

-- `s` is a later version of the row `r`.
pub record Advances (r s : Instance) : Type 0 where
  pub same_id : s.id ≡ r.id
  pub same_owner : s.owner_key ≡ r.owner_key
  pub same_challenge : s.challenge_id ≡ r.challenge_id
  pub same_quota : s.quota_slot ≡ r.quota_slot
  pub same_context : s.docker_context_id ≡ r.docker_context_id
  pub same_token : s.provision_token ≡ r.provision_token
  pub same_units : s.placement_units ≡ r.placement_units
  pub same_birth : s.created_at ≡ r.created_at
  pub stage_kept : stage r.state ≤ stage s.state
  pub version_kept : r.state_version ≤ s.state_version
  pub versioned : r.state ≢ s.state → r.state_version < s.state_version
  pub expiry_versioned : r.expires ≢ s.expires → r.state_version < s.state_version
  pub expiry_live : r.expires ≢ s.expires → is_running r.state ≡ true
  pub solved_once : is_some r.solved_at ≡ true → s.solved_at ≡ r.solved_at
  pub renewed_by_one : s.renewals_used ≤ r.renewals_used + 1
  pub renewals_kept : r.renewals_used ≤ s.renewals_used
  pub renewal_unsolved : r.renewals_used < s.renewals_used → is_none r.solved_at ≡ true

Advances-refl : (r : Instance) → Advances r r
Advances-refl r = ground arith

started-Advances :
    (f : Finalization) (now : ℕ) (r : Instance)
    → is_reserved f r ≡ true
    → Advances r (started f now r)
started-Advances f now r t = ground arith

Rewriting-Advances :
    {test : Instance → Bool} {change : Instance → Instance}
    → Rewriting test change
    → (r : Instance) → test r ≡ true
    → Advances r (change r)
Rewriting-Advances (abandoning id token error now) r t = ground arith
Rewriting-Advances (claiming c token now valid) r t = unfold claim_args_valid in ground arith
Rewriting-Advances (releasing id token error now) r t = ground arith
Rewriting-Advances (shortening id target solved) r t = ground arith
Rewriting-Advances (renewing id now new_expires limit clock) r t = ground arith
Rewriting-Advances (extending id new_expires clock) r t = ground arith

-- A new row is what its request asks for.
pub record IsAsked (request : ReserveRequest) (r : Instance) : Type 0 where
  pub asked_id : r.id ≡ request.instance_id
  pub asked_owner : r.owner_key ≡ request.identity
  pub asked_challenge : r.challenge_id ≡ request.challenge_id
  pub asked_token : r.provision_token ≡ request.provision_token
  pub asked_expiry : r.expires ≡ request.expires
  pub at_start : (is_provisioning r.state ≡ true) × (r.state_version ≡ 0)

-- A deletion names the row and one of its tokens at least, and no other than its tokens.
pub record IsGranted (d : Deletion) (r : Instance) : Type 0 where
  pub named : r.id ≡ d.instance_id
  pub by_token : (is_none d.provision_token && is_none d.operation_token) ≡ false
  pub by_provision : (d.provision_token ≡ none) ⊎ (d.provision_token ≡ some r.provision_token)
  pub by_operation : (d.operation_token ≡ none) ⊎ (d.operation_token ≡ r.operation_token)

-- How a transaction may change what is found under an id: only a reservation brings in a row, the one
-- it asked for; a row advances; and only a deletion that is granted takes it away.
pub data Passes (op : Op) : Option Instance → Option Instance → Type 0 where
  absent : Passes op none none
  arrives :
      (request : ReserveRequest) (draw : Draw) (snapshot : Db) (r : Instance)
      → op ≡ reserves request draw snapshot
      → IsAsked request r
      → Passes op none (some r)
  stays : (r s : Instance) → Advances r s → Passes op (some r) (some s)
  leaves :
      (r : Instance) (d : Deletion) (now : ℕ)
      → op ≡ deletes d now
      → IsGranted d r
      → Passes op (some r) none

token_matches-column :
    (given column : Option String)
    → token_matches given column ≡ true
    → (given ≡ none) ⊎ (given ≡ column)
token_matches-column none column e = inl refl
token_matches-column (some token) none e = absurd (ground arith)
token_matches-column (some token) (some held) e = inr (ap some (sym ((str_eq_iff held token).0 e)))

is_deletable-IsGranted :
    (d : Deletion) (r : Instance)
    → (is_none d.provision_token && is_none d.operation_token) ≡ false
    → is_deletable d r ≡ true
    → IsGranted d r
is_deletable-IsGranted d r given e = record {
  named = (str_eq_iff r.id d.instance_id).0 (&&_both _ _ e).0;
  by_token = given;
  by_provision = token_matches-column _ _ (&&_both _ _ (&&_both _ _ e).1).0;
  by_operation = token_matches-column _ _ (&&_both _ _ (&&_both _ _ e).1).1;
}

Passes-refl : (op : Op) (o : Option Instance) → Passes op o o
Passes-refl op none = absent
Passes-refl op (some r) = stays r r (Advances-refl r)

Passes-rewritten :
    (op : Op) (test : Instance → Bool) (change : Instance → Instance)
    → ((r : Instance) → test r ≡ true → Advances r (change r))
    → (o : Option Instance) → Passes op o (applied (rewritten test change) o)
Passes-rewritten op test change step none = absent
Passes-rewritten op test change step (some r) = elim (Bool-cases (test r)) [
  | inl e ↦ rw e (stays r (change r) (step r e))
  | inr e ↦ rw e (stays r r (Advances-refl r))
]

Advances-rewritten_id :
    (test : Instance → Bool) (change : Instance → Instance)
    → ((r : Instance) → test r ≡ true → Advances r (change r))
    → (r : Instance) → (rewritten test change r).id ≡ r.id
Advances-rewritten_id test change step r = elim (Bool-cases (test r)) [
  | inl e ↦ rw e ((step r e).same_id)
  | inr e ↦ rw e refl
]

Passes-update :
    (op : Op) (id : String) (rows : List Instance) (test : Instance → Bool)
    (change : Instance → Instance)
    → ((r : Instance) → test r ≡ true → Advances r (change r))
    → Passes op (find_instance id rows) (find_instance id (update_where test change rows))
unfolding update_where
Passes-update op id rows test change step =
    rw
      (by_key-map (λ r. r.id) id (rewritten test change) rows
        (Advances-rewritten_id test change step))
      (Passes-rewritten op test change step (find_instance id rows))

Passes-kept :
    (op : Op) (d : Deletion) (now : ℕ) (o : Option Instance)
    → op ≡ deletes d now
    → (is_none d.provision_token && is_none d.operation_token) ≡ false
    → Passes op o (kept (λ r. not (is_deletable d r)) o)
Passes-kept op d now none asked given = absent
Passes-kept op d now (some r) asked given = elim (Bool-cases (is_deletable d r)) [
  | inl e ↦ rw e (leaves r d now asked (is_deletable-IsGranted d r given e))
  | inr e ↦ rw e (stays r r (Advances-refl r))
]

pub clash_of_id : (x y : Instance) → str_eq x.id y.id ≡ true → clash x y ≡ true
unfolding clash
clash_of_id x y e = rw e refl

Passes-cons :
    (op : Op) (request : ReserveRequest) (draw : Draw) (snapshot : Db) (id : String)
    (row : Instance) (rows : List Instance)
    → op ≡ reserves request draw snapshot
    → fits clash row rows ≡ true
    → IsAsked request row
    → Passes op (find_instance id rows) (find_instance id (row ∷ rows))
Passes-cons op request draw snapshot id row rows asked free new =
    elim (Bool-cases (str_eq row.id id)) [
      | inl e ↦
          rw (e, absent_of_fits (λ r. r.id) clash id row rows clash_of_id free e)
            (arrives request draw snapshot row asked new)
      | inr e ↦ rw e (Passes-refl op (find_instance id rows))
    ]

provisioning_row-IsAsked :
    (request : ReserveRequest) (draw : Draw) (context quota create : ℕ)
    → IsAsked request (provisioning_row request draw context quota create)
unfolding provisioning_row
provisioning_row-IsAsked request draw context quota create = record {
  asked_id = refl;
  asked_owner = refl;
  asked_challenge = refl;
  asked_token = refl;
  asked_expiry = refl;
  at_start = (refl, refl);
}

Effect-Passes :
    {op : Op} {rows rows' : List Instance} (id : String)
    → Effect op rows rows'
    → NoClash clash rows
    → Passes op (find_instance id rows) (find_instance id rows')
Effect-Passes {op} {rows} id (same e) h = rw e (Passes-refl op (find_instance id rows))
Effect-Passes {op} {rows} id
      (inserting request draw snapshot context quota create asked planned free e) h =
    rw e (
      Passes-cons op request draw snapshot id _ rows asked free
        (provisioning_row-IsAsked request draw context.id quota create))
Effect-Passes {op} {rows} id (starting f now free e) h =
    rw e (Passes-update op id rows _ _ (started-Advances f now))
Effect-Passes {op} {rows} id (rewriting test change rule e) h =
    rw e (Passes-update op id rows _ _ (Rewriting-Advances rule))
Effect-Passes {op} {rows} id (removing d now asked given e) h = rw e (
    unfold delete_where in
    rw (by_key-select (λ r. r.id) clash id _ rows clash_of_id h)
      (Passes-kept op d now (find_instance id rows) asked given))

-- In a database that meets its unique constraints, one transaction leaves the row of an id absent; or,
-- if it is a reservation, brings in the row that it asked for, provisioning at version 0; or advances it
-- (its identity never changes, its stage never goes back, every change of stage or expiry raises its
-- version, its expiry moves only while it runs, a solve is recorded once, renewals rise by one at a time
-- and only unsolved); or, if it is a deletion of that id that carries a token and no other than the
-- row's, deletes it.
pub perform-Passes :
    (op : Op) (id : String) (db : Db)
    → IsUnique db
    → Passes op (find_instance id db.instances) (find_instance id (perform op db).instances)
perform-Passes op id db h = Effect-Passes id (perform-Effect op db) h
