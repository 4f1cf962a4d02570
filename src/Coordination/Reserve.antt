-- ===== src/Coordination/Reserve.antt =====
-- `InstanceCoordinator.reserve_instance` and the methods that it calls.
-- Other workers commit to the same database: a `Round` says what they commit before an attempt opens
-- its session and between its reads and its writes, and whether the session meets an OperationalError.
pub mod Ranking
pub mod Choice
use Prim.Native.Nat.{compare, Ordering}
use ctfd_challenge_container.Prelude.{
  ℕ, zero, suc, ◌+◌, ◌*◌, ◌%◌, Bool, true, false, not, ◌&&◌, ◌||◌, String, Option, none, some, List,
  [], ◌∷◌, map, if◌then◌else◌, ◌==◌, leb, str_eq, find, select, any, is_empty, is_some, is_none,
  length, get_or, range, sum,
}
use ctfd_challenge_container.Schema.{
  OwnerKey, DockerContext, Instance, InstanceState, Db, owner_eq, is_active, is_healthy, seconds,
  clash,
}
use ctfd_challenge_container.Table.{update_where, count_where, fits}
use ctfd_challenge_container.Coordination.{
  Error, Result, ok, err, ◌>>=◌, or_raise, InstanceReservation, owner_key, reservation,
}
use Ranking.{placement_count, ranked}

-- `_ReserveRequest`
pub record ReserveRequest : Type 0 where
  pub identity : OwnerKey
  pub challenge_id : ℕ
  pub xid : ℕ
  pub is_team : Bool
  pub submitter_user_id : ℕ
  pub max_instances : ℕ
  pub max_concurrent_creates : ℕ
  pub placement_units : ℕ
  pub expires : ℕ
  pub provision_timeout_seconds : ℕ
  pub preferred_context_name : Option String
  pub eligible_context_names : Option (List String)
  pub instance_id : String
  pub provision_token : String
  pub generate_ssh_password : Bool

-- What one attempt draws from the outside: the clock, `random.choice` and `secrets.choice`.
pub record Draw : Type 0 where
  pub now : ℕ
  pub choice : ℕ
  pub password : String

pub data Fault : Type 0 where
  calm locked broken : Fault

pub record Round : Type 0 where
  pub draw : Draw
  pub before : Db → Db
  pub between : Db → Db
  pub fault : Fault

abbrev pub mem_str : String → List String → Bool
mem_str s names = any (λ n. str_eq n s) names

abbrev pub mem_num : ℕ → List ℕ → Bool
mem_num k ns = any (λ n. n == k) ns

-- Python's truth of an optional string: neither None nor "".
abbrev pub truthy : Option String → Bool
truthy none = false
truthy (some s) = not (str_eq s "")

abbrev pub named : Option String → String → Bool
named none s = false
named (some n) s = str_eq s n

abbrev not_eligible : Option String → Option (List String) → Bool
not_eligible (some name) (some names) = not (mem_str name names)
not_eligible _ _ = false

unfoldable pub validate_reserve_args : ReserveRequest → Result (Unit {0})
validate_reserve_args r =
    if leb r.challenge_id 0
    then err Error.value_error
    else if leb r.submitter_user_id 0
    then err Error.value_error
    else if leb r.max_instances 0
    then err Error.value_error
    else if leb r.max_concurrent_creates 0
    then err Error.value_error
    else if leb r.placement_units 0
    then err Error.value_error
    else if leb r.provision_timeout_seconds 0
    then err Error.value_error
    else if elim r.eligible_context_names [ none ↦ false | some names ↦ is_empty names ]
    then err Error.context_unavailable
    else if truthy r.preferred_context_name
        && not_eligible r.preferred_context_name r.eligible_context_names
    then err Error.context_unavailable
    else ok tt

abbrev pub holds_challenge : OwnerKey → ℕ → Instance → Bool
holds_challenge identity challenge_id r =
    owner_eq r.owner_key identity && r.challenge_id == challenge_id

unfoldable pub existing_reservation : Db → OwnerKey → ℕ → Result (Option InstanceReservation)
existing_reservation db identity challenge_id =
    elim (find (holds_challenge identity challenge_id) db.instances) [
      | none ↦ ok none
      | some row ↦ do r ← reservation db row false; ok (some r)
    ]

abbrev pub used_quota : OwnerKey → List Instance → List ℕ
used_quota identity rows =
    map (λ r. r.quota_slot) (select (λ r. owner_eq r.owner_key identity) rows)

unfoldable pub pick_quota_slot : Db → OwnerKey → ℕ → Result ℕ
pick_quota_slot db identity max_instances =
    or_raise
      (find (λ slot. not (mem_num slot (used_quota identity db.instances))) (range max_instances))
      Error.quota_exceeded

abbrev pub is_candidate : Option String → Option (List String) → DockerContext → Bool
is_candidate preferred eligible c =
    is_active c.state
    && is_healthy c.health_state
    && (if truthy preferred then named preferred c.context_name else true)
    && elim eligible [ none ↦ true | some names ↦ mem_str c.context_name names ]

unfoldable pub ranked_contexts :
    Db → Option String → Option (List String) → Result (List DockerContext)
ranked_contexts db preferred eligible =
    let contexts = select (is_candidate preferred eligible) db.contexts in
    if is_empty contexts
    then err Error.context_unavailable
    else ok (ranked (placement_count db.instances) contexts)

abbrev pub slot_list : Option ℕ → List ℕ
slot_list none = []
slot_list (some s) = s ∷ []

unfoldable pub used_create_slots : ℕ → List Instance → List ℕ
used_create_slots context_id [] = []
used_create_slots context_id (r ∷ rows) = elim r.create_slot [
  | none ↦ used_create_slots context_id rows
  | some s ↦
      if r.docker_context_id == context_id
      then s ∷ used_create_slots context_id rows
      else used_create_slots context_id rows
]

abbrev pub free_slots : ℕ → List Instance → ℕ → List ℕ
free_slots context_id rows limit =
    select (λ slot. not (mem_num slot (used_create_slots context_id rows))) (range limit)

-- `random.choice(free)` of a list that is not empty.
abbrev pub choose : ℕ → List ℕ → ℕ
choose draw free = get_or free (draw % length free) 0

unfoldable pub pick_create_slot :
    List Instance → List DockerContext → ℕ → ℕ → Result (DockerContext × ℕ)
pick_create_slot rows [] limit draw = err Error.create_capacity_unavailable
pick_create_slot rows (c ∷ cs) limit draw =
    if is_empty (free_slots c.id rows limit)
    then pick_create_slot rows cs limit draw
    else ok (c, choose draw (free_slots c.id rows limit))

-- `hostname == value` in SQL, where SQLAlchemy writes IS NULL for None.
abbrev pub hostname_eq : Option String → Option String → Bool
hostname_eq none none = true
hostname_eq (some a) (some b) = str_eq a b
hostname_eq _ _ = false

abbrev pub is_unchanged : DockerContext → DockerContext → Bool
is_unchanged seen c =
    c.id == seen.id
    && is_active c.state
    && is_healthy c.health_state
    && hostname_eq c.hostname seen.hostname

abbrev pub bumped : DockerContext → DockerContext
bumped c = record c { placement_version = c.placement_version + 1 }

unfoldable pub bump_placement_version : Db → DockerContext → Bool × Db
bump_placement_version db seen = (
  count_where (is_unchanged seen) db.contexts == 1,
  record db { contexts = update_where (is_unchanged seen) bumped db.contexts },
)

unfoldable pub provisioning_row : ReserveRequest → Draw → ℕ → ℕ → ℕ → Instance
provisioning_row request draw context_id quota_slot create_slot = record {
  id = request.instance_id;
  ssh_password = if request.generate_ssh_password then some draw.password else none;
  owner_key = request.identity;
  user_id = some request.submitter_user_id;
  team_id = if request.is_team then some request.xid else none;
  challenge_id = request.challenge_id;
  quota_slot = quota_slot;
  state = InstanceState.provisioning;
  state_version = 0;
  docker_context_id = context_id;
  create_slot = some create_slot;
  placement_units = request.placement_units;
  stack_id = none;
  entry_container_id = none;
  provision_token = request.provision_token;
  operation_token = none;
  provision_deadline = some (draw.now + seconds request.provision_timeout_seconds);
  created_at = draw.now;
  updated_at = draw.now;
  expires = request.expires;
  renewals_used = 0;
  solved_at = none;
  last_error = none;
}

-- The INSERT with the unique constraints of the table.
unfoldable pub insert_instance : Instance → Db → Result Db
insert_instance row db =
    if fits clash row db.instances
    then ok (record db { instances = row ∷ db.instances })
    else err Error.integrity_error

pub data Plan : Type 0 where
  already : InstanceReservation → Plan
  place : DockerContext → ℕ → ℕ → Plan

unfoldable pub place_plan : ReserveRequest → Draw → Db → Result Plan
place_plan request draw db = do
  quota_slot ← pick_quota_slot db request.identity request.max_instances
  contexts ← ranked_contexts db request.preferred_context_name request.eligible_context_names
  picked ← pick_create_slot db.instances contexts request.max_concurrent_creates draw.choice
  ok (place picked.0 quota_slot picked.1)

-- The reads of `_attempt_reserve`.
unfoldable pub plan_reserve : ReserveRequest → Draw → Db → Result Plan
unfolding place_plan
plan_reserve request draw db = do
  existing ← existing_reservation db request.identity request.challenge_id
  elim existing [ some r ↦ ok (already r) | none ↦ place_plan request draw db ]

unfoldable pub created_reservation : Db → Instance → Result (Option InstanceReservation)
created_reservation db row = do r ← reservation db row true; ok (some r)

-- Its writes: what is not committed is rolled back, so an error leaves the database as it was.
unfoldable pub commit_place :
    ReserveRequest → Draw → DockerContext → ℕ → ℕ → Db → Result (Option InstanceReservation) × Db
unfolding created_reservation
commit_place request draw context quota_slot create_slot db =
    let (bumped_one, db') = bump_placement_version db context in
    if not bumped_one
    then (ok none, db)
    else let row = provisioning_row request draw context.id quota_slot create_slot in
      elim (insert_instance row db') [
        | ok db'' ↦ (created_reservation db'' row, db'')
        | err e ↦ (err e, db)
      ]

unfoldable pub attempt_reserve :
    ReserveRequest → Draw → (Db → Db) → Db → Result (Option InstanceReservation) × Db
attempt_reserve request draw between db = elim (plan_reserve request draw db) [
  | ok (already r) ↦ (ok (some r), between db)
  | ok (place context quota_slot create_slot) ↦
      commit_place request draw context quota_slot create_slot (between db)
  | err e ↦ (err e, between db)
]

abbrev sqlite_busy_retries : ℕ
sqlite_busy_retries = 5

-- How the loop goes on from an attempt.
abbrev pub settle :
    (Db → Result InstanceReservation × Db)
    → Result (Option InstanceReservation) × Db
    → Result InstanceReservation × Db
settle retry (ok (some r), db) = (ok r, db)
settle retry (ok none, db) = retry db
settle retry (err Error.integrity_error, db) = retry db
settle retry (err e, db) = (err e, db)

unfoldable pub last_look : ReserveRequest → Db → Result InstanceReservation × Db
last_look request db = elim (existing_reservation db request.identity request.challenge_id) [
  | ok (some r) ↦ (ok r, db)
  | ok none ↦ (err Error.create_capacity_unavailable, db)
  | err e ↦ (err e, db)
]

unfoldable pub reserve_loop :
    ℕ → ℕ → (ℕ → Round) → ReserveRequest → Db → Result InstanceReservation × Db
unfolding last_look
reserve_loop zero busy rounds request db = last_look request db
reserve_loop (suc left) busy rounds request db = elim (rounds left).fault [
  | Fault.calm ↦
      settle (reserve_loop left busy rounds request)
        (attempt_reserve request (rounds left).draw (rounds left).between ((rounds left).before db))
  | Fault.locked ↦
      if leb sqlite_busy_retries busy
      then (err Error.operational_error, (rounds left).between ((rounds left).before db))
      else reserve_loop left (suc busy) rounds request
          ((rounds left).between ((rounds left).before db))
  | Fault.broken ↦ (err Error.operational_error, (rounds left).between ((rounds left).before db))
]

abbrev pub max_attempts : ReserveRequest → ℕ
max_attempts request = request.max_instances * request.max_concurrent_creates * 8 + 8

unfoldable pub reserve_instance :
    ReserveRequest → (ℕ → Round) → Db → Result InstanceReservation × Db
reserve_instance request rounds db =
    elim (do _ ← validate_reserve_args request; owner_key request.xid request.is_team) [
      | err e ↦ (err e, db)
      | ok identity ↦
          reserve_loop (max_attempts request) 0 rounds (record request { identity = identity }) db
    ]
