-- ===== src/Coordination/Lifecycle/Finalize.antt =====
-- `InstanceCoordinator.mark_running`: the provisioned containers become rows, and the instance runs.
use ctfd_challenge_container.Prelude.{
  ℕ, suc, ◌/◌, Bool, false, not, ◌&&◌, ◌||◌, String, Option, none, some, List, [], ◌∷◌, ◌++◌, map,
  if◌then◌else◌, ◌==◌, str_eq, find, select, any, length,
}
use ctfd_challenge_container.Schema.{
  Instance, InstanceState, ContainerInfo, History, Db, is_provisioning, clash, DockerContext,
}
use ctfd_challenge_container.Table.{update_where, count_where}
use ctfd_challenge_container.Table.Unique.{is_clash_free}
use ctfd_challenge_container.Coordination.{
  Error, Result, ok, err, ◌>>=◌, or_raise, PhysicalMember, FinalizedInstance, find_context,
}

-- The arguments of one call.
pub record Finalization : Type 0 where
  pub instance_id : String
  pub provision_token : String
  pub entry_container_id : String
  pub stack_id : Option String
  pub physical_members : List PhysicalMember

abbrev repeats : List String → Bool
repeats [] = false
repeats (s ∷ ss) = any (λ s'. str_eq s s') ss || repeats ss

abbrev sole_entry : String → List PhysicalMember → Option PhysicalMember
sole_entry id (entry ∷ []) = if str_eq entry.container_id id then some entry else none
sole_entry id _ = none

-- The two checks before the session opens; they give the entry.
unfoldable pub checked_entry : Finalization → Result PhysicalMember
checked_entry f = do
  entry ←
      or_raise (sole_entry f.entry_container_id (select (λ m. m.is_entry) f.physical_members))
        Error.value_error
  if repeats (map (λ m. m.service_name) f.physical_members) then err Error.value_error else ok entry

abbrev pub is_reserved : Finalization → Instance → Bool
is_reserved f r =
    str_eq r.id f.instance_id
    && (str_eq r.provision_token f.provision_token && is_provisioning r.state)

abbrev pub member_info : Instance → String → Option String → PhysicalMember → ContainerInfo
member_info instance_row context_name stack m = record {
  container_id = m.container_id;
  instance_id = instance_row.id;
  challenge_id = instance_row.challenge_id;
  team_id = instance_row.team_id;
  user_id = instance_row.user_id;
  port = m.port;
  timestamp = instance_row.created_at / 1000000;
  expires = instance_row.expires;
  renewals_used = instance_row.renewals_used;
  docker_context = context_name;
  stack_id = stack;
  is_entry = m.is_entry;
}

abbrev pub member_history : Instance → String → Option String → ℕ → PhysicalMember → History
member_history instance_row context_name stack now m = record {
  instance_id = instance_row.id;
  container_id = m.container_id;
  challenge_id = instance_row.challenge_id;
  user_id = instance_row.user_id;
  team_id = instance_row.team_id;
  docker_context = context_name;
  stack_id = stack;
  is_entry = m.is_entry;
  service_name = m.service_name;
  created_at = now;
  stopped_at = none;
  reason = none;
}

-- INSERT of the members; the container id is the primary key of `container_info`.
unfoldable pub insert_infos : List ContainerInfo → List ContainerInfo → Result (List ContainerInfo)
insert_infos [] infos = ok infos
insert_infos (i ∷ is) infos = do
  infos' ← insert_infos is infos
  if any (λ j. str_eq j.container_id i.container_id) infos'
      then err Error.integrity_error
      else ok (i ∷ infos')

abbrev pub started : Finalization → ℕ → Instance → Instance
started f now r = record r {
  state = InstanceState.running;
  state_version = suc r.state_version;
  create_slot = none;
  entry_container_id = some f.entry_container_id;
  stack_id = f.stack_id;
  provision_deadline = none;
  updated_at = now;
  last_error = none;
}

abbrev pub finalized : Finalization → PhysicalMember → Instance → String → FinalizedInstance
finalized f entry r context_name = record {
  container_id = f.entry_container_id;
  port = entry.port;
  expires = r.expires;
  renewals_used = r.renewals_used;
  user_id = r.user_id;
  team_id = r.team_id;
  docker_context = context_name;
  ssh_password = r.ssh_password;
}

-- The rows that the session writes for a reserved instance, all or none of them.
unfoldable pub start_rows : Finalization → ℕ → Instance → DockerContext → Db → Result Db
start_rows f now r context db = do
  infos ←
      insert_infos (map (member_info r context.context_name f.stack_id) f.physical_members) db.infos
  let rows = update_where (is_reserved f) (started f now) db.instances
  let history' =
      map (member_history r context.context_name f.stack_id now) f.physical_members ++ db.history
  if is_clash_free clash rows
      then ok (record db { instances = rows; infos = infos; history = history' })
      else err Error.integrity_error

finalize_reserved :
    Finalization → ℕ → PhysicalMember → Instance → Db → Result (Option FinalizedInstance) × Db
finalize_reserved f now entry r db =
    if not (length f.physical_members == r.placement_units)
    then (err Error.value_error, db)
    else elim (find_context r.docker_context_id db.contexts) [
      | none ↦ (err Error.attribute_error, db)
      | some context ↦ elim (start_rows f now r context db) [
        | err e ↦ (err e, db)
        | ok db' ↦
            if count_where (is_reserved f) db.instances == 1
            then (ok (some (finalized f entry r context.context_name)), db')
            else (ok none, db)
      ]
    ]

unfoldable pub mark_running : Finalization → ℕ → Db → Result (Option FinalizedInstance) × Db
unfolding finalize_reserved
mark_running f now db = elim (checked_entry f) [
  | err e ↦ (err e, db)
  | ok entry ↦ elim (find (is_reserved f) db.instances) [
    | none ↦ (ok none, db)
    | some r ↦ finalize_reserved f now entry r db
  ]
]
