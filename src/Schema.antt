-- ===== src/Schema.antt =====
-- The tables of models.py that the coordination of instances reads and writes.
-- A nullable column is an Option. A float time stamp is a number of microseconds, an integer one
-- (`expires`, `timestamp`) a number of seconds. The string "team:7" of an owner is its kind and number.
use ctfd_challenge_container.Prelude.{
  ℕ, ◌*◌, Bool, ◌&&◌, ◌||◌, String, Option, List, ◌==◌, str_eq, sql_eq,
}

-- INSTANCE_STATES
pub data InstanceState : Type 0 where
  provisioning running cleanup_pending : InstanceState

-- CONTEXT_STATES
pub data ContextState : Type 0 where
  active draining disabled retired_orphaned : ContextState

-- CONTEXT_HEALTH_STATES
pub data HealthState : Type 0 where
  unknown healthy unhealthy : HealthState

pub data OwnerKind : Type 0 where
  user team : OwnerKind

pub record OwnerKey : Type 0 where
  pub kind : OwnerKind
  pub number : ℕ

-- A whole number of seconds on the scale of the float time stamps.
abbrev pub seconds : ℕ → ℕ
seconds n = n * 1000000

pub record DockerContext : Type 0 where
  pub id : ℕ
  pub context_name : String
  pub hostname : Option String
  pub pub_hostname : String
  pub weight : ℕ
  pub state : ContextState
  pub placement_version : ℕ
  pub health_state : HealthState
  pub health_checked_at : Option ℕ
  pub health_error : Option String

pub record Instance : Type 0 where
  pub id : String
  pub ssh_password : Option String
  pub owner_key : OwnerKey
  pub user_id : Option ℕ
  pub team_id : Option ℕ
  pub challenge_id : ℕ
  pub quota_slot : ℕ
  pub state : InstanceState
  pub state_version : ℕ
  pub docker_context_id : ℕ
  pub create_slot : Option ℕ
  pub placement_units : ℕ
  pub stack_id : Option String
  pub entry_container_id : Option String
  pub provision_token : String
  pub operation_token : Option String
  pub provision_deadline : Option ℕ
  pub created_at : ℕ
  pub updated_at : ℕ
  pub expires : ℕ
  pub renewals_used : ℕ
  pub solved_at : Option ℕ
  pub last_error : Option String

pub record ContainerInfo : Type 0 where
  pub container_id : String
  pub instance_id : String
  pub challenge_id : ℕ
  pub team_id : Option ℕ
  pub user_id : Option ℕ
  pub port : ℕ
  pub timestamp : ℕ
  pub expires : ℕ
  pub renewals_used : ℕ
  pub docker_context : String
  pub stack_id : Option String
  pub is_entry : Bool

pub data Reason : Type 0 where
  expired reconciled stopped solved : Reason

pub record History : Type 0 where
  pub instance_id : String
  pub container_id : String
  pub challenge_id : ℕ
  pub user_id : Option ℕ
  pub team_id : Option ℕ
  pub docker_context : String
  pub stack_id : Option String
  pub is_entry : Bool
  pub service_name : String
  pub created_at : ℕ
  pub stopped_at : Option ℕ
  pub reason : Option Reason

pub record Db : Type 0 where
  pub instances : List Instance
  pub infos : List ContainerInfo
  pub history : List History
  pub contexts : List DockerContext

abbrev pub is_provisioning : InstanceState → Bool
is_provisioning InstanceState.provisioning = Bool.true
is_provisioning _ = Bool.false

abbrev pub is_running : InstanceState → Bool
is_running InstanceState.running = Bool.true
is_running _ = Bool.false

abbrev pub is_cleanup_pending : InstanceState → Bool
is_cleanup_pending InstanceState.cleanup_pending = Bool.true
is_cleanup_pending _ = Bool.false

abbrev pub is_active : ContextState → Bool
is_active ContextState.active = Bool.true
is_active _ = Bool.false

abbrev pub is_healthy : HealthState → Bool
is_healthy HealthState.healthy = Bool.true
is_healthy _ = Bool.false

abbrev pub kind_eq : OwnerKind → OwnerKind → Bool
kind_eq OwnerKind.user OwnerKind.user = Bool.true
kind_eq OwnerKind.team OwnerKind.team = Bool.true
kind_eq _ _ = Bool.false

abbrev pub owner_eq : OwnerKey → OwnerKey → Bool
owner_eq a b = kind_eq a.kind b.kind && a.number == b.number

-- Two rows of `container_instances` that a primary key or a UniqueConstraint keeps apart.
unfoldable pub clash : Instance → Instance → Bool
clash a b =
    str_eq a.id b.id
    || (owner_eq a.owner_key b.owner_key && a.challenge_id == b.challenge_id)
    || (owner_eq a.owner_key b.owner_key && a.quota_slot == b.quota_slot)
    || (a.docker_context_id == b.docker_context_id && sql_eq ◌==◌ a.create_slot b.create_slot)
    || sql_eq str_eq a.stack_id b.stack_id
    || sql_eq str_eq a.entry_container_id b.entry_container_id
    || str_eq a.provision_token b.provision_token
