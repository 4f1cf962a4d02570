-- ===== src/Coordination.antt =====
-- src/coordination.py: the types that its methods pass, its exceptions, and the reads that several
-- methods share. An exception is its class; the message is left out. The argument `now` of an
-- operation is what `time.time()` returns in it.
pub mod Reserve
pub mod Lifecycle
pub mod Cases
pub mod Steps
pub mod Invariant
pub mod Presence
pub mod Lease
pub mod Renewal
pub mod Admission
pub mod Tests
use ctfd_challenge_container.Prelude.{
  ℕ, zero, suc, Bool, true, false, String, Option, none, some, List, [], ◌∷◌, if◌then◌else◌, ◌==◌,
  ◌&&◌, find, str_eq, ◌≡◌, refl, ◌⊎◌, inl, inr,
}
use ctfd_challenge_container.Schema.{
  OwnerKind, OwnerKey, DockerContext, Instance, InstanceState, Db, owner_eq,
}
use ctfd_challenge_container.Table.{by_key}

pub data Error : Type 0 where
  value_error coordination_error quota_exceeded create_capacity_unavailable context_unavailable
        integrity_error operational_error attribute_error :
      Error

pub data Result {ℓ} (A : Type ℓ) : Type ℓ where
  ok : A → Result A
  err : Error → Result A

infixl 5 ◌>>=◌
abbrev pub ◌>>=◌ {ℓ κ} : {A : Type ℓ} {B : Type κ} → Result A → (A → Result B) → Result B
ok a >>= f = f a
err e >>= f = err e

abbrev pub or_raise {ℓ} : {A : Type ℓ} → Option A → Error → Result A
or_raise none e = err e
or_raise (some a) e = ok a

pub Result-cases {ℓ} :
    {A : Type ℓ} (m : Result A) → ((a : A) × (m ≡ ok a)) ⊎ ((e : Error) × (m ≡ err e))
Result-cases (ok a) = inl (a, refl)
Result-cases (err e) = inr (e, refl)

pub record InstanceReservation : Type 0 where
  pub instance_id : String
  pub provision_token : String
  pub context_id : ℕ
  pub context_name : String
  pub quota_slot : ℕ
  pub create_slot : Option ℕ
  pub placement_units : ℕ
  pub state : InstanceState
  pub created : Bool
  pub ssh_password : Option String

pub record PhysicalMember : Type 0 where
  pub container_id : String
  pub port : ℕ
  pub is_entry : Bool
  pub service_name : String

pub record LifecycleUpdate : Type 0 where
  pub expires : ℕ
  pub renewals_used : ℕ
  pub solved_at : Option ℕ

pub record FinalizedInstance : Type 0 where
  pub container_id : String
  pub port : ℕ
  pub expires : ℕ
  pub renewals_used : ℕ
  pub user_id : Option ℕ
  pub team_id : Option ℕ
  pub docker_context : String
  pub ssh_password : Option String

unfoldable pub owner_key : ℕ → Bool → Result OwnerKey
owner_key zero is_team = err value_error
owner_key (suc n) is_team =
    ok (record { kind = if is_team then OwnerKind.team else OwnerKind.user; number = suc n })

abbrev pub find_instance : String → List Instance → Option Instance
find_instance id rows = by_key (λ r. r.id) id rows

abbrev pub find_context : ℕ → List DockerContext → Option DockerContext
find_context id contexts = find (λ c. c.id == id) contexts

-- `_reservation`: a foreign key that points nowhere is a CoordinationError.
unfoldable pub reservation : Db → Instance → Bool → Result InstanceReservation
reservation db row created = do
  context ← or_raise (find_context row.docker_context_id db.contexts) coordination_error
  ok (record {
    instance_id = row.id;
    provision_token = row.provision_token;
    context_id = row.docker_context_id;
    context_name = context.context_name;
    quota_slot = row.quota_slot;
    create_slot = row.create_slot;
    placement_units = row.placement_units;
    state = row.state;
    created = created;
    ssh_password = row.ssh_password;
  })

abbrev pub lifecycle_of : Instance → LifecycleUpdate
lifecycle_of row = record {
  expires = row.expires;
  renewals_used = row.renewals_used;
  solved_at = row.solved_at;
}

unfoldable pub get_lifecycle : String → Db → Option LifecycleUpdate
get_lifecycle id db = elim (find_instance id db.instances) [
  | none ↦ none
  | some row ↦ some (lifecycle_of row)
]
