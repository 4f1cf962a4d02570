-- ===== src/Requests/Create.antt =====
-- `create_container` and `_cleanup_failed_reservation` of src/views/helpers.py. What reads the
-- challenge's configuration and what Docker does are arguments.
use Prim.Native.String.{◌++◌ as str_append}
use ctfd_challenge_container.Prelude.{
  ℕ, ◌+◌, Bool, true, false, ◌&&◌, ◌||◌, String, Option, none, some, List, [], ◌∷◌, map, find,
  if◌then◌else◌, str_eq,
}
use ctfd_challenge_container.Schema.{OwnerKind, Db, is_running, is_provisioning}
use ctfd_challenge_container.Coordination.{
  Error, Result, ok, err, InstanceReservation, PhysicalMember,
}
use ctfd_challenge_container.Coordination.Reserve.{ReserveRequest, Round, reserve_instance, truthy}
use ctfd_challenge_container.Coordination.Lifecycle.Finalize.{Finalization, mark_running}
use ctfd_challenge_container.Coordination.Lifecycle.Cleanup.{
  Deletion, mark_cleanup_pending, delete_after_confirmed_cleanup,
}
use ctfd_challenge_container.Coordination.Steps.{Op, run}
use ctfd_challenge_container.Requests.{
  Challenge, Settings, Request, Answer, Body, plain, refused, later, or_number, resolve_expiration,
  info_endpoint, finalized_endpoint, info_response, build_connection_response,
}
use ctfd_challenge_container.Requests.Errors.{
  ErrorKind, Failure, error_body, sanitize_container_error,
}
use ctfd_challenge_container.Requests.Messages.{
  challenge_not_found, hosts_busy, request_in_progress, cleanup_in_progress, placement_failed,
  port_unavailable, finalization_failed,
}

-- What reading the configuration gives: a ValidationError, a ContainerException, an exception that no
-- clause names, or the number of services and the contexts whose volumes are ready (None where there are
-- no mounts).
pub data Preparation : Type 0 where
  invalid : Failure → Preparation
  unavailable : Failure → Preparation
  broken : Preparation
  ready : ℕ → Option (List String) → Preparation

-- What `create_stack` or `create_container` of the manager gives, with the port that is read after it;
-- a companion is its service name and its container id.
pub record Made : Type 0 where
  pub container_id : String
  pub port : Option ℕ
  pub companions : List (String × String)
  pub stack_id : Option String
  pub context_name : String

pub data Creation : Type 0 where
  failed : Failure → Creation
  made : Made → Creation

-- Why `_resolve_runtime_volumes` raises: a ContainerException, or a MountConfigError, which no clause of
-- `create_container` names.
pub data VolumesError : Type 0 where
  refused_volumes : Failure → VolumesError
  escaping : VolumesError

-- The outside of one creation: what it draws, the rounds of its reservation, what Docker answers, what
-- other workers commit after the reservation and while resources are removed, the clock of its last
-- transactions, and the texts of the coordination's exceptions.
pub record Creating : Type 0 where
  pub instance_id : String
  pub provision_token : String
  pub now : ℕ
  pub rounds : ℕ → Round
  pub meanwhile : List Op
  pub load_error : Option Failure
  pub volumes_error : Option VolumesError
  pub creation : Creation
  pub finalized_at : ℕ
  pub removal_error : Option Failure
  pub removing : List Op
  pub failed_at : ℕ
  pub error_text : Error → String

abbrev pub unstarted : InstanceReservation → Deletion
unstarted r = record {
  instance_id = r.instance_id;
  provision_token = some r.provision_token;
  operation_token = none;
  reason = none;
  stopped_at = none;
}

unfoldable pub give_up : InstanceReservation → String → Creating → Db → Bool × Db
give_up r text creating db =
    (false, (mark_cleanup_pending r.instance_id r.provision_token text creating.failed_at db).1)

-- The first `if` and the `try` after it.
unfoldable pub cleanup_failed_reservation :
    InstanceReservation → String → Bool → Creating → Db → Bool × Db
cleanup_failed_reservation r text ambiguous_external_io creating db =
    if ambiguous_external_io || str_eq r.context_name ""
    then give_up r text creating db
    else elim creating.removal_error [
      | some failure ↦ give_up r text creating (run creating.removing db)
      | none ↦
          let (result, db') =
            delete_after_confirmed_cleanup (unstarted r) creating.failed_at
              (run creating.removing db) in
          elim result [ ok deleted ↦ (deleted, db') | err e ↦ give_up r text creating db' ]
    ]

-- `error_body(sanitize_container_error(err))` with the status and the header that go with it.
abbrev pub failure_answer : ℕ → Option ℕ → Failure → Answer
failure_answer status retry_after failure = record {
  status = status;
  retry_after = retry_after;
  body = Body.error (error_body (sanitize_container_error failure) none);
}

abbrev limit_of : Settings → ℕ
limit_of settings = or_number settings.max_containers_per_user 4

abbrev pub quota_message : Request → String
quota_message request = str_append "you can only spawn " (
    str_append (request.decimal (limit_of request.settings))
      " containers at a time, please stop other containers")

-- The `except` clauses around the reservation; what they do not name is raised again.
unfoldable pub reserve_refused : Request → (Error → String) → Error → Result Answer
reserve_refused request error_text Error.quota_exceeded =
    ok (refused 409 (quota_message request) ErrorKind.user)
reserve_refused request error_text Error.create_capacity_unavailable =
    ok (later 429 5 (Body.error (error_body hosts_busy (some ErrorKind.transient))))
reserve_refused request error_text Error.context_unavailable =
    ok (refused 503 hosts_busy ErrorKind.transient)
reserve_refused request error_text Error.coordination_error = ok (
    failure_answer 503 none
      (record { is_start_timeout = false; text = error_text Error.coordination_error }))
reserve_refused request error_text e = err e

-- The answer for an instance that was there before.
unfoldable pub existing_answer : Request → Challenge → InstanceReservation → Db → Result Answer
existing_answer request challenge r db =
    let waiting =
      if is_provisioning r.state
      then later 429 5 (Body.error (error_body request_in_progress (some ErrorKind.transient)))
      else later 503 300 (Body.error (error_body cleanup_in_progress (some ErrorKind.transient))) in
    if is_running r.state
    then elim (find (λ i. str_eq i.instance_id r.instance_id && i.is_entry) db.infos) [
      | none ↦ ok waiting
      | some info ↦
          elim (info_response request db "already_running" challenge info (info_endpoint info none)
            r.context_name) [ err e ↦ err e | ok response ↦ ok (plain (Body.connection response)) ]
    ]
    else ok waiting

abbrev pub entry_member : Made → ℕ → PhysicalMember
entry_member m port = record {
  container_id = m.container_id;
  port = port;
  is_entry = true;
  service_name = "entry";
}

abbrev pub companion_member : String × String → PhysicalMember
companion_member companion = record {
  container_id = companion.1;
  port = 0;
  is_entry = false;
  service_name = companion.0;
}

abbrev pub finalization : Challenge → InstanceReservation → Made → ℕ → Finalization
finalization challenge r m port =
    let is_stack = truthy challenge.services_json in
    record {
      instance_id = r.instance_id;
      provision_token = r.provision_token;
      entry_container_id = m.container_id;
      stack_id = if is_stack then m.stack_id else none;
      physical_members =
          entry_member m port ∷ (if is_stack then map companion_member m.companions else []);
    }

unfoldable pub finalize :
    Request → Challenge → InstanceReservation → Made → ℕ → Creating → Db → Answer × Db
finalize request challenge r m port creating db =
    let refusal = refused 500 finalization_failed ErrorKind.transient in
    let (result, db') = mark_running (finalization challenge r m port) creating.finalized_at db in
    elim result [
      | err e ↦
          (refusal, (cleanup_failed_reservation r (creating.error_text e) false creating db').1)
      | ok none ↦ (
        refusal,
        (cleanup_failed_reservation r "the provisioning reservation changed before finalization"
            false creating db').1,
      )
      | ok (some finalized) ↦ (
        plain (
            Body.connection (
              build_connection_response request db'.contexts "created" challenge
                (finalized_endpoint finalized) (some m.context_name))),
        db',
      )
    ]

abbrev pub missing_port : Challenge → String
missing_port challenge =
    if truthy challenge.services_json
    then "could not determine the entry container port"
    else "could not determine the container port"

-- From the creation of the containers on.
unfoldable pub provision :
    Request → Challenge → InstanceReservation → Creation → Creating → Db → Answer × Db
provision request challenge r (failed failure) creating db = (
  failure_answer 503 (some 300) failure,
  (cleanup_failed_reservation r failure.text true creating db).1,
)
provision request challenge r (made m) creating db = elim m.port [
  | none ↦ (
    refused 500 port_unavailable ErrorKind.transient,
    (cleanup_failed_reservation r (missing_port challenge) false creating db).1,
  )
  | some port ↦ finalize request challenge r m port creating db
]

-- An exception that leaves the view, which the web framework answers with status 500.
abbrev pub uncaught : Answer
uncaught = record { status = 500; retry_after = none; body = Body.uncaught }

-- What happens with a reservation that this request made.
unfoldable pub use_reservation :
    Request → Challenge → InstanceReservation → Creating → Db → Answer × Db
use_reservation request challenge r creating db =
    if str_eq r.context_name ""
    then (
      refused 503 placement_failed ErrorKind.transient,
      (cleanup_failed_reservation r "reservation has no docker context" false creating db).1,
    )
    else elim creating.load_error [
      | some failure ↦ (
        failure_answer 503 (some 300) failure,
        (cleanup_failed_reservation r failure.text true creating db).1,
      )
      | none ↦ elim creating.volumes_error [
        | some (refused_volumes failure) ↦ (
          failure_answer 503 none failure,
          (cleanup_failed_reservation r failure.text false creating db).1,
        )
        | some escaping ↦ (uncaught, db)
        | none ↦ provision request challenge r creating.creation creating db
      ]
    ]

-- The arguments of the reservation. `identity` is what `reserve_instance` sets.
unfoldable pub wanted :
    Request → Challenge → ℕ → ℕ → Bool → ℕ → Option (List String) → Creating → ReserveRequest
wanted request challenge xid uid is_team services eligible creating = record {
  identity = record { kind = OwnerKind.user; number = xid };
  challenge_id = challenge.id;
  xid = xid;
  is_team = is_team;
  submitter_user_id = uid;
  max_instances = limit_of request.settings;
  max_concurrent_creates = or_number request.settings.max_concurrent_creates 2;
  placement_units = 1 + services;
  expires = creating.now + resolve_expiration request.settings challenge;
  provision_timeout_seconds = 120;
  preferred_context_name = challenge.docker_context;
  eligible_context_names = eligible;
  instance_id = creating.instance_id;
  provision_token = creating.provision_token;
  generate_ssh_password = str_eq challenge.ctype "ssh" && truthy challenge.ssh_password;
}

unfoldable pub reserve_and_use :
    Request → Challenge → ReserveRequest → Creating → Db → Result Answer × Db
reserve_and_use request challenge asked creating db =
    let (result, db') = reserve_instance asked creating.rounds db in
    elim result [
      | err e ↦ (reserve_refused request creating.error_text e, db')
      | ok r ↦
          let (answer, db'') =
            use_reservation request challenge r creating (run creating.meanwhile db') in
          if r.created then (ok answer, db'') else (existing_answer request challenge r db', db')
    ]

unfoldable pub create_container :
    Request → Option Challenge → Preparation → ℕ → ℕ → Bool → Creating → Db → Result Answer × Db
create_container request none prepared xid uid is_team creating db =
    (ok (refused 400 challenge_not_found ErrorKind.permanent), db)
create_container request (some challenge) (invalid failure) xid uid is_team creating db =
    (ok (refused 400 (sanitize_container_error failure) ErrorKind.permanent), db)
create_container request (some challenge) (unavailable failure) xid uid is_team creating db =
    (ok (failure_answer 400 none failure), db)
create_container request (some challenge) broken xid uid is_team creating db = (ok uncaught, db)
create_container request (some challenge) (ready services eligible) xid uid is_team creating db =
    reserve_and_use request challenge
      (wanted request challenge xid uid is_team services eligible creating) creating db
