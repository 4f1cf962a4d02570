-- ===== src/Requests/Tests.antt =====
-- The properties of the requests, applied to the database of the coordination's tests.
use ctfd_challenge_container.Prelude.{
  ℕ, true, false, ◌≡◌, refl, none, some, [], find, str_eq, is_some,
}
use ctfd_challenge_container.Schema.{clash, InstanceState, ContainerInfo, Db}
use ctfd_challenge_container.Coordination.{ok, InstanceReservation, find_instance}
use ctfd_challenge_container.Coordination.Reserve.{Fault, Round}
use ctfd_challenge_container.Coordination.Tests.{db, db-IsUnique}
use ctfd_challenge_container.Coordination.Lifecycle.Cleanup.{
  claim_operation, claim_args_valid, update_instance, delete_after_confirmed_cleanup,
}
use ctfd_challenge_container.Coordination.Lifecycle.Expiry.{renew, after_update}
use ctfd_challenge_container.Coordination.Lifecycle.Finalize.{
  mark_running, checked_entry, start_rows, insert_infos,
}
use ctfd_challenge_container.Coordination.Steps.{run}
use ctfd_challenge_container.Table.{fits, update_where, count_where}
use ctfd_challenge_container.Table.Unique.{is_clash_free}
use ctfd_challenge_container.Requests.{
  Challenge, Settings, Request, Connection, Body, plain, entry_container, info_response,
  build_connection_response, get_hostname_for_context, owner_filter, resolve_max_renewals,
  resolve_expiration,
}
use ctfd_challenge_container.Requests.Errors.{Failure}
use ctfd_challenge_container.Requests.Cleanup.{
  cleanup_instance, finish_cleanup, Cleaning, kill_container,
}
use ctfd_challenge_container.Requests.Renew.{
  renew_running, renewal_response, Probe, Renewing, renew_container,
}
use ctfd_challenge_container.Requests.Create.{
  provision, finalize, Creation, Creating, use_reservation,
}
use ctfd_challenge_container.Requests.Settled.{Ends, use_reservation-Ends}
use ctfd_challenge_container.Requests.Outcome.{use_reservation-present}
use ctfd_challenge_container.Requests.Success.{Reports, use_reservation-Reports}
use ctfd_challenge_container.Requests.Ending.{IsGone, kill_container-IsGone}
use ctfd_challenge_container.Requests.Extending.{Extends, renew_container-Extends}

abbrev challenge : Challenge
challenge = record {
  id = 1;
  image = some "web";
  port = some 80;
  ctype = "tcp";
  ssh_username = none;
  ssh_password = none;
  expiration_seconds = some 600;
  max_renewals = some 2;
  docker_context = none;
  services_json = none;
}

abbrev settings : Settings
settings = record {
  max_containers_per_user = 4;
  max_concurrent_creates = 2;
  default_expiration_seconds = 1800;
  default_max_renewals = 2;
}

abbrev request : Request
request = record { host = "ctf.example:80"; settings = settings; decimal = λ n. "4" }

abbrev reachable : Cleaning
reachable = record {
  token = "op";
  claimed_at = 50000000;
  removal_error = none;
  meanwhile = [];
  ended_at = 51000000;
}

abbrev renewing : Renewing
renewing = record {
  probe = Probe.answers true;
  cleaning = reachable;
  meanwhile = [];
  now = 50;
  clock = 50000000;
}

abbrev alone : ℕ → Round
alone n = record {
  draw = record { now = 3000000; choice = 0; password = "p" };
  before = λ d. d;
  between = λ d. d;
  fault = Fault.calm;
}

abbrev timeout : Failure
timeout = record { is_start_timeout = false; text = "read timed out" }

abbrev creating : Creating
creating = record {
  instance_id = "new";
  provision_token = "t3";
  now = 3;
  rounds = alone;
  meanwhile = [];
  load_error = none;
  volumes_error = none;
  creation = Creation.made (record {
    container_id = "c2";
    port = some 4001;
    companions = [];
    stack_id = none;
    context_name = "east";
  });
  finalized_at = 4000000;
  removal_error = some timeout;
  removing = [];
  failed_at = 5000000;
  error_text = λ e. "error";
}

-- A container is made, and no port of it is found.
abbrev portless : Creating
portless = record creating {
  creation = Creation.made (record {
    container_id = "c2";
    port = none;
    companions = [];
    stack_id = none;
    context_name = "east";
  });
}

-- The reservation that made the provisioning row of the database.
abbrev reserved : InstanceReservation
reserved = record {
  instance_id = "fresh";
  provision_token = "t2";
  context_id = 1;
  context_name = "east";
  quota_slot = 1;
  create_slot = some 0;
  placement_units = 1;
  state = InstanceState.provisioning;
  created = true;
  ssh_password = none;
}

quiet_removal :
    (d : Db)
    → is_some (find_instance "fresh" (run portless.removing d).instances)
      ≡ is_some (find_instance "fresh" d.instances)
unfolding run
quiet_removal d = refl

use_reservation-present_example :
    is_some
      (find_instance "fresh" (use_reservation request challenge reserved portless db).1.instances)
    ≡ is_some (find_instance "fresh" db.instances)
use_reservation-present_example =
    use_reservation-present "fresh" request challenge reserved portless db timeout refl
      quiet_removal

use_reservation-Ends_example :
    Ends reserved (use_reservation request challenge reserved portless db)
use_reservation-Ends_example = use_reservation-Ends request challenge reserved portless db

created : (use_reservation request challenge reserved creating db).0.status ≡ 200
unfolding use_reservation provision finalize mark_running checked_entry start_rows insert_infos
    count_where update_where clash is_clash_free fits build_connection_response
    get_hostname_for_context
created = refl

use_reservation-Reports_example :
    Reports
      (use_reservation request challenge reserved creating db).0
      "fresh"
      (use_reservation request challenge reserved creating db).1
use_reservation-Reports_example =
    use_reservation-Reports request challenge reserved creating db db-IsUnique created

killed : (kill_container "c1" reachable db).0 ≡ ok (Body.success "container killed")
unfolding kill_container cleanup_instance finish_cleanup claim_operation claim_args_valid
    update_instance count_where update_where delete_after_confirmed_cleanup run
killed = refl

kill_container-IsGone_example :
    (reachable.removal_error ≡ none)
    × ((info : ContainerInfo) × (find (λ i. str_eq i.container_id "c1") db.infos ≡ some info)
        × IsGone info.instance_id (kill_container "c1" reachable db).1)
kill_container-IsGone_example =
    kill_container-IsGone "c1" reachable db "container killed" db-IsUnique killed

abbrev extended : Connection
extended = record {
  status = "success";
  hostname = "east.example";
  port = 4000;
  connect = "tcp";
  expires = 650;
  renewals_used = 1;
  max_renewals = 2;
  ssh = none;
}

renewed :
    (renew_container request (some challenge) 7 true renewing db).0
    ≡ ok (plain (Body.renewed extended))
unfolding renew_container renew_running renewal_response info_response build_connection_response
    get_hostname_for_context renew after_update update_instance count_where update_where run
    owner_filter resolve_max_renewals resolve_expiration
renewed = refl

renew_container-Extends_example :
    (info : ContainerInfo) × (entry_container 1 7 true db.infos ≡ some info)
    × Extends request challenge 50 extended info
        (renew_container request (some challenge) 7 true renewing db).1
renew_container-Extends_example =
    renew_container-Extends request challenge 7 true renewing db (plain (Body.renewed extended))
      extended db-IsUnique renewed refl
