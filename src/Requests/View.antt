-- ===== src/Requests/View.antt =====
-- `view_container_info` and `_check_misconfigured` of src/views/helpers.py.
use ctfd_challenge_container.Prelude.{
  ℕ, Bool, not, ◌||◌, ◌==◌, String, Option, none, some, if◌then◌else◌,
}
use ctfd_challenge_container.Schema.{ContainerInfo, Instance, Db, is_cleanup_pending}
use ctfd_challenge_container.Coordination.{Error, Result, ok, err, find_instance}
use ctfd_challenge_container.Coordination.Reserve.{truthy}
use ctfd_challenge_container.Requests.{
  Challenge, Request, Answer, Body, plain, refused, entry_container, info_endpoint, info_response,
}
use ctfd_challenge_container.Requests.Cleanup.{Cleaning, kill_container}
use ctfd_challenge_container.Requests.Errors.{ErrorKind}
use ctfd_challenge_container.Requests.Renew.{Probe}
use ctfd_challenge_container.Requests.Messages.{
  challenge_not_found, awaiting_cleanup, host_unreachable, cleanup_pending, challenge_misconfigured,
  challenge_unavailable,
}

abbrev number_missing : Option ℕ → Bool
number_missing none = Bool.true
number_missing (some n) = n == 0

unfoldable pub check_misconfigured : Bool → Challenge → Option Body
check_misconfigured has_contexts challenge =
    if not (truthy challenge.image) || number_missing challenge.port
    then some (Body.notice "misconfigured" (some challenge_misconfigured) none)
    else if not has_contexts
    then some (Body.notice "misconfigured" (some challenge_unavailable) none)
    else none

abbrev not_started : Body
not_started = Body.notice "instance not started" none none

unfoldable pub not_started_answer : Bool → Challenge → Answer
not_started_answer has_contexts challenge = elim (check_misconfigured has_contexts challenge) [
  | some body ↦ plain body
  | none ↦ plain not_started
]

unfoldable pub connection_answer : Request → Db → String → Challenge → ContainerInfo → Result Answer
connection_answer request db status challenge info =
    elim (info_response request db status challenge info (info_endpoint info none)
      info.docker_context) [ err e ↦ err e | ok response ↦ ok (plain (Body.connection response)) ]

unfoldable pub unreachable_answer : Request → Db → Challenge → ContainerInfo → Result Answer
unreachable_answer request db challenge info =
    elim (info_response request db "host_unavailable" challenge info (info_endpoint info none)
      info.docker_context) [
        | err e ↦ err e
        | ok response ↦ ok (plain (Body.unreachable response host_unreachable))
      ]

-- The answer after `kill_container`, from its body.
unfoldable pub after_kill : Body → Answer
after_kill (Body.success text) = plain not_started
after_kill (Body.error body) = refused 503 body.error ErrorKind.transient
after_kill _ = refused 503 cleanup_pending ErrorKind.transient

unfoldable pub view_stopped : ContainerInfo → Cleaning → Db → Result Answer × Db
view_stopped info cleaning db =
    let (result, db') = kill_container info.container_id cleaning db in
    elim result [ err e ↦ (err e, db') | ok body ↦ (ok (after_kill body), db') ]

unfoldable pub view_entry :
    Request → Challenge → ContainerInfo → Instance → Probe → Cleaning → Db → Result Answer × Db
view_entry request challenge info row probe cleaning db =
    if is_cleanup_pending row.state
    then (
      ok (record {
        status = 503;
        retry_after = none;
        body = Body.notice "cleanup_pending" (some awaiting_cleanup) (some ErrorKind.transient);
      }),
      db,
    )
    else elim probe [
      | Probe.raises ↦ (unreachable_answer request db challenge info, db)
      | Probe.answers running ↦
          let stopped = view_stopped info cleaning db in
          if running
          then (connection_answer request db "already_running" challenge info, db)
          else stopped
    ]

unfoldable pub view_container_info :
    Request → Bool → Option Challenge → ℕ → Bool → Probe → Cleaning → Db → Result Answer × Db
view_container_info request has_contexts none xid is_team probe cleaning db =
    (ok (refused 400 challenge_not_found ErrorKind.permanent), db)
view_container_info request has_contexts (some challenge) xid is_team probe cleaning db =
    elim (entry_container challenge.id xid is_team db.infos) [
      | none ↦ (ok (not_started_answer has_contexts challenge), db)
      | some info ↦ elim (find_instance info.instance_id db.instances) [
        | none ↦ (err Error.attribute_error, db)
        | some row ↦ view_entry request challenge info row probe cleaning db
      ]
    ]
