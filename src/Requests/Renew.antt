-- ===== src/Requests/Renew.antt =====
-- `renew_container` of src/views/helpers.py.
use ctfd_challenge_container.Prelude.{
  ℕ, ◌+◌, Bool, true, false, Option, none, some, List, if◌then◌else◌, leb, is_some, ◌≡◌, refl, ◌⊎◌,
  inl, inr,
}
use ctfd_challenge_container.Schema.{ContainerInfo, Db}
use ctfd_challenge_container.Coordination.{Result, ok, err, LifecycleUpdate, get_lifecycle}
use ctfd_challenge_container.Coordination.Lifecycle.Expiry.{renew}
use ctfd_challenge_container.Coordination.Steps.{Op, run}
use ctfd_challenge_container.Requests.{
  Challenge, Request, Answer, Body, plain, refused, entry_container, info_endpoint, info_response,
  resolve_max_renewals, resolve_expiration,
}
use ctfd_challenge_container.Requests.Cleanup.{Cleaning, kill_container}
use ctfd_challenge_container.Requests.Errors.{ErrorKind}
use ctfd_challenge_container.Requests.Messages.{
  challenge_not_found, container_not_found_reset, host_unreachable, no_renewals, solved_no_renew,
  expired_no_renew,
}

-- `is_container_running`: it answers, or raises a ContainerException.
pub data Probe : Type 0 where
  answers : Bool → Probe
  raises : Probe

pub Probe-cases :
    (probe : Probe) → (probe ≡ raises) ⊎ ((probe ≡ answers true) ⊎ (probe ≡ answers false))
Probe-cases raises = inl refl
Probe-cases (answers true) = inr (inl refl)
Probe-cases (answers false) = inr (inr refl)

-- The outside of one renewal: Docker's probe and the cleanup that may follow it, what other workers
-- commit meanwhile, `int(time.time())` and the clock of the UPDATE.
pub record Renewing : Type 0 where
  pub probe : Probe
  pub cleaning : Cleaning
  pub meanwhile : List Op
  pub now : ℕ
  pub clock : ℕ

-- The answer where `InstanceCoordinator.renew` gave None.
unfoldable pub refuse_renewal : ℕ → Option LifecycleUpdate → Answer
refuse_renewal now none = refused 400 no_renewals ErrorKind.user
refuse_renewal now (some lifecycle) =
    if is_some lifecycle.solved_at
    then refused 400 solved_no_renew ErrorKind.user
    else if leb lifecycle.expires now
    then refused 400 expired_no_renew ErrorKind.user
    else refused 400 no_renewals ErrorKind.user

unfoldable pub renewal_response :
    Request → Challenge → ContainerInfo → LifecycleUpdate → Db → Result Answer
renewal_response request challenge info update db =
    elim (info_response request db "success" challenge info
      (record (info_endpoint info none) {
        expires = update.expires;
        renewals_used = update.renewals_used;
      })
      info.docker_context) [ err e ↦ err e | ok response ↦ ok (plain (Body.renewed response)) ]

-- For a container that Docker says runs.
unfoldable pub renew_running :
    Request → Challenge → ContainerInfo → Renewing → Db → Result Answer × Db
renew_running request challenge info renewing db =
    let limit = resolve_max_renewals request.settings challenge in
    let new_expires = renewing.now + resolve_expiration request.settings challenge in
    if leb limit info.renewals_used
    then (ok (refused 400 no_renewals ErrorKind.user), db)
    else let (result, db') =
        renew info.instance_id renewing.now new_expires limit renewing.clock db in
      elim result [
        | err e ↦ (err e, db')
        | ok none ↦ (ok (refuse_renewal renewing.now (get_lifecycle info.instance_id db')), db')
        | ok (some update) ↦ (renewal_response request challenge info update db', db')
      ]

unfoldable pub renew_container :
    Request → Option Challenge → ℕ → Bool → Renewing → Db → Result Answer × Db
renew_container request none xid is_team renewing db =
    (ok (refused 400 challenge_not_found ErrorKind.permanent), db)
renew_container request (some challenge) xid is_team renewing db =
    elim (entry_container challenge.id xid is_team db.infos) [
      | none ↦ (ok (refused 400 container_not_found_reset ErrorKind.user), db)
      | some info ↦ elim renewing.probe [
        | raises ↦ (ok (refused 503 host_unreachable ErrorKind.transient), db)
        | answers running ↦
            let (killed, db') = kill_container info.container_id renewing.cleaning db in
            if running
            then renew_running request challenge info renewing (run renewing.meanwhile db)
            else elim killed [
              | err e ↦ (err e, db')
              | ok body ↦ (ok (refused 400 container_not_found_reset ErrorKind.user), db')
            ]
      ]
    ]
