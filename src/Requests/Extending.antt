-- ===== src/Requests/Extending.antt =====
-- What the answer of `renew_container` says about the database.
use ctfd_challenge_container.Prelude.{
  ℕ, ◌+◌, ◌≤◌, Bool, true, ◌≡◌, ◌≢◌, refl, ◌∙◌, arith, inl, inr, Option, none, some, Bool-cases,
  Option-cases, leb, is_some, str_eq,
}
use ctfd_challenge_container.Schema.{ContainerInfo, Instance, Db, is_running}
use ctfd_challenge_container.Coordination.{
  ok, Result-cases, LifecycleUpdate, lifecycle_of, find_instance, get_lifecycle,
}
use ctfd_challenge_container.Coordination.Lifecycle.Expiry.{renew, renewed}
use ctfd_challenge_container.Coordination.Steps.{run}
use ctfd_challenge_container.Coordination.Invariant.Uniqueness.{IsUnique, run-IsUnique}
use ctfd_challenge_container.Coordination.Renewal.{may_renew, renew_row}
use ctfd_challenge_container.Requests.{
  Challenge, Request, Answer, Body, Connection, entry_container, info_response,
  resolve_max_renewals, resolve_expiration, build_connection_response,
}
use ctfd_challenge_container.Requests.Cleanup.{kill_container}
use ctfd_challenge_container.Requests.Renew.{
  Probe-cases, Renewing, refuse_renewal, renewal_response, renew_running, renew_container,
}

-- An instance that a renewal has extended, and that the answer reports.
pub record Extends (request : Request) (challenge : Challenge) (now : ℕ) (c : Connection)
    (info : ContainerInfo) (db : Db) : Type 0 where
  pub row : Instance
  pub row_found : find_instance info.instance_id db.instances ≡ some row
  pub row_runs : is_running row.state ≡ true
  pub extended : row.expires ≡ now + resolve_expiration request.settings challenge
  pub limited : row.renewals_used ≤ resolve_max_renewals request.settings challenge
  pub expiry_reported : c.expires ≡ row.expires
  pub count_reported : c.renewals_used ≡ row.renewals_used

renewal_response-reports :
    (request : Request) (challenge : Challenge) (info : ContainerInfo) (update : LifecycleUpdate)
    (db : Db) (a : Answer) (c : Connection)
    → renewal_response request challenge info update db ≡ ok a
    → a.body ≡ Body.renewed c
    → (c.expires ≡ update.expires) × (c.renewals_used ≡ update.renewals_used)
unfolding renewal_response info_response build_connection_response
renewal_response-reports request challenge info update db a c e b =
    elim (Bool-cases (str_eq challenge.ctype "ssh")) [
      | inr other ↦ (ground arith, ground arith)
      | inl ssh ↦ elim (Option-cases (find_instance info.instance_id db.instances)) [
        | inl f ↦ absurd (ground arith)
        | inr (row, f) ↦ (ground arith, ground arith)
      ]
    ]

refuse_renewal-refuses :
    (now : ℕ) (lifecycle : Option LifecycleUpdate) (c : Connection)
    → (refuse_renewal now lifecycle).body ≢ Body.renewed c
unfolding refuse_renewal
refuse_renewal-refuses now none c e = ground arith
refuse_renewal-refuses now (some l) c e = elim (Bool-cases (is_some l.solved_at)) [
  | inl s ↦ ground arith
  | inr s ↦ elim (Bool-cases (leb l.expires now)) [ inl t ↦ ground arith | inr t ↦ ground arith ]
]

renew_running-Extends :
    (request : Request) (challenge : Challenge) (info : ContainerInfo) (renewing : Renewing)
    (db : Db) (a : Answer) (c : Connection)
    → IsUnique db
    → (renew_running request challenge info renewing db).0 ≡ ok a
    → a.body ≡ Body.renewed c
    → Extends request challenge renewing.now c info
        (renew_running request challenge info renewing db).1
unfolding renew_running refuse_renewal
renew_running-Extends request challenge info renewing db a c unique e b =
    let limit = resolve_max_renewals request.settings challenge in
    let new_expires = renewing.now + resolve_expiration request.settings challenge in
    let (said, left) =
      renew_row info.instance_id renewing.now new_expires limit renewing.clock db unique in
    elim (Bool-cases (leb limit info.renewals_used)) [
      | inl over ↦ absurd (ground arith)
      | inr under ↦
          elim (Result-cases
            (renew info.instance_id renewing.now new_expires limit renewing.clock db).0) [
              | inr (x, f) ↦ absurd (ground arith)
              | inl (none, f) ↦
                  let db' =
                    (renew info.instance_id renewing.now new_expires limit renewing.clock db).1 in
                  let there = get_lifecycle info.instance_id db' in
                  let refused : ok (refuse_renewal renewing.now there) ≡ ok a =
                    rw (renew_running, under, f) at e in
                  absurd (refuse_renewal-refuses renewing.now there c (ground (arith, refused)))
              | inl (some update, f) ↦
                  elim (Option-cases (find_instance info.instance_id db.instances)) [
                    | inl g ↦ absurd (ground (arith, said))
                    | inr (row, g) ↦ elim (Bool-cases (may_renew renewing.now limit row)) [
                      | inr t ↦ absurd (ground (arith, said))
                      | inl t ↦
                          let db' =
                            (renew info.instance_id renewing.now new_expires limit renewing.clock
                              db).1 in
                          let same : update
                              ≡ lifecycle_of (renewed new_expires renewing.clock row) =
                            ground (arith, said) in
                          let there : find_instance info.instance_id db'.instances
                              ≡ some (renewed new_expires renewing.clock row) =
                            ground (arith, left) in
                          let (late, count) =
                            renewal_response-reports request challenge info update db' a c
                              (rw (renew_running, under, f) at e) b in
                          rw (renew_running, under, f)
                            (record {
                              row = renewed new_expires renewing.clock row;
                              row_found = there;
                              row_runs = ground arith;
                              extended = refl;
                              limited = ground arith;
                              expiry_reported = late ∙ rw same refl;
                              count_reported = count ∙ rw same refl;
                            })
                    ]
                  ]
            ]
    ]

-- A renewal that is answered as such has happened: in a database that meets its unique constraints, and
-- whatever other workers commit before the UPDATE, the owner's entry container for the challenge was
-- found, its instance now runs until the time of the request plus the expiration of the challenge,
-- with no more renewals than the challenge allows, and the answer reports both numbers.
pub renew_container-Extends :
    (request : Request) (challenge : Challenge) (xid : ℕ) (is_team : Bool) (renewing : Renewing)
    (db : Db) (a : Answer) (c : Connection)
    → IsUnique db
    → (renew_container request (some challenge) xid is_team renewing db).0 ≡ ok a
    → a.body ≡ Body.renewed c
    → (info : ContainerInfo) × (entry_container challenge.id xid is_team db.infos ≡ some info)
      × Extends request challenge renewing.now c info
          (renew_container request (some challenge) xid is_team renewing db).1
unfolding renew_container
renew_container-Extends request challenge xid is_team renewing db a c unique e b =
    elim (Option-cases (entry_container challenge.id xid is_team db.infos)) [
      | inl f ↦ absurd (ground arith)
      | inr (info, f) ↦ elim (Probe-cases renewing.probe) [
        | inl p ↦ absurd (ground arith)
        | inr (inl p) ↦ (
          info,
          f,
          rw (renew_container, f, p)
              (renew_running-Extends request challenge info renewing (run renewing.meanwhile db) a c
                (run-IsUnique renewing.meanwhile db unique) (rw (renew_container, f, p) at e) b),
        )
        | inr (inr p) ↦
            elim (Result-cases (kill_container info.container_id renewing.cleaning db).0) [
              | inr (x, g) ↦ absurd (ground arith)
              | inl (body, g) ↦ absurd (ground arith)
            ]
      ]
    ]
