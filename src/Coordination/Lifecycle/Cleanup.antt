-- ===== src/Coordination/Lifecycle/Cleanup.antt =====
-- `mark_cleanup_pending`, `claim_operation`, `release_operation` and `delete_after_confirmed_cleanup`.
-- An UPDATE that matches no row is committed as well, and changes nothing.
use ctfd_challenge_container.Prelude.{
  ℕ, zero, suc, ◌+◌, Bool, true, false, not, ◌&&◌, ◌||◌, String, Option, none, some, List,
  if◌then◌else◌, ◌==◌, ltb, str_eq, sql_eq, find, any, is_none, is_empty,
}
use ctfd_challenge_container.Schema.{
  Instance, InstanceState, History, Reason, Db, is_provisioning, is_running, is_cleanup_pending,
  seconds,
}
use ctfd_challenge_container.Table.{update_where, count_where, delete_where}
use ctfd_challenge_container.Coordination.{Error, Result, ok, err}

-- `str(error)[:512]`
abbrev pub clip : ℕ → String → String
clip zero s = String.[]
clip (suc n) String.[] = String.[]
clip (suc n) (String.◌∷◌ c s) = String.◌∷◌ c (clip n s)

abbrev pub state_eq : InstanceState → InstanceState → Bool
state_eq InstanceState.provisioning s = is_provisioning s
state_eq InstanceState.running s = is_running s
state_eq InstanceState.cleanup_pending s = is_cleanup_pending s

-- One UPDATE of `container_instances`, and whether it changed exactly one row.
unfoldable pub update_instance : (Instance → Bool) → (Instance → Instance) → Db → Bool × Db
update_instance test change db = (
  count_where test db.instances == 1,
  record db { instances = update_where test change db.instances },
)

abbrev pub is_abandoned : String → String → Instance → Bool
is_abandoned id token r =
    str_eq r.id id && (str_eq r.provision_token token && is_provisioning r.state)

abbrev pub abandoned : String → ℕ → Instance → Instance
abandoned error now r = record r {
  state = InstanceState.cleanup_pending;
  state_version = suc r.state_version;
  updated_at = now;
  last_error = some (clip 512 error);
}

unfoldable pub mark_cleanup_pending : String → String → String → ℕ → Db → Bool × Db
mark_cleanup_pending id token error now =
    update_instance (is_abandoned id token) (abandoned error now)

-- The arguments of one call of `claim_operation`; `target_state` is a name that is compared.
pub record Claim : Type 0 where
  pub instance_id : String
  pub expected_states : List InstanceState
  pub target_state : InstanceState
  pub stale_after_seconds : ℕ
  pub expected_state_version : Option ℕ
  pub maintenance_cutoff : Option ℕ
  pub reconcile_safety_age_seconds : Option ℕ

-- The row is due for maintenance. `cutoff - age` may be negative, so the age stands on the left.
abbrev pub is_due : ℕ → ℕ → Instance → Bool
is_due cutoff age r =
    (is_running r.state && ltb r.expires cutoff)
    || (is_cleanup_pending r.state && ltb (r.updated_at + seconds age) (seconds cutoff))
    || (is_provisioning r.state && elim r.provision_deadline [
      | none ↦ false
      | some deadline ↦ ltb (deadline + seconds age) (seconds cutoff)
    ])

abbrev positive_age : Option ℕ → Option ℕ → Bool
positive_age (some version) (some (suc age)) = true
positive_age _ _ = false

unfoldable pub claim_args_valid : Claim → Bool
claim_args_valid c =
    not (is_empty c.expected_states)
    && is_cleanup_pending c.target_state
    && ltb 0 c.stale_after_seconds
    && elim c.maintenance_cutoff [
      | none ↦ true
      | some cutoff ↦ positive_age c.expected_state_version c.reconcile_safety_age_seconds
    ]

abbrev pub is_maintainable : Option ℕ → Option ℕ → Instance → Bool
is_maintainable none age r = true
is_maintainable (some cutoff) none r = true
is_maintainable (some cutoff) (some age) r = is_due cutoff age r

abbrev pub version_matches : Option ℕ → ℕ → Bool
version_matches none version = true
version_matches (some expected) version = version == expected

-- No operation holds the row, or its lease ran out.
abbrev pub lease_free : ℕ → ℕ → Instance → Bool
lease_free now stale r = is_none r.operation_token || ltb (r.updated_at + seconds stale) now

abbrev pub is_claimable : Claim → ℕ → Instance → Bool
is_claimable c now r =
    str_eq r.id c.instance_id
    && (any (λ s. state_eq s r.state) c.expected_states
        && version_matches c.expected_state_version r.state_version
        && is_maintainable c.maintenance_cutoff c.reconcile_safety_age_seconds r
        && lease_free now c.stale_after_seconds r)

abbrev pub claimed : Claim → String → ℕ → Instance → Instance
claimed c token now r = record r {
  state = c.target_state;
  state_version = suc r.state_version;
  operation_token = some token;
  updated_at = now;
}

unfoldable pub claim_operation : Claim → String → ℕ → Db → Result (Option String) × Db
claim_operation c token now db =
    if not (claim_args_valid c)
    then (err Error.value_error, db)
    else let (updated, db') = update_instance (is_claimable c now) (claimed c token now) db in
      (ok (if updated then some token else none), db')

abbrev pub is_held : String → String → Instance → Bool
is_held id token r =
    str_eq r.id id && (sql_eq str_eq r.operation_token (some token) && is_cleanup_pending r.state)

abbrev clip_option : Option String → Option String
clip_option none = none
clip_option (some error) = if str_eq error "" then none else some (clip 512 error)

abbrev pub released : Option String → ℕ → Instance → Instance
released error now r = record r {
  operation_token = none;
  updated_at = now;
  last_error = clip_option error;
}

unfoldable pub release_operation : String → String → Option String → ℕ → Db → Bool × Db
release_operation id token error now = update_instance (is_held id token) (released error now)

-- The arguments of one call of `delete_after_confirmed_cleanup`.
pub record Deletion : Type 0 where
  pub instance_id : String
  pub provision_token : Option String
  pub operation_token : Option String
  pub reason : Option Reason
  pub stopped_at : Option ℕ

abbrev pub token_matches : Option String → Option String → Bool
token_matches none column = true
token_matches (some token) column = sql_eq str_eq column (some token)

abbrev pub tokens_match : Deletion → Instance → Bool
tokens_match d r =
    token_matches d.provision_token (some r.provision_token)
    && token_matches d.operation_token r.operation_token

abbrev pub is_deletable : Deletion → Instance → Bool
is_deletable d r = str_eq r.id d.instance_id && tokens_match d r

-- `stopped_at or time.time()`
abbrev or_now : Option ℕ → ℕ → ℕ
or_now none now = now
or_now (some zero) now = now
or_now (some t) now = t

abbrev keep_reason : Option Reason → Reason → Option Reason
keep_reason none reason = some reason
keep_reason (some old) reason = some old

abbrev pub closed : Deletion → ℕ → List History → List History
closed d now history = elim d.reason [
  | none ↦ history
  | some reason ↦
      update_where (λ h. str_eq h.instance_id d.instance_id)
        (λ h. record h {
          stopped_at = some (or_now d.stopped_at now);
          reason = keep_reason h.reason reason;
        })
        history
]

unfoldable pub delete_after_confirmed_cleanup : Deletion → ℕ → Db → Result Bool × Db
delete_after_confirmed_cleanup d now db =
    if is_none d.provision_token && is_none d.operation_token
    then (err Error.value_error, db)
    else elim (find (is_deletable d) db.instances) [
      | none ↦ (ok false, db)
      | some r ↦ (
        ok (count_where (is_deletable d) db.instances == 1),
        record db {
          instances = delete_where (is_deletable d) db.instances;
          infos = delete_where (λ i. str_eq i.instance_id d.instance_id) db.infos;
          history = closed d now db.history;
        },
      )
    ]
