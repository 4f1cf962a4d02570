-- ===== src/Hosts.antt =====
-- src/orchestrator.py: the health of the Docker contexts, in the table that all workers share and in
-- the memory of one worker. A probe (`time.time()` and `ping`) and the clock are arguments; the weight
-- and the count of a context stand for its score weight / (count + 1).
pub mod Order
mod Tests
use ctfd_challenge_container.Prelude.{
  ℕ, zero, suc, ◌+◌, Bool, true, false, not, ◌&&◌, ◌||◌, String, Option, none, some, List, [], ◌∷◌,
  ◌++◌, map, select, find, ◌==◌, ltb, str_eq, if◌then◌else◌,
}
use ctfd_challenge_container.Schema.{
  DockerContext, HealthState, unknown, healthy, unhealthy, Instance, is_active, is_healthy,
}
use ctfd_challenge_container.Table.{update_where, count_where, by_key}
use ctfd_challenge_container.Coordination.Lifecycle.Cleanup.{clip}
use ctfd_challenge_container.Coordination.Reserve.Ranking.{placement_count, name_le}

-- A dict of a worker, with the entry that was written last first.
abbrev pub lookup {ℓ} : {A : Type ℓ} → String → List (String × A) → Option A
lookup name [] = none
lookup name (e ∷ entries) = if str_eq e.0 name then some e.1 else lookup name entries

-- The shared rows of `docker_contexts`, and what the worker keeps.
pub record Hosts : Type 0 where
  pub contexts : List DockerContext
  pub container_counts : List (String × ℕ)
  pub health : List (String × Bool)
  pub weights : List (String × ℕ)

pub data EventType : Type 0 where
  host_healthy host_unhealthy : EventType

pub record HealthEvent : Type 0 where
  pub event_type : EventType
  pub context_name : String

-- The start of a probe and what `ping` answered.
pub record Probe : Type 0 where
  pub context_name : String
  pub started : ℕ
  pub reachable : Bool

abbrev pub by_name : String → List DockerContext → Option DockerContext
by_name name contexts = by_key (λ c. c.context_name) name contexts

-- `_refresh_db_counts`
unfoldable pub refresh_db_counts : List Instance → Hosts → Hosts
refresh_db_counts instances hosts = record hosts {
  container_counts = map (λ c. (c.context_name, placement_count instances c.id)) hosts.contexts;
  weights = map (λ c. (c.context_name, c.weight)) hosts.contexts;
  health =
      map (λ c. (c.context_name, is_healthy c.health_state))
        (select (λ c. is_active c.state) hosts.contexts);
}

abbrev pub is_unhealthy : HealthState → Bool
is_unhealthy HealthState.unhealthy = true
is_unhealthy _ = false

-- `mark_unhealthy`
unfoldable pub mark_unhealthy : String → String → ℕ → Hosts → List HealthEvent × Hosts
mark_unhealthy name reason now hosts =
    let contexts : List DockerContext = elim (by_name name hosts.contexts) [
      | none ↦ hosts.contexts
      | some context ↦
          update_where (λ c. c.id == context.id)
            (λ c. record c {
              health_state = HealthState.unhealthy;
              health_checked_at = some now;
              health_error = some (clip 512 reason);
            })
            hosts.contexts
    ] in
    let health : List (String × Bool) = elim (lookup name hosts.health) [
      | none ↦ hosts.health
      | some known ↦ (name, false) ∷ hosts.health
    ] in
    (
      record { event_type = EventType.host_unhealthy; context_name = name } ∷ [],
      record hosts { contexts = contexts; health = health },
    )

-- `mark_healthy`
unfoldable pub mark_healthy : String → ℕ → Hosts → List HealthEvent × Hosts
mark_healthy name now hosts =
    let event : HealthEvent = record { event_type = EventType.host_healthy; context_name = name } in
    elim (by_name name hosts.contexts) [
      | none ↦ (event ∷ [], hosts)
      | some context ↦ (
        event ∷ [],
        record hosts {
          contexts =
              update_where (λ c. c.id == context.id)
                (λ c. record c {
                  health_state = HealthState.healthy;
                  health_checked_at = some now;
                  health_error = none;
                })
                hosts.contexts;
          health = if is_active context.state then (name, true) ∷ hosts.health else hosts.health;
        },
      )
    ]

-- The condition of the UPDATE: no newer result has been written.
unfoldable pub is_newer : ℕ → Option ℕ → Bool
is_newer started none = true
is_newer started (some checked) = ltb checked started

-- What the UPDATE writes.
unfoldable pub checked : Probe → DockerContext → DockerContext
checked probe c = record c {
  health_state = if probe.reachable then HealthState.healthy else HealthState.unhealthy;
  health_checked_at = some probe.started;
  health_error = if probe.reachable then none else some "connection failed";
}

abbrev pub replaces : Probe → ℕ → DockerContext → Bool
replaces probe id c = c.id == id && is_newer probe.started c.health_checked_at

-- The event of a result that changes the state.
unfoldable pub change_event : Probe → HealthState → List HealthEvent
change_event probe previous =
    if probe.reachable && not (is_healthy previous)
    then record { event_type = EventType.host_healthy; context_name = probe.context_name } ∷ []
    else if not probe.reachable && not (is_unhealthy previous)
    then record { event_type = EventType.host_unhealthy; context_name = probe.context_name } ∷ []
    else []

-- The loop of `health_check` at one context.
unfoldable pub check_context : Probe → Hosts → List HealthEvent × Hosts
check_context probe hosts = elim (by_name probe.context_name hosts.contexts) [
  | none ↦ ([], hosts)
  | some context ↦
      let contexts = update_where (replaces probe context.id) (checked probe) hosts.contexts in
      if count_where (replaces probe context.id) hosts.contexts == 1
      then (
        change_event probe context.health_state,
        record hosts {
          contexts = contexts;
          health =
              if is_active context.state
              then (probe.context_name, probe.reachable) ∷ hosts.health
              else hosts.health;
        },
      )
      else ([], record hosts { contexts = contexts })
]

-- `health_check`, with one probe for each configured context.
unfoldable pub health_check : List Probe → Hosts → List HealthEvent × Hosts
health_check [] hosts = ([], hosts)
health_check (probe ∷ probes) hosts =
    let first = check_context probe hosts in
    let rest = health_check probes first.1 in (first.0 ++ rest.0, rest.1)

pub record HostStatus : Type 0 where
  pub context_name : String
  pub pub_hostname : Option String
  pub active_containers : ℕ
  pub healthy : Bool
  pub weight : ℕ

unfoldable pub insert_by_name : DockerContext → List DockerContext → List DockerContext
insert_by_name c [] = c ∷ []
insert_by_name c (d ∷ contexts) =
    let rest = insert_by_name c contexts in
    if name_le c.context_name d.context_name then c ∷ d ∷ contexts else d ∷ rest

unfoldable pub sort_by_name : List DockerContext → List DockerContext
sort_by_name [] = []
sort_by_name (c ∷ contexts) = insert_by_name c (sort_by_name contexts)

-- `self.container_counts.get(name, 0)`
unfoldable pub count_of : String → List (String × ℕ) → ℕ
count_of name counts = elim (lookup name counts) [ none ↦ 0 | some n ↦ n ]

unfoldable pub status_of : (String → Option String) → List (String × ℕ) → DockerContext → HostStatus
status_of hostnames counts c = record {
  context_name = c.context_name;
  pub_hostname = hostnames c.context_name;
  active_containers = count_of c.context_name counts;
  healthy = is_active c.state && is_healthy c.health_state;
  weight = if c.weight == 0 then 1 else c.weight;
}

-- `get_status`; `hostnames` is `host_manager.get_pub_hostname`.
unfoldable pub get_status :
    (String → Option String) → List Instance → Hosts → List HostStatus × Hosts
get_status hostnames instances hosts =
    let refreshed = refresh_db_counts instances hosts in
    (
      map (status_of hostnames refreshed.container_counts) (sort_by_name refreshed.contexts),
      refreshed,
    )
