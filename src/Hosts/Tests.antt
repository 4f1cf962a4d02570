-- ===== src/Hosts/Tests.antt =====
-- The property of the health checks at concrete probes.
use mathlib.Core.List.{Permᴰ}
use ctfd_challenge_container.Prelude.{true, false, ◌≡◌, refl, none, [], ◌∷◌, arith}
use ctfd_challenge_container.Schema.{DockerContext, HealthState, ContextState}
use ctfd_challenge_container.Table.{update_where, count_where}
use ctfd_challenge_container.Hosts.{
  Hosts, Probe, is_newer, checked, change_event, check_context, health_check,
}
use ctfd_challenge_container.Hosts.Order.{health_check_order}

abbrev east : DockerContext
east = record {
  id = 1;
  context_name = "east";
  hostname = none;
  pub_hostname = "east.example";
  weight = 1;
  state = ContextState.active;
  placement_version = 0;
  health_state = HealthState.unknown;
  health_checked_at = none;
  health_error = none;
}

abbrev hosts : Hosts
hosts = record {
  contexts = east ∷ [];
  container_counts = [];
  health = ("east", false) ∷ [];
  weights = [];
}

-- A probe that began first and answered, and one that began later and failed.
abbrev answered : Probe
answered = record { context_name = "east"; started = 5; reachable = true }

abbrev failed : Probe
failed = record { context_name = "east"; started = 9; reachable = false }

late_answer :
    (health_check (failed ∷ answered ∷ []) hosts).1.health ≡ ("east", false) ∷ hosts.health
unfolding health_check check_context update_where count_where is_newer checked change_event
late_answer = refl

health_check_order_example :
    (health_check (answered ∷ failed ∷ []) hosts).1.contexts
    ≡ (health_check (failed ∷ answered ∷ []) (record hosts { health = [] })).1.contexts
health_check_order_example =
    health_check_order (answered ∷ failed ∷ []) (failed ∷ answered ∷ []) hosts
      (record hosts { health = [] }) refl (Permᴰ.swap refl refl)
      (
        ((λ h. refl), ((λ h. absurd (omega arith)), tt)),
        (((λ h. absurd (omega arith)), ((λ h. refl), tt)), tt),
      )
