-- ===== src/Events/Tests.antt =====
-- The property of the log at a concrete history.
use ctfd_challenge_container.Prelude.{true, false, ◌≡◌, arith, some, List, [], ◌∷◌}
use ctfd_challenge_container.Events.{Step, logs, receives, listens, get_recent_events, run}
use ctfd_challenge_container.Events.Recent.{all_events, last, new_log, get_recent_events-last}

abbrev steps : List Step
steps =
    listens 1
    ∷ logs "created" "container created" (λ l. true)
    ∷ receives
        (record {
          is_message = true;
          payload = some (
            "other",
            record { worker = "other"; number = 1; event_type = "killed"; message = "killed" },
          );
        })
        (λ l. false)
    ∷ logs "renewed" "container renewed" (λ l. false)
    ∷ []

get_recent_events-last_example :
    get_recent_events 2 (run "here" steps (new_log 2)) ≡ last 2 (all_events "here" 1 steps)
get_recent_events-last_example = get_recent_events-last "here" 2 2 steps (omega arith)
