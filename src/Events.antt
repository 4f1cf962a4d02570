-- ===== src/Events.antt =====
-- src/event_logger.py and the dispatch of src/event_bus.py: the log of events that each worker keeps, its
-- listeners, and what it takes from the other workers.
pub mod Recent
mod Tests
use ctfd_challenge_container.Prelude.{
  ℕ, zero, suc, ◌-◌, Bool, true, false, not, String, Option, none, some, List, [], ◌∷◌, ◌++◌,
  length, leb, ltb, any, str_eq, ◌==◌, if◌then◌else◌,
}

-- An event with its id (the worker and a number) and what is said of it.
pub record Event : Type 0 where
  pub worker : String
  pub number : ℕ
  pub event_type : String
  pub message : String

-- A listener is known by a number.
pub record EventLog : Type 0 where
  pub max_events : ℕ
  pub events : List Event
  pub listeners : List ℕ
  pub next_id : ℕ

unfoldable pub drop {ℓ} : {A : Type ℓ} → ℕ → List A → List A
drop zero xs = xs
drop (suc n) [] = []
drop (suc n) (x ∷ xs) = drop n xs

-- `deque.append` with a maxlen: the oldest are dropped.
unfoldable pub append_event : ℕ → List Event → Event → List Event
append_event max_events events event =
    let grown = events ++ (event ∷ []) in drop (length grown - max_events) grown

unfoldable pub remove_first : ℕ → List ℕ → List ℕ
remove_first listener [] = []
remove_first listener (l ∷ ls) = elim (l == listener) [
  | true ↦ ls
  | false ↦ l ∷ remove_first listener ls
]

-- The listeners whose call raised are removed, each once.
unfoldable pub remove_failed : (ℕ → Bool) → List ℕ → List ℕ → List ℕ
remove_failed raises [] listeners = listeners
remove_failed raises (l ∷ called) listeners =
    remove_failed raises called (if raises l then remove_first l listeners else listeners)

-- `_deliver_local`; `raises` says which listeners raise on the event.
unfoldable pub deliver_local : (ℕ → Bool) → Event → EventLog → EventLog
deliver_local raises event log = record log {
  events = append_event log.max_events log.events event;
  listeners = remove_failed raises log.listeners log.listeners;
}

-- `log_event`, without the publication to the other workers.
unfoldable pub log_event : String → String → String → (ℕ → Bool) → EventLog → Event × EventLog
log_event worker event_type message raises log =
    let event : Event = record {
      worker = worker;
      number = log.next_id;
      event_type = event_type;
      message = message;
    } in
    (event, deliver_local raises event (record log { next_id = suc log.next_id }))

-- `events_list[-limit:] if limit else events_list`
unfoldable pub get_recent_events : ℕ → EventLog → List Event
get_recent_events limit log =
    if limit == 0 then log.events else drop (length log.events - limit) log.events

unfoldable pub add_listener : ℕ → EventLog → EventLog
add_listener callback log = record log { listeners = log.listeners ++ (callback ∷ []) }

unfoldable pub remove_listener : ℕ → EventLog → EventLog
remove_listener callback log = record log { listeners = remove_first callback log.listeners }

-- A message of the channel: whether its type is "message", and its event with `_origin`, if
-- `json.loads` reads it.
pub record Message : Type 0 where
  pub is_message : Bool
  pub payload : Option (String × Event)

-- `_dispatch_message` with `_deliver_local` as its callback.
unfoldable pub dispatch_message : String → (ℕ → Bool) → Message → EventLog → EventLog
dispatch_message worker raises message log =
    if message.is_message
    then elim message.payload [
      | none ↦ log
      | some (origin, event) ↦ if str_eq origin worker then log else deliver_local raises event log
    ]
    else log

-- What happens to the log of a worker.
pub data Step : Type 0 where
  logs : String → String → (ℕ → Bool) → Step
  receives : Message → (ℕ → Bool) → Step
  listens : ℕ → Step
  leaves : ℕ → Step

unfoldable pub perform : String → Step → EventLog → EventLog
perform worker (logs event_type message raises) log =
    (log_event worker event_type message raises log).1
perform worker (receives message raises) log = dispatch_message worker raises message log
perform worker (listens callback) log = add_listener callback log
perform worker (leaves callback) log = remove_listener callback log

unfoldable pub run : String → List Step → EventLog → EventLog
run worker [] log = log
run worker (step ∷ steps) log = run worker steps (perform worker step log)
