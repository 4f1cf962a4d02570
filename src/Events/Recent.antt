-- ===== src/Events/Recent.antt =====
-- The log keeps the last events of all that it was given.
use ctfd_challenge_container.Prelude.{
  ℕ, zero, suc, ◌+◌, ◌-◌, ◌≤◌, Bool, ◌≡◌, refl, ap, sym, ◌∙◌, arith, inl, inr, String, none, some,
  List, [], ◌∷◌, ◌++◌, length, Bool-cases, Option-cases, str_eq, if◌then◌else◌, ◌==◌,
}
use ctfd_challenge_container.Events.{
  Event, EventLog, drop, append_event, deliver_local, log_event, get_recent_events, Message,
  dispatch_message, Step, logs, receives, listens, leaves, perform, run, add_listener,
  remove_listener,
}

-- What a worker takes from a message of the channel.
abbrev pub from_message : String → Message → List Event
from_message worker message =
    if message.is_message
    then elim message.payload [
      | none ↦ []
      | some (origin, event) ↦ if str_eq origin worker then [] else event ∷ []
    ]
    else []

abbrev pub kept_events : String → ℕ → Step → List Event
kept_events worker next_id (logs event_type message raises) =
    record { worker = worker; number = next_id; event_type = event_type; message = message } ∷ []
kept_events worker next_id (receives message raises) = from_message worker message
kept_events worker next_id (listens callback) = []
kept_events worker next_id (leaves callback) = []

abbrev pub next_after : ℕ → Step → ℕ
next_after next_id (logs event_type message raises) = suc next_id
next_after next_id _ = next_id

-- The abstract log: every event that the worker is given, the oldest first.
unfoldable pub all_events : String → ℕ → List Step → List Event
all_events worker next_id [] = []
all_events worker next_id (step ∷ steps) =
    kept_events worker next_id step ++ all_events worker (next_after next_id step) steps

-- The last elements of a list, as many as asked for.
abbrev pub last {ℓ} : {A : Type ℓ} → ℕ → List A → List A
last n xs = drop (length xs - n) xs

module _ {ℓ} {A : Type ℓ} where
  length-append : (xs ys : List A) → length (xs ++ ys) ≡ length xs + length ys
  length-append [] ys = omega arith
  length-append (x ∷ xs) ys = omega (arith, length-append xs ys)

  append-nil : (xs : List A) → xs ++ [] ≡ xs
  append-nil [] = refl
  append-nil (x ∷ xs) = ap (λ l. x ∷ l) (append-nil xs)

  append-append : (xs ys zs : List A) → (xs ++ ys) ++ zs ≡ xs ++ (ys ++ zs)
  append-append [] ys zs = refl
  append-append (x ∷ xs) ys zs = ap (λ l. x ∷ l) (append-append xs ys zs)

  drop-append : (k : ℕ) (xs ys : List A) → k ≤ length xs → drop k (xs ++ ys) ≡ drop k xs ++ ys
  unfolding drop
  drop-append zero xs ys short = refl
  drop-append (suc k) [] ys short = absurd (omega arith)
  drop-append (suc k) (x ∷ xs) ys short = drop-append k xs ys (omega arith)

  drop-nil : (k : ℕ) → drop {A = A} k [] ≡ []
  unfolding drop
  drop-nil zero = refl
  drop-nil (suc k) = refl

  drop-drop : (k j m : ℕ) (xs : List A) → m ≡ j + k → drop k (drop j xs) ≡ drop m xs
  unfolding drop
  drop-drop k zero m xs e = ap (λ n. drop n xs) (omega arith)
  drop-drop k (suc j) m [] e = drop-nil k ∙ sym (drop-nil m)
  drop-drop k (suc j) zero (x ∷ xs) e = absurd (omega arith)
  drop-drop k (suc j) (suc m) (x ∷ xs) e = drop-drop k j m xs (omega arith)

  length-drop : (k : ℕ) (xs : List A) → length (drop k xs) ≡ length xs - k
  unfolding drop
  length-drop zero xs = omega arith
  length-drop (suc k) [] = omega arith
  length-drop (suc k) (x ∷ xs) = omega (arith, length-drop k xs)

  -- What was dropped before an element was added makes no difference.
  last-append :
      (n : ℕ) (xs : List A) (y : A) → last n (last n xs ++ (y ∷ [])) ≡ last n (xs ++ (y ∷ []))
  last-append n xs y =
      let grown = xs ++ (y ∷ []) in
      let whole = length-append xs (y ∷ []) in
      let left = length-drop (length xs - n) grown in
      rw (← drop-append (length xs - n) xs (y ∷ []) (omega arith)) (
        drop-drop (length (drop (length xs - n) grown) - n) (length xs - n) (length grown - n) grown
          (omega (arith, whole, left)))

  last-last : (n m : ℕ) (xs : List A) → n ≤ m → last n (last m xs) ≡ last n xs
  last-last n m xs small =
      drop-drop (length (last m xs) - n) (length xs - m) (length xs - n) xs
        (omega (arith, length-drop (length xs - m) xs))

-- The log holds the last events of a history.
abbrev pub Holds : EventLog → List Event → Type 0
Holds log history = log.events ≡ last log.max_events history

deliver_local-Holds :
    (raises : ℕ → Bool) (event : Event) (log : EventLog) (history : List Event)
    → Holds log history
    → Holds (deliver_local raises event log) (history ++ (event ∷ []))
unfolding deliver_local append_event
deliver_local-Holds raises event log history holds =
    rw holds (last-append log.max_events history event)

nothing-Holds :
    (log : EventLog) (history : List Event) → Holds log history → Holds log (history ++ [])
nothing-Holds log history holds = rw (append-nil history) holds

dispatch-Holds :
    (worker : String) (raises : ℕ → Bool) (message : Message) (log : EventLog)
    (history : List Event)
    → Holds log history
    → let log' = dispatch_message worker raises message log in
      Holds log' (history ++ from_message worker message)
      × (log'.next_id ≡ log.next_id)
      × (log'.max_events ≡ log.max_events)
unfolding dispatch_message deliver_local
dispatch-Holds worker raises message log history holds = elim (Bool-cases message.is_message) [
  | inr e ↦ rw (dispatch_message, e) (nothing-Holds log history holds, refl, refl)
  | inl e ↦ elim (Option-cases message.payload) [
    | inl f ↦ rw (dispatch_message, e, f) (nothing-Holds log history holds, refl, refl)
    | inr ((origin, event), f) ↦ elim (Bool-cases (str_eq origin worker)) [
      | inl own ↦ rw (dispatch_message, e, f, own) (nothing-Holds log history holds, refl, refl)
      | inr other ↦
          rw (dispatch_message, e, f, other)
            (deliver_local-Holds raises event log history holds, refl, refl)
    ]
  ]
]

perform-Holds :
    (worker : String) (step : Step) (log : EventLog) (history : List Event)
    → Holds log history
    → let log' = perform worker step log in
      Holds log' (history ++ kept_events worker log.next_id step)
      × (log'.next_id ≡ next_after log.next_id step)
      × (log'.max_events ≡ log.max_events)
unfolding perform log_event add_listener remove_listener
perform-Holds worker (logs event_type message raises) log history holds = (
  deliver_local-Holds raises _ (record log { next_id = suc log.next_id }) history holds,
  unfold deliver_local in refl,
  unfold deliver_local in refl,
)
perform-Holds worker (receives message raises) log history holds =
    dispatch-Holds worker raises message log history holds
perform-Holds worker (listens callback) log history holds =
    (nothing-Holds log history holds, refl, refl)
perform-Holds worker (leaves callback) log history holds =
    (nothing-Holds log history holds, refl, refl)

run-Holds :
    (worker : String) (steps : List Step) (log : EventLog) (history : List Event)
    → Holds log history
    → (run worker steps log).events
      ≡ last log.max_events (history ++ all_events worker log.next_id steps)
unfolding run all_events
run-Holds worker [] log history holds = holds ∙ rw (append-nil history) refl
run-Holds worker (step ∷ steps) log history holds =
    let (later, next, limit) = perform-Holds worker step log history holds in
    run-Holds worker steps (perform worker step log) _ later
    ∙ rw
        (
          next,
          limit,
          append-append history (kept_events worker log.next_id step)
              (all_events worker (next_after log.next_id step) steps),
        )
        refl

-- A new `EventLogger`.
abbrev pub new_log : ℕ → EventLog
new_log max_events = record { max_events = max_events; events = []; listeners = []; next_id = 1 }

-- Whatever a worker logs, receives from the channel and does with its listeners, in any order and
-- whichever listeners raise, the recent events are the last ones of the abstract log, which is every
-- event that it logged, with ids counted from 1, and every one that other workers published, in
-- their order: as many as asked for, up to the capacity, or all that the capacity holds.
pub get_recent_events-last :
    (worker : String) (max_events limit : ℕ) (steps : List Step)
    → limit ≤ max_events
    → get_recent_events limit (run worker steps (new_log max_events))
      ≡ last (if limit == 0 then max_events else limit) (all_events worker 1 steps)
unfolding get_recent_events
get_recent_events-last worker max_events limit steps small =
    let held = run-Holds worker steps (new_log max_events) [] (sym (drop-nil (0 - max_events))) in
    elim (Bool-cases (limit == 0)) [
      | inl all ↦ rw (get_recent_events, all) held
      | inr some_of ↦
          rw (get_recent_events, some_of, held)
            (last-last limit max_events (all_events worker 1 steps) small)
    ]
