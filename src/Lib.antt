-- ===== src/Lib.antt =====
-- A model of the CTFd plugin that runs one set of Docker containers per team or user and challenge,
-- and of what makes its parts correct.
--
-- The parts, and the files that model them:
--
-- - Schema (src/models.py): the tables `container_instances`, `container_info`, `container_history`
--   and `docker_contexts` as records and lists of rows, and the unique constraints as the test `clash`.
--   Table holds the statements that are sent to them: UPDATE and DELETE with a condition, the number of
--   rows that they report, and the test of a unique constraint at an INSERT.
-- - Coordination (src/coordination.py): `InstanceCoordinator`. Each method is a function of the same
--   name from the database to an answer and a database; a session that rolls back gives the database
--   back unchanged. Coordination.Reserve is `reserve_instance` with the methods it calls (validation,
--   quota slot, ranking of contexts, create slot, placement version, INSERT, and the loop of attempts);
--   Coordination.Lifecycle.Finalize is `mark_running`, Coordination.Lifecycle.Cleanup the cleanup
--   claims and the deletion, Coordination.Lifecycle.Expiry `renew`, `extend_by_admin` and
--   `shorten_after_solve`, Coordination.Lifecycle.Solves `reconcile_solved_instances`.
--   Coordination.Steps makes every committed transaction a step of the database; Coordination.Invariant
--   has what any sequence of steps keeps, Coordination.Lease, Renewal and Admission what single calls
--   and pairs of calls promise.
-- - Volumes (src/volume_policy.py): the infrastructure policy of named volumes and the mounts that
--   challenges declare, both parsed from JSON values (Volumes.Policy, Volumes.Mounts, with the
--   patterns in Volumes.Names), the binds that a context resolves them to and the readiness of
--   contexts (Volumes.Readiness). A function that raises its module error answers None.
-- - Files (src/files/store.py): the store of generated files that the web side and the worker share.
--   Files.Jobs has the reads, writes and the order of jobs, Files.Work `claim`, `fail`, `current` and
--   `publish`, Files.Retire the retirement of jobs, the recipes and the collection, Files.Retry
--   `retry_failed`. A section under the store's lock is one function.
-- - Maintenance (src/container_manager.py): `_kill_expired_containers_inner` from the reconciliation of
--   solves up to, and without, the removal of orphans, as calls of the coordination.
-- - Requests (src/views/helpers.py, src/messages.py, the error kinds of src/utils.py): what a request of
--   a player does with the coordination. Requests.Create is `create_container`, with the start of the
--   containers and the cleanup of a failed reservation; Requests.Renew `renew_container`, Requests.Cleanup
--   `kill_container`, Requests.View `view_container_info`, Requests.Planning the contexts whose volumes are
--   ready and the binds on the chosen one; Requests.Messages and Requests.Errors have the texts and the
--   bodies of the answers.
-- - Settings (src/utils.py): the specifications of the settings, their validation, storage and reading,
--   and the JSON objects of requests (Settings.Shape, Settings.Objects, Settings.Stored).
-- - Configuration (src/challenge_config.py): the services, the network and the other fields of a
--   challenge, normalized before they are written to its row (Configuration.Services, Network, Fields).
-- - Flags (src/freshness.py, src/flag_type.py): the token of an owner, the flag that is rendered with it
--   and the reading of a submission.
-- - Events (src/event_logger.py, src/event_bus.py): the log of a worker and its listeners, and what it
--   does with a message of another worker.
-- - Hosts (src/orchestrator.py): the health of the Docker contexts in the table and in the memory of a
--   worker, with the probes as arguments.
--
-- Requests call the coordination, and between two calls other workers commit: a request takes those
-- commits as lists of transactions. Coordination.Presence says which operations leave the instances in
-- place; the results on failing removals, in requests and in the maintenance, rest on it.
--
-- How values are modelled. A float time stamp is a number of microseconds, an integer one a number of
-- seconds; the code compares them through `seconds`. Ids are natural numbers: a negative argument
-- raises the same error in the source as 0 does. The string "team:7" of an owner is its kind and
-- number. An exception of the coordination is its class, without the message. The score
-- weight / (count + 1) of a context is compared as a fraction, by cross multiplication, and a float of
-- the configuration by the fraction that it stands for. What the program draws from the outside (the
-- clock, uuid4, random.choice, secrets) is an argument.
--
-- Concurrency. `reserve_loop` takes for each attempt a round: what other workers commit before it and
-- between its reads and its writes, and whether it meets an OperationalError. In Coordination.Steps a
-- reservation carries the snapshot that it read, which need not be the database it commits to. Each
-- other method is one transaction, and a transaction is one step.
--
-- Bounds. `reserve_loop` runs on the source's own count of attempts, max_instances *
-- max_concurrent_creates * 8 + 8, so there is no fuel beside it; the tests of a JSON value's depth and
-- size are recursions on the value. CTFd's table of solves is the parameter `first_solve`; json.loads,
-- posixpath.normpath, str.strip, str.upper, the length in UTF-8, str of a number, float, the value of a
-- digit, ipaddress, HMAC-SHA256, and the lookup of a Docker volume are parameters, as are the answers of
-- Docker and the reading of a challenge's row.
--
-- Not modelled: stacks and the removal of orphans (the rest of src/container_manager.py), Docker and SSH
-- (src/docker_host_manager.py), the Flask routes (src/views/routes_user.py, src/views/routes_admin.py),
-- the rate limit and time zones of src/utils.py, CTFd's challenge class (src/challenges.py), the seeds
-- and secrets of src/freshness.py, Redis and the reconnection in src/event_bus.py, `request` and the
-- owner-mode reconciliation of src/files/store.py, the archive stream of the file generator
-- (src/files/worker.py), the HTTP side of files (src/files/web.py), the environment of a container and
-- `requires_visible_challenge` in src/views/helpers.py, migrations, and the pages.
mod Prelude
pub mod Table
pub mod Schema
pub mod Coordination
pub mod Volumes
pub mod Files
pub mod Maintenance
pub mod Requests
pub mod Settings
pub mod Configuration
pub mod Flags
pub mod Events
pub mod Hosts
