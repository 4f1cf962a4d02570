-- ===== src/Requests/Messages.antt =====
-- src/messages.py: the texts that the handlers of requests answer.
use ctfd_challenge_container.Prelude.{String}

abbrev pub hosts_busy : String
hosts_busy = "all container hosts are busy, please try again shortly"

abbrev pub host_unreachable : String
host_unreachable = "the container host is temporarily unreachable, please wait"

abbrev pub context_unavailable : String
context_unavailable = "container context is unavailable; cleanup will retry automatically"

abbrev pub host_unavailable_cleanup : String
host_unavailable_cleanup = "container host unavailable; cleanup will be retried"

abbrev pub placement_failed : String
placement_failed = "container placement failed"

abbrev pub request_in_progress : String
request_in_progress = "another container request is in progress, please wait"

abbrev pub no_renewals : String
no_renewals = "no renewals remaining"

abbrev pub solved_no_renew : String
solved_no_renew = "solved containers cannot be renewed"

abbrev pub expired_no_renew : String
expired_no_renew = "expired containers cannot be renewed"

abbrev pub challenge_locked : String
challenge_locked = "challenge locked"

abbrev pub cleanup_in_progress : String
cleanup_in_progress = "Container cleanup is in progress. Please try again in a few minutes."

abbrev pub start_timeout : String
start_timeout = "Container creation timed out. Please try again in a few minutes."

abbrev pub cleanup_pending : String
cleanup_pending = "container cleanup is pending"

abbrev pub cleanup_already_running : String
cleanup_already_running = "container cleanup is already in progress"

abbrev pub cleanup_finalizing : String
cleanup_finalizing = "container cleanup finalization is already in progress"

abbrev pub awaiting_cleanup : String
awaiting_cleanup = "The previous instance is awaiting confirmed cleanup."

abbrev pub port_unavailable : String
port_unavailable = "could not determine container port"

abbrev pub finalization_failed : String
finalization_failed = "database finalization failed; container cleanup has been scheduled"

abbrev pub container_not_found : String
container_not_found = "container not found"

abbrev pub container_not_found_reset : String
container_not_found_reset = "container not found, try resetting the container"

abbrev pub instance_not_found : String
instance_not_found = "container instance not found"

abbrev pub challenge_not_found : String
challenge_not_found = "challenge not found"

abbrev pub memory_limit_invalid : String
memory_limit_invalid = "memory limit must be an integer"

abbrev pub cpu_limit_invalid : String
cpu_limit_invalid = "cpu limit must be a positive number"

abbrev pub server_error : String
server_error = "a server error occurred, please try again"

abbrev pub image_not_found : String
image_not_found = "docker image not found"

abbrev pub challenge_misconfigured : String
challenge_misconfigured =
    "This challenge has a broken configuration. This is on our end, not yours."

abbrev pub challenge_unavailable : String
challenge_unavailable =
    "This challenge is temporarily unavailable due to a server configuration issue. This is on our end, not yours."
