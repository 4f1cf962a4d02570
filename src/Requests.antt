-- ===== src/Requests.antt =====
-- src/views/helpers.py: the requests that start, renew, show and end instances. Docker, the settings
-- and the HTTP host of a request are arguments; events that are only logged are left out.
pub mod Messages
pub mod Errors
pub mod Cleanup
pub mod Renew
pub mod View
pub mod Create
pub mod Planning
pub mod Outcome
pub mod Settled
pub mod Success
pub mod Safe
pub mod Ending
pub mod Extending
mod Tests
use Prim.Native.Char.{code}
use ctfd_challenge_container.Prelude.{
  ℕ, Bool, false, ◌&&◌, String, Option, none, some, List, [], ◌∷◌, ◌==◌, find, is_none,
  if◌then◌else◌, str_eq, sql_eq,
}
use ctfd_challenge_container.Schema.{ContainerInfo, DockerContext, Instance, Db}
use ctfd_challenge_container.Coordination.{Error, Result, ok, err, FinalizedInstance, find_instance}
use ctfd_challenge_container.Coordination.Reserve.{truthy}
use Errors.{ErrorKind, ErrorBody, error_body}

-- The columns of ContainerChallengeModel that the requests read.
pub record Challenge : Type 0 where
  pub id : ℕ
  pub image : Option String
  pub port : Option ℕ
  pub ctype : String
  pub ssh_username : Option String
  pub ssh_password : Option String
  pub expiration_seconds : Option ℕ
  pub max_renewals : Option ℕ
  pub docker_context : Option String
  pub services_json : Option String

-- What `get_setting` gives for the settings that the requests read.
pub record Settings : Type 0 where
  pub max_containers_per_user : ℕ
  pub max_concurrent_creates : ℕ
  pub default_expiration_seconds : ℕ
  pub default_max_renewals : ℕ

-- `value or fallback` of a number.
abbrev pub or_number : ℕ → ℕ → ℕ
or_number n fallback = if n == 0 then fallback else n

abbrev number_or : Option ℕ → ℕ → ℕ
number_or none fallback = fallback
number_or (some n) fallback = or_number n fallback

unfoldable pub resolve_expiration : Settings → Challenge → ℕ
resolve_expiration settings challenge =
    or_number (number_or challenge.expiration_seconds settings.default_expiration_seconds) 1800

unfoldable pub resolve_max_renewals : Settings → Challenge → ℕ
resolve_max_renewals settings challenge = elim challenge.max_renewals [
  | none ↦ settings.default_max_renewals
  | some n ↦ n
]

unfoldable pub resolve_ssh_password : Challenge → Option String → Option String
resolve_ssh_password challenge none = challenge.ssh_password
resolve_ssh_password challenge (some password) = some password

-- `text.split(mark)[0]` for a mark of one character.
unfoldable pub before_mark : ℕ → String → String
before_mark mark String.[] = String.[]
before_mark mark (String.◌∷◌ c s) =
    let rest = before_mark mark s in if code c == mark then String.[] else String.◌∷◌ c rest

abbrev has_mark : ℕ → String → Bool
has_mark mark String.[] = false
has_mark mark (String.◌∷◌ c s) = if code c == mark then Bool.true else has_mark mark s

-- `text.split(mark)[-1]`
unfoldable pub after_mark : ℕ → String → String
after_mark mark String.[] = String.[]
after_mark mark (String.◌∷◌ c s) =
    let rest = after_mark mark s in
    if has_mark mark s then rest else if code c == mark then s else String.◌∷◌ c s

-- `request.host.split(":")[0]`
abbrev request_hostname : String → String
request_hostname host = before_mark 58 host

abbrev context_hostname : String → DockerContext → String
context_hostname host context =
    if truthy (some context.pub_hostname) then context.pub_hostname else elim context.hostname [
      | none ↦ request_hostname host
      | some name ↦ if truthy (some name) then after_mark 64 name else request_hostname host
    ]

unfoldable pub get_hostname_for_context : String → List DockerContext → Option String → String
get_hostname_for_context host contexts none = request_hostname host
get_hostname_for_context host contexts (some name) =
    if str_eq name ""
    then request_hostname host
    else if str_eq name "local"
    then request_hostname host
    else elim (find (λ c. str_eq c.context_name name) contexts) [
      | none ↦ request_hostname host
      | some context ↦ context_hostname host context
    ]

pub record SshAccess : Type 0 where
  pub ssh_username : Option String
  pub ssh_password : Option String

pub record Connection : Type 0 where
  pub status : String
  pub hostname : String
  pub port : ℕ
  pub connect : String
  pub expires : ℕ
  pub renewals_used : ℕ
  pub max_renewals : ℕ
  pub ssh : Option SshAccess

-- What `build_connection_response` reads of a container: of a ContainerInfoModel with its instance's
-- password, or of a FinalizedInstance.
pub record Endpoint : Type 0 where
  pub port : ℕ
  pub expires : ℕ
  pub renewals_used : ℕ
  pub ssh_password : Option String

abbrev pub info_endpoint : ContainerInfo → Option String → Endpoint
info_endpoint info password = record {
  port = info.port;
  expires = info.expires;
  renewals_used = info.renewals_used;
  ssh_password = password;
}

abbrev pub finalized_endpoint : FinalizedInstance → Endpoint
finalized_endpoint f = record {
  port = f.port;
  expires = f.expires;
  renewals_used = f.renewals_used;
  ssh_password = f.ssh_password;
}

-- The request around a handler: its Host header, the settings and `str` of a number.
pub record Request : Type 0 where
  pub host : String
  pub settings : Settings
  pub decimal : ℕ → String

-- `expires` and `renewals_used` of the keyword arguments stand in the endpoint.
unfoldable pub build_connection_response :
    Request → List DockerContext → String → Challenge → Endpoint → Option String → Connection
build_connection_response request contexts status challenge endpoint context_name = record {
  status = status;
  hostname = get_hostname_for_context request.host contexts context_name;
  port = endpoint.port;
  connect = challenge.ctype;
  expires = endpoint.expires;
  renewals_used = endpoint.renewals_used;
  max_renewals = resolve_max_renewals request.settings challenge;
  ssh =
      if str_eq challenge.ctype "ssh"
      then some (record {
        ssh_username = challenge.ssh_username;
        ssh_password = resolve_ssh_password challenge endpoint.ssh_password;
      })
      else none;
}

-- The same for a row of `container_info`; its instance is read for the password only.
unfoldable pub info_response :
    Request → Db → String → Challenge → ContainerInfo → Endpoint → String → Result Connection
info_response request db status challenge info endpoint context_name =
    let respond = λ (password : Option String).
      build_connection_response request db.contexts status challenge
        (record endpoint { ssh_password = password }) (some context_name) in
    if str_eq challenge.ctype "ssh"
    then elim (find_instance info.instance_id db.instances) [
      | none ↦ err Error.attribute_error
      | some row ↦ ok (respond row.ssh_password)
    ]
    else ok (respond none)

-- The body of an answer. `notice` is a status with a message, or with none.
pub data Body : Type 0 where
  error : ErrorBody → Body
  success : String → Body
  connection : Connection → Body
  renewed : Connection → Body
  unreachable : Connection → String → Body
  notice : String → Option String → Option ErrorKind → Body
  uncaught : Body

-- An answer with its HTTP status and its Retry-After header.
pub record Answer : Type 0 where
  pub status : ℕ
  pub retry_after : Option ℕ
  pub body : Body

abbrev pub plain : Body → Answer
plain body = record { status = 200; retry_after = none; body = body }

abbrev pub refused : ℕ → String → ErrorKind → Answer
refused status message kind = record {
  status = status;
  retry_after = none;
  body = Body.error (error_body message (some kind));
}

abbrev pub later : ℕ → ℕ → Body → Answer
later status seconds body = record { status = status; retry_after = some seconds; body = body }

-- `owner_filter`, as the condition that it stands for.
unfoldable pub owner_filter : ℕ → Bool → ContainerInfo → Bool
owner_filter xid is_team info =
    if is_team then sql_eq ◌==◌ info.team_id (some xid) else sql_eq ◌==◌ info.user_id (some xid)

-- The entry container that an owner has for a challenge.
abbrev pub entry_container : ℕ → ℕ → Bool → List ContainerInfo → Option ContainerInfo
entry_container challenge_id xid is_team infos =
    find (λ i. i.challenge_id == challenge_id && (i.is_entry && owner_filter xid is_team i)) infos
