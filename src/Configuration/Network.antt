-- ===== src/Configuration/Network.antt =====
-- `normalize_network` of src/challenge_config.py, up to the JSON that it writes. The parsers of the
-- module `ipaddress` are parameters: an IPv4 address is its number, an IPv4 network its first (network)
-- and its last (broadcast) address.
use ctfd_challenge_container.Prelude.{
  ℕ, Bool, true, not, ◌&&◌, ◌||◌, String, Option, none, some, List, [], ◌∷◌, all, any, leb, ◌==◌,
  if◌then◌else◌,
}
use ctfd_challenge_container.Volumes.{lookup, mem}
use ctfd_challenge_container.Volumes.Json.{Json, null, require_object, keys, as_text}
use ctfd_challenge_container.Volumes.Mounts.{◌>>=◌, require}
use ctfd_challenge_container.Volumes.Names.{full_match}
use ctfd_challenge_container.Settings.Objects.{parse_json_object}
use ctfd_challenge_container.Configuration.{Python, field, is_blank, optional_string}
use ctfd_challenge_container.Configuration.Services.{Reading}

pub data Address : Type 0 where
  v4 : ℕ → Address
  v6 : Address

pub data Subnet : Type 0 where
  v4_subnet : ℕ → ℕ → Subnet
  v6_subnet : Subnet

-- `ip_address` and `ip_network` with strict=True; None is a ValueError.
pub record IpParsers : Type 0 where
  pub ip_address : String → Option Address
  pub ip_network : String → Option Subnet

pub record NetworkConfig : Type 0 where
  pub hostname : Option String
  pub subnet : Option (ℕ × ℕ)
  pub ips : List (String × ℕ)

abbrev is_alphanumeric : ℕ → Bool
is_alphanumeric n = leb 97 n && leb n 122 || leb 65 n && leb n 90 || leb 48 n && leb n 57

unfoldable pub is_hostname : String → Bool
is_hostname s =
    full_match (λ n. is_alphanumeric n) (λ n. is_alphanumeric n || n == 95 || n == 46 || n == 45) 63
      s

abbrev as_v4 : Option Address → Option ℕ
as_v4 (some (v4 n)) = some n
as_v4 _ = none

abbrev as_v4_subnet : Option Subnet → Option (ℕ × ℕ)
as_v4_subnet (some (v4_subnet first last)) = some (first, last)
as_v4_subnet _ = none

-- In the subnet, and neither its network nor its broadcast address.
abbrev pub is_usable : ℕ × ℕ → ℕ → Bool
is_usable subnet n = leb subnet.0 n && leb n subnet.1 && not (n == subnet.0 || n == subnet.1)

module _ (parsers : IpParsers) where
  unfoldable pub parse_subnet : Json → Option (Option (ℕ × ℕ))
  parse_subnet null = some none
  parse_subnet value = do
    s ← as_text value
    subnet ← as_v4_subnet (parsers.ip_network s)
    some (some subnet)

  -- The loop over the static addresses, with those seen.
  unfoldable pub parse_ips :
      List String → Option (ℕ × ℕ) → List ℕ → List (String × Json) → Option (List (String × ℕ))
  parse_ips names subnet seen [] = some []
  parse_ips names subnet seen ((name, value) ∷ fields) = do
    _ ← require (mem name names)
    raw ← as_text value
    address ← as_v4 (parsers.ip_address raw)
    range ← subnet
    _ ← require (is_usable range address)
    _ ← require (not (any (λ n. n == address) seen))
    rest ← parse_ips names subnet (address ∷ seen) fields
    some ((name, address) ∷ rest)

-- `config.get("ips", {})`: a null is no object.
abbrev pub ips_of : List (String × Json) → Option (List (String × Json))
ips_of config = elim (lookup "ips" config) [ none ↦ some [] | some value ↦ require_object value ]

abbrev pub hostname_valid : Option String → Bool
hostname_valid none = true
hostname_valid (some hostname) = is_hostname hostname

module _ {Float : Type 0} (python : Python Float) (reading : Reading) (parsers : IpParsers) where
  unfoldable pub normalize_network : Json → List String → Option (Option NetworkConfig)
  normalize_network value service_names = if is_blank python value then some none else do
    config ← parse_json_object reading.byte_length reading.loads reading.dumps_length value
    _ ← require (all (λ k. mem k ("subnet" ∷ "ips" ∷ "hostname" ∷ [])) (keys config))
    hostname ← optional_string python 64 (field "hostname" config)
    _ ← require (hostname_valid hostname)
    subnet ← parse_subnet parsers (field "subnet" config)
    raw_ips ← ips_of config
    ips ← parse_ips parsers ("entry" ∷ service_names) subnet [] raw_ips
    some (some (record { hostname = hostname; subnet = subnet; ips = ips }))
