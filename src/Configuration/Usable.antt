-- ===== src/Configuration/Usable.antt =====
-- The static addresses that `normalize_network` accepts.
use ctfd_challenge_container.Prelude.{
  ℕ, ◌<◌, Bool, true, not, ◌&&◌, ◌≡◌, refl, arith, inl, inr, String, Option, some, List, [], ◌∷◌,
  map, any, ◌==◌, some_injective, Bool-cases, All,
}
use ctfd_challenge_container.Volumes.{mem}
use ctfd_challenge_container.Volumes.Declared.{bind-some, require-some}
use ctfd_challenge_container.Volumes.Json.{Json}
use ctfd_challenge_container.Configuration.{Python, is_blank}
use ctfd_challenge_container.Configuration.Services.{Reading}
use ctfd_challenge_container.Configuration.Network.{
  IpParsers, NetworkConfig, is_usable, hostname_valid, parse_ips, normalize_network,
}

abbrev pub addresses : List (String × ℕ) → List ℕ
addresses ips = map (λ ip. ip.1) ips

abbrev pub absent_from : List ℕ → ℕ → Bool
absent_from seen address = not (any (λ n. n == address) seen)

-- No address twice.
abbrev pub distinct : List ℕ → Bool
distinct [] = true
distinct (n ∷ ns) = absent_from ns n && distinct ns

-- A static address is of the entry or a service, and usable in a subnet that is given.
pub record IsAssignable (names : List String) (subnet : Option (ℕ × ℕ)) (ip : String × ℕ)
    : Type 0 where
  pub known : mem ip.0 names ≡ true
  pub range : ℕ × ℕ
  pub subnet_given : subnet ≡ some range
  pub above_network : range.0 < ip.1
  pub below_broadcast : ip.1 < range.1

usable-between : (range : ℕ × ℕ) (n : ℕ) → is_usable range n ≡ true → (range.0 < n) × (n < range.1)
usable-between range n e = (ground arith, ground arith)

fresh_apart :
    (seen ns : List ℕ) (m : ℕ)
    → All (λ n. absent_from (m ∷ seen) n ≡ true) ns
    → (absent_from ns m ≡ true) × All (λ n. absent_from seen n ≡ true) ns
fresh_apart seen [] m h = (refl, tt)
fresh_apart seen (n ∷ ns) m (here, rest) =
    let (apart, fresh) = fresh_apart seen ns m rest in (ground arith, (ground arith, fresh))

-- What the loop accepts, with the addresses seen before.
record AreAssignable (names : List String) (subnet : Option (ℕ × ℕ)) (seen : List ℕ)
    (ips : List (String × ℕ)) : Type 0 where
  all_assignable : All (IsAssignable names subnet) ips
  fresh : All (λ n. absent_from seen n ≡ true) (addresses ips)
  apart : distinct (addresses ips) ≡ true

parse_ips-AreAssignable :
    (parsers : IpParsers) (names : List String) (subnet : Option (ℕ × ℕ)) (seen : List ℕ)
    (fields : List (String × Json)) (ips : List (String × ℕ))
    → parse_ips parsers names subnet seen fields ≡ some ips
    → AreAssignable names subnet seen ips
unfolding parse_ips
parse_ips-AreAssignable parsers names subnet seen [] ips e =
    rw (← some_injective _ _ e) (record { all_assignable = tt; fresh = tt; apart = refl })
parse_ips-AreAssignable parsers names subnet seen ((name, value) ∷ fields) ips e =
    let (u1, known, e1) = bind-some _ _ ips e in
    let (raw, e_raw, e2) = bind-some _ _ ips e1 in
    let (address, parsed, e3) = bind-some _ _ ips e2 in
    let (range, given, e4) = bind-some _ _ ips e3 in
    let (u2, usable, e5) = bind-some _ _ ips e4 in
    let (u3, unseen, e6) = bind-some _ _ ips e5 in
    let (rest, parsed_rest, e7) = bind-some _ _ ips e6 in
    let (above, below) = usable-between range address (require-some _ u2 usable) in
    let later =
      parse_ips-AreAssignable parsers names subnet (address ∷ seen) fields rest parsed_rest in
    let (alone, still_fresh) = fresh_apart seen (addresses rest) address later.fresh in
    rw (← some_injective _ _ e7) (record {
      all_assignable = (
        record {
          known = require-some _ u1 known;
          range = range;
          subnet_given = given;
          above_network = above;
          below_broadcast = below;
        },
        later.all_assignable,
      );
      fresh = (require-some _ u3 unseen, still_fresh);
      apart = rw (alone, later.apart) refl;
    })

-- A network configuration that is accepted can be used: its hostname matches the pattern, and each of
-- its static addresses is given to the entry or to one of the services, lies in the given subnet strictly
-- between its network and its broadcast address, and is given once.
pub normalize_network-AllAssignable :
    {Float : Type 0} (python : Python Float) (reading : Reading) (parsers : IpParsers)
    (value : Json) (service_names : List String) (config : NetworkConfig)
    → normalize_network python reading parsers value service_names ≡ some (some config)
    → (hostname_valid config.hostname ≡ true)
      × All (IsAssignable ("entry" ∷ service_names) config.subnet) config.ips
      × (distinct (addresses config.ips) ≡ true)
unfolding normalize_network
normalize_network-AllAssignable python reading parsers value service_names config e =
    elim (Bool-cases (is_blank python value)) [
      | inl blank ↦ absurd (ground arith)
      | inr filled ↦
          let (config_read, e_read, e1) = bind-some _ _ (some config) (rw filled at e) in
          let (u1, e_known, e2) = bind-some _ _ (some config) e1 in
          let (hostname, e_host, e3) = bind-some _ _ (some config) e2 in
          let (u2, valid, e4) = bind-some _ _ (some config) e3 in
          let (subnet, e_subnet, e5) = bind-some _ _ (some config) e4 in
          let (raw_ips, e_ips, e6) = bind-some _ _ (some config) e5 in
          let (ips, parsed, e7) = bind-some _ _ (some config) e6 in
          let sound = parse_ips-AreAssignable parsers _ subnet [] raw_ips ips parsed in
          rw (← some_injective _ _ (some_injective _ _ e7))
            (require-some _ u2 valid, sound.all_assignable, sound.apart)
    ]
