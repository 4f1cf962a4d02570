-- ===== src/Settings.antt =====
-- src/utils.py: the settings of the plugin, what they may be set to, and how they are stored and read.
-- A value of a request is a JSON value; an error is None. Every minimum of the table is at least 0, so
-- a negative number is refused like a fraction: both are `other_number`.
pub mod Shape
pub mod Objects
pub mod Stored
pub mod Bounds
pub mod RoundTrip
mod Tests
use ctfd_challenge_container.Prelude.{
  ℕ, suc, Bool, true, false, not, ◌&&◌, ◌||◌, String, Option, none, some, List, [], ◌∷◌, map, leb,
  str_eq,
}
use ctfd_challenge_container.Volumes.{lookup}
use ctfd_challenge_container.Volumes.Json.{
  Json, boolean, number, text, array, object, no_member, member, require_object,
}
use ctfd_challenge_container.Volumes.Mounts.{◌>>=◌, require}
use ctfd_challenge_container.Volumes.Names.{char_count}

pub data SettingValue : Type 0 where
  int : ℕ → SettingValue
  str : String → SettingValue

pub data SettingKind : Type 0 where
  integer duration string : SettingKind

pub data ApplyMode : Type 0 where
  live live_disruptive : ApplyMode

pub record SettingSpec : Type 0 where
  pub default : SettingValue
  pub kind : SettingKind
  pub minimum : Option ℕ
  pub maximum : Option ℕ
  pub max_length : Option ℕ
  pub allow_empty : Bool
  pub apply_mode : ApplyMode
  pub sensitive : Bool

abbrev pub at_least : Option ℕ → ℕ → Bool
at_least none n = true
at_least (some low) n = leb low n

abbrev pub at_most : Option ℕ → ℕ → Bool
at_most none n = true
at_most (some high) n = leb n high

unfoldable pub parse_strict_int : Json → Option ℕ → Option ℕ → Option ℕ
parse_strict_int (number n) minimum maximum = do
  _ ← require (at_least minimum n)
  _ ← require (at_most maximum n)
  some n
parse_strict_int _ minimum maximum = none

unfoldable pub parse_duration_seconds : Json → ℕ → Option ℕ → Option ℕ
parse_duration_seconds value minimum maximum = parse_strict_int value (some minimum) maximum

abbrev pub or_zero : Option ℕ → ℕ
or_zero none = 0
or_zero (some n) = n

unfoldable pub parse_string : SettingSpec → Json → Option SettingValue
parse_string spec (text s) = do
  _ ← require (not (str_eq s "") || spec.allow_empty)
  _ ← require (at_most spec.max_length (char_count s))
  some (str s)
parse_string spec _ = none

-- `SettingSpec.parse`
unfoldable pub parse : SettingSpec → Json → Option SettingValue
parse spec value = elim spec.kind [
  | string ↦ parse_string spec value
  | duration ↦ do n ← parse_duration_seconds value (or_zero spec.minimum) spec.maximum; some (int n)
  | integer ↦ do n ← parse_strict_int value spec.minimum spec.maximum; some (int n)
]

abbrev bounded : SettingKind → ℕ → ℕ → ℕ → SettingSpec
bounded kind default minimum maximum = record {
  default = int default;
  kind = kind;
  minimum = some minimum;
  maximum = some maximum;
  max_length = none;
  allow_empty = false;
  apply_mode = live;
  sensitive = false;
}

-- SETTING_SPECS
abbrev pub setting_specs : List (String × SettingSpec)
setting_specs =
    ("max_containers_per_user", bounded integer 4 1 100)
    ∷ ("rate_limit_requests", bounded integer 45 1 10000)
    ∷ ("rate_limit_interval", bounded duration 60 1 86400)
    ∷ ("mutation_rate_limit_requests", bounded integer 10 1 10000)
    ∷ ("mutation_rate_limit_interval", bounded duration 60 1 86400)
    ∷ ("expiration_check_interval", bounded duration 5 1 3600)
    ∷ ("max_concurrent_creates", bounded integer 2 1 32)
    ∷ (
      "freshness_secret",
      record {
        default = str "";
        kind = string;
        minimum = none;
        maximum = none;
        max_length = some 4096;
        allow_empty = true;
        apply_mode = live_disruptive;
        sensitive = true;
      },
    )
    ∷ ("freshness_token_length", record (bounded integer 6 4 16) { apply_mode = live_disruptive })
    ∷ ("post_solve_expiry_seconds", bounded duration 90 0 604800)
    ∷ ("default_expiration_seconds", bounded duration 1800 1 604800)
    ∷ ("default_max_renewals", bounded integer 2 0 1000)
    ∷ ("default_max_memory_mb", bounded integer 512 6 1048576)
    ∷ ("default_max_cpu_millicores", bounded integer 1000 10 1024000)
    ∷ []

-- The loop of `validate_settings_patch`.
unfoldable pub validate_each : List (String × Json) → Option (List (String × SettingValue))
validate_each [] = some []
validate_each ((key, value) ∷ fields) = do
  spec ← lookup key setting_specs
  parsed ← parse spec value
  rest ← validate_each fields
  some ((key, parsed) ∷ rest)

unfoldable pub validate_settings_patch : Json → Option (List (String × SettingValue))
validate_settings_patch payload = do fields ← require_object payload; validate_each fields
