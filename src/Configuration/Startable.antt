-- ===== src/Configuration/Startable.antt =====
-- The companion services that `normalize_services` accepts.
use ctfd_challenge_container.Prelude.{
  ℕ, ◌≤◌, ◌*◌, Bool, true, false, not, ◌≡◌, refl, ap, arith, inl, inr, String, some, List, [], ◌∷◌,
  suc, leb→le, all, length, str_eq, some_injective, &&_both, Bool-cases, All,
}
use ctfd_challenge_container.Volumes.{mem, no_repeat}
use ctfd_challenge_container.Volumes.Declared.{bind-some, require-some}
use ctfd_challenge_container.Volumes.Json.{
  Json, null, boolean, number, other_number, not_finite, text, array, object,
}
use ctfd_challenge_container.Configuration.{
  Python, FloatValue, ratio, undefined, infinite, below_zero, in_cpu_range, is_blank, optional_int,
  bounded_int, optional_cpu, capabilities, collect_capabilities, add_capability,
  allowed_capabilities, split_comma,
}
use ctfd_challenge_container.Configuration.Services.{
  Reading, Service, is_service_name, normalize_service, normalize_each, normalize_services,
}

-- Capabilities of the allowed set, each once.
pub record AreGrantable (names : List String) : Type 0 where
  pub all_allowed : All (λ c. mem c allowed_capabilities ≡ true) names
  pub once_each : no_repeat names ≡ true

-- A finite number from 0.01, as the float next to it, to 1024.
abbrev pub IsCpuLimit : FloatValue → Type 0
IsCpuLimit (ratio n d) = (5764607523034235 * d ≤ 576460752303423488 * n) × (n ≤ 1024 * d)
IsCpuLimit _ = ⊥

in_cpu_range-IsCpuLimit : (value : FloatValue) → in_cpu_range value ≡ true → IsCpuLimit value
unfolding in_cpu_range
in_cpu_range-IsCpuLimit (ratio n d) e =
    let (low, high) = &&_both _ _ e in
    let low' : 5764607523034235 * d ≤ n * 576460752303423488 = leb→le _ _ low in
    let high' : n ≤ 1024 * d = leb→le _ _ high in (omega arith, omega arith)
in_cpu_range-IsCpuLimit undefined e = absurd (ground arith)
in_cpu_range-IsCpuLimit infinite e = absurd (ground arith)
in_cpu_range-IsCpuLimit below_zero e = absurd (ground arith)

module _ {Float : Type 0} (python : Python Float) where
  add-AreGrantable :
      (values values' : List String) (capability : String)
      → AreGrantable values
      → add_capability python values capability ≡ some values'
      → AreGrantable values'
  unfolding add_capability
  add-AreGrantable values values' capability h e = elim (Bool-cases (str_eq capability "")) [
    | inl empty ↦ rw (← some_injective _ _ (rw empty at e)) h
    | inr named ↦
        let (u, allowed, e1) = bind-some _ _ values' (rw named at e) in
        elim (Bool-cases (mem capability values)) [
          | inl there ↦ rw (← some_injective _ _ (rw there at e1)) h
          | inr new ↦ rw (← some_injective _ _ (rw new at e1)) (record {
            all_allowed = (require-some _ u allowed, h.all_allowed);
            once_each = unfold no_repeat in rw (new, h.once_each) refl;
          })
        ]
  ]

  collect-AreGrantable :
      (pieces values names : List String)
      → AreGrantable values
      → collect_capabilities python values pieces ≡ some names
      → AreGrantable names
  unfolding collect_capabilities
  collect-AreGrantable [] values names h e = rw (← some_injective _ _ e) h
  collect-AreGrantable (raw ∷ pieces) values names h e =
      let (values', added, e1) = bind-some _ _ names e in
      collect-AreGrantable pieces values' names (add-AreGrantable values values' _ h added) e1

  nothing-AreGrantable : AreGrantable []
  unfolding no_repeat
  nothing-AreGrantable = record { all_allowed = tt; once_each = refl }

  pub capabilities-AreGrantable :
      (value : Json) (names : List String)
      → capabilities python value ≡ some names
      → AreGrantable names
  unfolding capabilities is_blank
  capabilities-AreGrantable null names e = rw (← some_injective _ _ e) nothing-AreGrantable
  capabilities-AreGrantable (text s) names e = elim (Bool-cases (str_eq (python.strip s) "")) [
    | inl blank ↦ rw (← some_injective _ _ (rw blank at e)) nothing-AreGrantable
    | inr filled ↦
        collect-AreGrantable (split_comma s) [] names nothing-AreGrantable (rw filled at e)
  ]
  capabilities-AreGrantable (boolean b) names e = absurd (ground arith)
  capabilities-AreGrantable (number n) names e = absurd (ground arith)
  capabilities-AreGrantable other_number names e = absurd (ground arith)
  capabilities-AreGrantable not_finite names e = absurd (ground arith)
  capabilities-AreGrantable (array js) names e = absurd (ground arith)
  capabilities-AreGrantable (object ms) names e = absurd (ground arith)

  optional_int-bounded :
      (low high : ℕ) (value : Json) (n : ℕ)
      → optional_int python low high value ≡ some (some n)
      → (low ≤ n) × (n ≤ high)
  unfolding optional_int bounded_int
  optional_int-bounded low high value n e = elim (Bool-cases (is_blank python value)) [
    | inl blank ↦ absurd (ground arith)
    | inr filled ↦
        let (m, found, e1) = bind-some _ _ (some n) (rw filled at e) in
        let (k, read, e2) = bind-some _ _ m found in
        let (u, bounded, e3) = bind-some _ _ m e2 in
        let inside = require-some _ u bounded in
        let same : k ≡ m = some_injective _ _ e3 in
        let same' : m ≡ n = some_injective _ _ (some_injective _ _ e1) in
        (ground arith, ground arith)
  ]

  optional_cpu-bounded :
      (value : Json) (limit : Float)
      → optional_cpu python value ≡ some (some limit)
      → IsCpuLimit (python.value_of limit)
  unfolding optional_cpu
  optional_cpu-bounded value limit e = elim (Bool-cases (is_blank python value)) [
    | inl blank ↦ absurd (ground arith)
    | inr filled ↦
        let (u, e_bool, e1) = bind-some _ _ (some limit) (rw filled at e) in
        let (found, read, e2) = bind-some _ _ (some limit) e1 in
        let (u', ranged, e3) = bind-some _ _ (some limit) e2 in
        rw (← some_injective _ _ (some_injective _ _ e3))
          (in_cpu_range-IsCpuLimit (python.value_of found) (require-some _ u' ranged))
  ]

not-true : (b : Bool) → not b ≡ true → b ≡ false
not-true true e = absurd (ground arith)
not-true false e = refl

-- A companion service that may be started.
pub record IsStartable {Float : Type 0} (python : Python Float) (service : String × Service Float)
    : Type 0 where
  pub name_matches : is_service_name service.0 ≡ true
  pub name_free : str_eq service.0 "entry" ≡ false
  pub grantable : AreGrantable service.1.cap_add
  pub memory_bounded : (n : ℕ) → service.1.max_memory_mb ≡ some n → (6 ≤ n) × (n ≤ 1048576)
  pub cpu_bounded :
      (limit : Float) → service.1.max_cpu ≡ some limit → IsCpuLimit (python.value_of limit)

module _ {Float : Type 0} (python : Python Float) (reading : Reading) where
  normalize_service-IsStartable :
      (name : String) (value : Json) (service : Service Float)
      → normalize_service python reading name value ≡ some service
      → IsStartable python (name, service)
  unfolding normalize_service
  normalize_service-IsStartable name value service e =
      let (u1, named, e1) = bind-some _ _ service e in
      let (config, e_config, e2) = bind-some _ _ service e1 in
      let (u2, e_fields, e3) = bind-some _ _ service e2 in
      let (image, e_image, e4) = bind-some _ _ service e3 in
      let (command, e_command, e5) = bind-some _ _ service e4 in
      let (variables, e_variables, e6) = bind-some _ _ service e5 in
      let (caps, e_caps, e7) = bind-some _ _ service e6 in
      let (volumes, e_volumes, e8) = bind-some _ _ service e7 in
      let (memory, e_memory, e9) = bind-some _ _ service e8 in
      let (cpu, e_cpu, e10) = bind-some _ _ service e9 in
      let (matches, free) = &&_both _ _ (require-some _ u1 named) in
      rw (← some_injective _ _ e10) (record {
        name_matches = matches;
        name_free = not-true _ free;
        grantable = capabilities-AreGrantable python _ caps e_caps;
        memory_bounded = λ n same. optional_int-bounded python 6 1048576 _ n (rw same at e_memory);
        cpu_bounded = λ limit same. optional_cpu-bounded python _ limit (rw same at e_cpu);
      })

  normalize_each-AllStartable :
      (fields : List (String × Json)) (services : List (String × Service Float))
      → normalize_each python reading fields ≡ some services
      → All (IsStartable python) services × (length services ≡ length fields)
  unfolding normalize_each
  normalize_each-AllStartable [] services e = rw (← some_injective _ _ e) (tt, refl)
  normalize_each-AllStartable ((name, value) ∷ fields) services e =
      let (service, made, e1) = bind-some _ _ services e in
      let (rest, made_rest, e2) = bind-some _ _ services e1 in
      let (all, same) = normalize_each-AllStartable fields rest made_rest in
      rw (← some_injective _ _ e2)
        ((normalize_service-IsStartable name value service made, all), ap suc same)

  -- Companion services that are accepted are at most 20, and each has a name of the pattern that is not
  -- that of the entry, capabilities of the allowed set without repetition, and where it has them a memory
  -- limit from 6 to 1048576 and a finite CPU limit from 0.01 to 1024.
  pub normalize_services-AllStartable :
      (value : Json) (services : List (String × Service Float))
      → normalize_services python reading value ≡ some services
      → All (IsStartable python) services × (length services ≤ 20)
  unfolding normalize_services
  normalize_services-AllStartable value services e = elim (Bool-cases (is_blank python value)) [
    | inl blank ↦ rw (← some_injective _ _ (rw blank at e)) (tt, omega arith)
    | inr filled ↦
        let (fields, e_fields, e1) = bind-some _ _ services (rw filled at e) in
        let (u, few, e2) = bind-some _ _ services e1 in
        let (all, same) = normalize_each-AllStartable fields services e2 in
        let short : length fields ≤ 20 = leb→le _ _ (require-some _ u few) in (all, rw same short)
  ]
