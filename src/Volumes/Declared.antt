-- ===== src/Volumes/Declared.antt =====
-- What `parse_mount_config` accepts, and that it reads back what `canonical_mount_config` writes.
use ctfd_challenge_container.Prelude.{
  ℕ, suc, ◌≤◌, Bool, true, false, ◌≡◌, refl, ap, inl, inr, String, Option, none, some, List, [],
  ◌∷◌, map, arith, All, Bool-cases, str_eq, str_eq_iff, all, length, length-map, leb, leb→le,
  if◌then◌else◌,
}
use ctfd_challenge_container.Volumes.{
  MountScope, MountRequest, lookup, mem, no_repeat, scope_eq, scope_name,
}
use ctfd_challenge_container.Volumes.Json.{
  Json, items, to_items, members, require_object, require_exact_keys, as_text, as_number, as_items,
}
use ctfd_challenge_container.Volumes.Names.{is_logical_name, is_target}
use ctfd_challenge_container.Volumes.Mounts.{
  ◌>>=◌, require, RawConfig, absent, written, decoded, parse_mount, parse_mounts, parse_mount_root,
  parse_json, parse_mount_config, mount_value, canonical_value, canonical_mount_config,
}

pub bind-some {ℓ κ} :
    {A : Type ℓ} {B : Type κ} (o : Option A) (f : A → Option B) (b : B)
    → (o >>= f) ≡ some b
    → (a : A) × (o ≡ some a) × (f a ≡ some b)
unfolding ◌>>=◌
bind-some none f b h = absurd (ground arith)
bind-some (some a) f b h = (a, refl, h)

pub require-some : (t : Bool) (u : Unit {0}) → require t ≡ some u → t ≡ true
require-some true u h = refl
require-some false u h = absurd (ground arith)

module _ (normpath : String → String) where
  -- A mount that the schema allows in the scope.
  pub record IsValid (scope : MountScope) (m : MountRequest) : Type 0 where
    pub valid_name : is_logical_name m.logical_name ≡ true
    pub valid_target : is_target normpath m.target ≡ true
    pub same_scope : m.scope ≡ scope

  parse_mount-IsValid :
      (scope : MountScope) (value : Json) (m : MountRequest)
      → parse_mount normpath scope value ≡ some m
      → IsValid scope m
  unfolding parse_mount
  parse_mount-IsValid scope value m h =
      let (mount, e1, h1) = bind-some _ _ m h in
      let (u2, e2, h2) = bind-some _ _ m h1 in
      let (kind, e3, h3) = bind-some _ _ m h2 in
      let (u4, e4, h4) = bind-some _ _ m h3 in
      let (read_only, e5, h5) = bind-some _ _ m h4 in
      let (u6, e6, h6) = bind-some _ _ m h5 in
      let (name, e7, h7) = bind-some _ _ m h6 in
      let (logical_name, e8, h8) = bind-some _ _ m h7 in
      let (u9, e9, h9) = bind-some _ _ m h8 in
      let (place, e10, h10) = bind-some _ _ m h9 in
      let (target, e11, h11) = bind-some _ _ m h10 in
      let (u12, e12, h12) = bind-some _ _ m h11 in
      let named = require-some _ u9 e9 in
      let placed = require-some _ u12 e12 in
      let same : m ≡ record { logical_name = logical_name; target = target; scope = scope } =
        ground arith in
      rw same (record { valid_name = named; valid_target = placed; same_scope = refl })

  -- The mounts are valid, and repeat no name and no target, of the earlier ones either.
  abbrev AllNew : MountScope → List String → List String → List MountRequest → Type 0
  AllNew scope names targets [] = Unit
  AllNew scope names targets (m ∷ ms) =
      IsValid scope m
      × (mem m.logical_name names ≡ false)
      × (mem m.target targets ≡ false)
      × AllNew scope (m.logical_name ∷ names) (m.target ∷ targets) ms

  parse_mounts-AllNew :
      (scope : MountScope) (names targets : List String) (values : List Json)
      (mounts : List MountRequest)
      → parse_mounts normpath scope names targets values ≡ some mounts
      → AllNew scope names targets mounts × (length mounts ≡ length values)
  unfolding parse_mounts
  parse_mounts-AllNew scope names targets [] mounts h =
      let same : mounts ≡ [] = ground arith in rw same (tt, refl)
  parse_mounts-AllNew scope names targets (value ∷ values) mounts h =
      let (m, e1, h1) = bind-some _ _ mounts h in
      let (u2, e2, h2) = bind-some _ _ mounts h1 in
      let (u3, e3, h3) = bind-some _ _ mounts h2 in
      let (ms, e4, h4) = bind-some _ _ mounts h3 in
      let named = require-some _ u2 e2 in
      let placed = require-some _ u3 e3 in
      let (later, long) =
        parse_mounts-AllNew scope (m.logical_name ∷ names) (m.target ∷ targets) values ms e4 in
      let same : mounts ≡ (m ∷ ms) = ground arith in
      rw same
        ((parse_mount-IsValid scope value m e1, ground arith, ground arith, later), ap suc long)

  parse_root-AllNew :
      (scope : MountScope) (value : Json) (mounts : List MountRequest)
      → parse_mount_root normpath scope value ≡ some mounts
      → AllNew scope [] [] mounts × (length mounts ≤ 16)
  unfolding parse_mount_root
  parse_root-AllNew scope value mounts h =
      let (root, e1, h1) = bind-some _ _ mounts h in
      let (u2, e2, h2) = bind-some _ _ mounts h1 in
      let (version, e3, h3) = bind-some _ _ mounts h2 in
      let (schema_version, e4, h4) = bind-some _ _ mounts h3 in
      let (u5, e5, h5) = bind-some _ _ mounts h4 in
      let (declared, e6, h6) = bind-some _ _ mounts h5 in
      let (u7, e7, h7) = bind-some _ _ mounts h6 in
      let (raw, e8, h8) = bind-some _ _ mounts h7 in
      let (values, e9, h9) = bind-some _ _ mounts h8 in
      let (u10, e10, h10) = bind-some _ _ mounts h9 in
      let (new, long) = parse_mounts-AllNew scope [] [] values mounts h10 in
      (new, rw long (leb→le _ _ (require-some _ u10 e10)))

  AllNew-All :
      (scope : MountScope) (names targets : List String) (mounts : List MountRequest)
      → AllNew scope names targets mounts
      → All (IsValid scope) mounts
  AllNew-All scope names targets [] h = tt
  AllNew-All scope names targets (m ∷ ms) (valid, n, t, later) =
      (valid, AllNew-All scope _ _ ms later)

  AllNew-absent_name :
      (scope : MountScope) (names targets : List String) (mounts : List MountRequest) (n : String)
      → AllNew scope names targets mounts
      → mem n names ≡ true
      → mem n (map (λ m. m.logical_name) mounts) ≡ false
  AllNew-absent_name scope names targets [] n h seen = refl
  AllNew-absent_name scope names targets (m ∷ ms) n (valid, fresh, t, later) seen =
      let rest =
        AllNew-absent_name scope (m.logical_name ∷ names) (m.target ∷ targets) ms n later
          (ground arith) in
      ground (arith, str_eq_iff m.logical_name n)

  AllNew-names :
      (scope : MountScope) (names targets : List String) (mounts : List MountRequest)
      → AllNew scope names targets mounts
      → no_repeat (map (λ m. m.logical_name) mounts) ≡ true
  unfolding no_repeat
  AllNew-names scope names targets [] h = refl
  AllNew-names scope names targets (m ∷ ms) (valid, n, t, later) =
      let rest = AllNew-names scope (m.logical_name ∷ names) (m.target ∷ targets) ms later in
      let fresh =
        AllNew-absent_name scope (m.logical_name ∷ names) (m.target ∷ targets) ms m.logical_name
          later (ground (arith, (str_eq_iff m.logical_name m.logical_name).1 refl)) in
      ground arith

  AllNew-absent_target :
      (scope : MountScope) (names targets : List String) (mounts : List MountRequest) (n : String)
      → AllNew scope names targets mounts
      → mem n targets ≡ true
      → mem n (map (λ m. m.target) mounts) ≡ false
  AllNew-absent_target scope names targets [] n h seen = refl
  AllNew-absent_target scope names targets (m ∷ ms) n (valid, t, fresh, later) seen =
      let rest =
        AllNew-absent_target scope (m.logical_name ∷ names) (m.target ∷ targets) ms n later
          (ground arith) in
      ground (arith, str_eq_iff m.target n)

  AllNew-targets :
      (scope : MountScope) (names targets : List String) (mounts : List MountRequest)
      → AllNew scope names targets mounts
      → no_repeat (map (λ m. m.target) mounts) ≡ true
  unfolding no_repeat
  AllNew-targets scope names targets [] h = refl
  AllNew-targets scope names targets (m ∷ ms) (valid, n, t, later) =
      let rest = AllNew-targets scope (m.logical_name ∷ names) (m.target ∷ targets) ms later in
      let fresh =
        AllNew-absent_target scope (m.logical_name ∷ names) (m.target ∷ targets) ms m.target later
          (ground (arith, (str_eq_iff m.target m.target).1 refl)) in
      ground arith

  parse-mount_value :
      (scope : MountScope) (m : MountRequest)
      → IsValid scope m
      → parse_mount normpath scope (mount_value m) ≡ some m
  unfolding parse_mount mount_value require_object members require_exact_keys lookup as_text ◌>>=◌
  parse-mount_value scope m v = rw (v.valid_name, v.valid_target) (rw (v.same_scope) refl)

  parse_mounts-values :
      (scope : MountScope) (names targets : List String) (mounts : List MountRequest)
      → AllNew scope names targets mounts
      → parse_mounts normpath scope names targets (map mount_value mounts) ≡ some mounts
  unfolding parse_mounts ◌>>=◌
  parse_mounts-values scope names targets [] h = refl
  parse_mounts-values scope names targets (m ∷ ms) (valid, n, t, later) =
      rw
        (
          parse-mount_value scope m valid,
          n,
          t,
          parse_mounts-values scope (m.logical_name ∷ names) (m.target ∷ targets) ms later,
        )
        refl

  items-to_items : (values : List Json) → items (to_items values) ≡ values
  unfolding items to_items
  items-to_items [] = refl
  items-to_items (v ∷ vs) = ap (λ ws. v ∷ ws) (items-to_items vs)

  scope_refl : (scope : MountScope) → scope_eq scope scope ≡ true
  scope_refl MountScope.entry = refl
  scope_refl MountScope.service = refl

  all-scope :
      (scope : MountScope) (mounts : List MountRequest)
      → All (IsValid scope) mounts
      → all (λ m. scope_eq m.scope scope) mounts ≡ true
  all-scope scope [] h = refl
  all-scope scope (m ∷ ms) (v, vs) = rw (v.same_scope, scope_refl scope, all-scope scope ms vs) refl

  parse_root-canonical :
      (scope : MountScope) (mounts : List MountRequest)
      → AllNew scope [] [] mounts
      → length mounts ≤ 16
      → parse_mount_root normpath scope (canonical_value mounts scope) ≡ some mounts
  unfolding parse_mount_root require_object members require_exact_keys lookup as_text as_number
      as_items ◌>>=◌
  parse_root-canonical scope mounts new long =
      let short : leb (length (map mount_value mounts)) 16 ≡ true =
        rw (length-map mounts mount_value) (ground arith) in
      rw
        (
          (str_eq_iff (scope_name scope) (scope_name scope)).1 refl,
          items-to_items (map mount_value mounts),
          short,
        )
        (parse_mounts-values scope [] [] mounts new)

  module _ (loads : String → Option Json) (byte_length : String → ℕ) where
    parse-AllNew :
        (scope : MountScope) (raw : RawConfig) (mounts : List MountRequest)
        → parse_mount_config normpath loads byte_length scope raw ≡ some mounts
        → AllNew scope [] [] mounts × (length mounts ≤ 16)
    unfolding parse_mount_config
    parse-AllNew scope absent mounts h =
        let same : mounts ≡ [] = ground arith in rw same (tt, omega arith)
    parse-AllNew scope (decoded value) mounts h = parse_root-AllNew scope value mounts h
    parse-AllNew scope (written raw) mounts h = elim (Bool-cases (str_eq raw "")) [
      | inl e ↦ let same : mounts ≡ [] = ground arith in rw same (tt, omega arith)
      | inr e ↦
          let (value, e1, h1) =
            bind-some (parse_json normpath loads byte_length 16384 raw) _ mounts
              (rw (parse_mount_config, e) at h) in
          parse_root-AllNew scope value mounts h1
    ]

    -- What `parse_mount_config` accepts is at most 16 mounts of the scope, with valid logical names and
    -- targets, of which no two share a name and no two share a target.
    pub parse-no_repeat :
        (scope : MountScope) (raw : RawConfig) (mounts : List MountRequest)
        → parse_mount_config normpath loads byte_length scope raw ≡ some mounts
        → (length mounts ≤ 16)
          × All (IsValid scope) mounts
          × (no_repeat (map (λ m. m.logical_name) mounts) ≡ true)
          × (no_repeat (map (λ m. m.target) mounts) ≡ true)
    parse-no_repeat scope raw mounts h =
        let (new, long) = parse-AllNew scope raw mounts h in
        (
          long,
          AllNew-All scope [] [] mounts new,
          AllNew-names scope [] [] mounts new,
          AllNew-targets scope [] [] mounts new,
        )

    -- What `parse_mount_config` accepts is written to a canonical text. If `json.loads` reads back the
    -- value that `json.dumps` wrote, which is no empty text, the canonical text is parsed to the same
    -- mounts if it has at most 16384 bytes, and is refused if it has more.
    pub canonical-parse :
        (dumps : Json → String) (scope : MountScope) (raw : RawConfig) (mounts : List MountRequest)
        → parse_mount_config normpath loads byte_length scope raw ≡ some mounts
        → loads (dumps (canonical_value mounts scope)) ≡ some (canonical_value mounts scope)
        → str_eq (dumps (canonical_value mounts scope)) "" ≡ false
        → (written_text : String) × (canonical_mount_config dumps mounts scope ≡ some written_text)
          × (parse_mount_config normpath loads byte_length scope (written written_text)
              ≡ (if leb (byte_length written_text) 16384 then some mounts else none))
    unfolding parse_mount_config canonical_mount_config parse_json ◌>>=◌
    canonical-parse dumps scope raw mounts h read filled =
        let (new, long) = parse-AllNew scope raw mounts h in
        let canonical = dumps (canonical_value mounts scope) in
        (
          canonical,
          rw (all-scope scope mounts (AllNew-All scope [] [] mounts new)) refl,
          elim (Bool-cases (leb (byte_length canonical) 16384)) [
            | inl short ↦
                rw (parse_mount_config, filled, parse_json, short, read)
                  (parse_root-canonical scope mounts new long)
            | inr over ↦ rw (parse_mount_config, filled, parse_json, over) refl
          ],
        )
