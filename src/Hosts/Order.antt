-- ===== src/Hosts/Order.antt =====
-- The probes of the health checks of all workers, in any order (src/orchestrator.py).
use mathlib.Core.List.{Permᴰ}
use ctfd_challenge_container.Prelude.{
  ℕ, true, false, ◌≡◌, refl, sym, ap, ◌∙◌, String, Option, none, some, List, [], ◌∷◌, ◌==◌, ltb,
  subst, All, if◌then◌else◌, arith, Bool-cases, Option-cases, inl, inr, str_eq,
}
use ctfd_challenge_container.Schema.{DockerContext}
use ctfd_challenge_container.Table.{update_where, rewritten, count_where}
use ctfd_challenge_container.Table.Laws.{All-imp}
use ctfd_challenge_container.Hosts.{
  Hosts, Probe, by_name, is_newer, checked, replaces, check_context, health_check,
}

-- The id under which a name stands in the table.
abbrev id_of : Option DockerContext → Option ℕ
id_of none = none
id_of (some c) = some c.id

abbrev id_at : String → List DockerContext → Option ℕ
id_at name contexts = id_of (by_name name contexts)

-- What a probe does to the table.
abbrev recorded : Probe → Option ℕ → List DockerContext → List DockerContext
recorded probe none contexts = contexts
recorded probe (some id) contexts = update_where (replaces probe id) (checked probe) contexts

id_at-update_where :
    (probe : Probe) (id : ℕ) (name : String) (contexts : List DockerContext)
    → id_at name (update_where (replaces probe id) (checked probe) contexts) ≡ id_at name contexts
unfolding update_where checked
id_at-update_where probe id name [] = refl
id_at-update_where probe id name (c ∷ contexts) = elim (Bool-cases (replaces probe id c)) [
  | inl e ↦ elim (Bool-cases (str_eq c.context_name name)) [
    | inl f ↦ rw (e, f) refl
    | inr f ↦ rw (e, f) (id_at-update_where probe id name contexts)
  ]
  | inr e ↦ elim (Bool-cases (str_eq c.context_name name)) [
    | inl f ↦ rw (e, f) refl
    | inr f ↦ rw (e, f) (id_at-update_where probe id name contexts)
  ]
]

id_at-recorded :
    (probe : Probe) (found : Option ℕ) (name : String) (contexts : List DockerContext)
    → id_at name (recorded probe found contexts) ≡ id_at name contexts
id_at-recorded probe none name contexts = refl
id_at-recorded probe (some id) name contexts = id_at-update_where probe id name contexts

-- Two probes that began at the same time had the same result.
abbrev pub Agree : Probe → Probe → Type 0
Agree p q = p.started ≡ q.started → p.reachable ≡ q.reachable

newer_lt :
    (s t : ℕ) (at : Option ℕ) → is_newer s at ≡ true → is_newer t at ≡ false → ltb s t ≡ false
unfolding is_newer
newer_lt s t none h k = ground arith
newer_lt s t (some n) h k = ground arith

checked_same :
    (p q : Probe) (c : DockerContext)
    → p.started ≡ q.started
    → p.reachable ≡ q.reachable
    → checked p c ≡ checked q c
unfolding checked
checked_same p q c h k = rw (h, k) refl

-- Both results are newer than the row.
both_swap :
    (p q : Probe) (c : DockerContext)
    → Agree p q
    → (if ltb p.started q.started then checked q c else checked p c)
      ≡ (if ltb q.started p.started then checked p c else checked q c)
both_swap p q c h = elim (Bool-cases (ltb p.started q.started)) [
  | inl e ↦ let back : ltb q.started p.started ≡ false = ground arith in rw (e, back) refl
  | inr e ↦ elim (Bool-cases (ltb q.started p.started)) [
    | inl f ↦ rw (e, f) refl
    | inr f ↦
        let same : p.started ≡ q.started = ground arith in
        rw (e, f) (checked_same p q c same (h same))
  ]
]

newer_than : (s t : ℕ) → is_newer s (some t) ≡ ltb t s
unfolding is_newer
newer_than s t = refl

row_swap :
    (p q : Probe) (i j : ℕ) (c : DockerContext)
    → Agree p q
    → rewritten (replaces q j) (checked q) (rewritten (replaces p i) (checked p) c)
      ≡ rewritten (replaces p i) (checked p) (rewritten (replaces q j) (checked q) c)
unfolding checked
row_swap p q i j c h = elim (Bool-cases (c.id == i)) [
  | inr e ↦ elim (Bool-cases (replaces q j c)) [
    | inl f ↦ rw (e, f, e) refl
    | inr f ↦ rw (e, f, e) refl
  ]
  | inl e ↦ elim (Bool-cases (c.id == j)) [
    | inr f ↦ elim (Bool-cases (replaces p i c)) [
      | inl g ↦ rw (f, g, f) refl
      | inr g ↦ rw (f, g, f) refl
    ]
    | inl f ↦ elim (Bool-cases (is_newer p.started c.health_checked_at)) [
      | inl g ↦ elim (Bool-cases (is_newer q.started c.health_checked_at)) [
        | inl k ↦
            rw (e, f, g, k, newer_than q.started p.started, newer_than p.started q.started) rw
              (f, e) (both_swap p q c h)
        | inr k ↦
            rw (e, f, g, k, newer_than q.started p.started) rw
              (newer_lt p.started q.started c.health_checked_at g k, e, f, g) refl
      ]
      | inr g ↦ elim (Bool-cases (is_newer q.started c.health_checked_at)) [
        | inl k ↦
            rw (e, f, g, k, newer_than p.started q.started) rw
              (newer_lt q.started p.started c.health_checked_at k g, e, f) refl
        | inr k ↦ rw (e, f, g, k, e, f, g) refl
      ]
    ]
  ]
]

recorded_swap :
    (p q : Probe) (found found' : Option ℕ) (contexts : List DockerContext)
    → Agree p q
    → recorded q found' (recorded p found contexts) ≡ recorded p found (recorded q found' contexts)
unfolding update_where
recorded_swap p q none found' contexts h = refl
recorded_swap p q (some i) none contexts h = refl
recorded_swap p q (some i) (some j) [] h = refl
recorded_swap p q (some i) (some j) (c ∷ contexts) h =
    rw (row_swap p q i j c h, recorded_swap p q (some i) (some j) contexts h) refl

-- The table after one probe, and after several.
abbrev table : Probe → List DockerContext → List DockerContext
table p contexts = recorded p (id_at p.context_name contexts) contexts

unfoldable run : List Probe → List DockerContext → List DockerContext
run [] contexts = contexts
run (p ∷ ps) contexts = run ps (table p contexts)

table_swap :
    (p q : Probe) (contexts : List DockerContext)
    → Agree p q
    → table q (table p contexts) ≡ table p (table q contexts)
table_swap p q contexts h =
    rw
      (
        id_at-recorded p (id_at p.context_name contexts) q.context_name contexts,
        id_at-recorded q (id_at q.context_name contexts) p.context_name contexts,
      )
      (recorded_swap p q (id_at p.context_name contexts) (id_at q.context_name contexts) contexts h)

check_context-contexts :
    (p : Probe) (hosts : Hosts) → (check_context p hosts).1.contexts ≡ table p hosts.contexts
unfolding check_context
check_context-contexts p hosts = elim (Option-cases (by_name p.context_name hosts.contexts)) [
  | inl e ↦ rw (check_context, e) refl
  | inr (c, e) ↦ elim (Bool-cases (count_where (replaces p c.id) hosts.contexts == 1)) [
    | inl f ↦ rw (check_context, e, f) refl
    | inr f ↦ rw (check_context, e, f) refl
  ]
]

health_check-contexts :
    (ps : List Probe) (hosts : Hosts) → (health_check ps hosts).1.contexts ≡ run ps hosts.contexts
unfolding health_check run
health_check-contexts [] hosts = refl
health_check-contexts (p ∷ ps) hosts =
    health_check-contexts ps (check_context p hosts).1
    ∙ ap (run ps) (check_context-contexts p hosts)

abbrev pub AllAgree : List Probe → Type 0
AllAgree ps = All (λ p. All (Agree p) ps) ps

All-Permᴰ : (P : Probe → Type 0) (ps qs : List Probe) → Permᴰ ps qs → All P ps → All P qs
All-Permᴰ P ps qs Permᴰ.nil h = tt
All-Permᴰ P (p ∷ ps) (q ∷ qs) (Permᴰ.cons e d) h = (subst P e h.0, All-Permᴰ P ps qs d h.1)
All-Permᴰ P (p ∷ q ∷ ps) (q' ∷ p' ∷ qs) (Permᴰ.swap e f) h =
    (subst P f h.1.0, (subst P e h.0, h.1.1))
All-Permᴰ P ps qs (Permᴰ.trans d d') h = All-Permᴰ P _ qs d' (All-Permᴰ P ps _ d h)

AllAgree-Permᴰ : (ps qs : List Probe) → Permᴰ ps qs → AllAgree ps → AllAgree qs
AllAgree-Permᴰ ps qs d h =
    All-imp (λ p. All (Agree p) ps) (λ p. All (Agree p) qs) qs (λ p. All-Permᴰ (Agree p) ps qs d)
      (All-Permᴰ (λ p. All (Agree p) ps) ps qs d h)

run-Permᴰ :
    (ps qs : List Probe) (contexts : List DockerContext)
    → Permᴰ ps qs
    → AllAgree ps
    → run ps contexts ≡ run qs contexts
unfolding run
run-Permᴰ ps qs contexts Permᴰ.nil h = refl
run-Permᴰ (p ∷ ps) (q ∷ qs) contexts (Permᴰ.cons e d) h =
    run-Permᴰ ps qs (table p contexts) d
      (All-imp (λ a. All (Agree a) (p ∷ ps)) (λ a. All (Agree a) ps) ps (λ a k. k.1) h.1)
    ∙ ap (λ x. run qs (table x contexts)) e
run-Permᴰ (p ∷ q ∷ ps) (q' ∷ p' ∷ qs) contexts (Permᴰ.swap e f) h =
    ap (run ps) (table_swap p q contexts h.0.1.0)
    ∙ ap (λ x. run ps (table p (table x contexts))) f
    ∙ ap (λ x. run ps (table x (table q' contexts))) e
run-Permᴰ ps qs contexts (Permᴰ.trans d d') h =
    run-Permᴰ ps _ contexts d h ∙ run-Permᴰ _ qs contexts d' (AllAgree-Permᴰ ps _ d h)

-- Whatever the memories of the workers, and in whatever order the same probes are recorded, the table
-- of contexts ends up the same, if probes that began at the same time had the same result.
pub health_check_order :
    (ps qs : List Probe) (hosts hosts' : Hosts)
    → hosts.contexts ≡ hosts'.contexts
    → Permᴰ ps qs
    → AllAgree ps
    → (health_check ps hosts).1.contexts ≡ (health_check qs hosts').1.contexts
health_check_order ps qs hosts hosts' same d h =
    health_check-contexts ps hosts
    ∙ run-Permᴰ ps qs hosts.contexts d h
    ∙ ap (run qs) same
    ∙ sym (health_check-contexts qs hosts')
