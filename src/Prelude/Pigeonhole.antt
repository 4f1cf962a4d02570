-- ===== src/Prelude/Pigeonhole.antt =====
-- Lists of different numbers: below a bound there is room for no more than the bound.
use Prim.Native.Nat.{ℕ, zero, suc, ◌≤◌, ◌<◌}
use mathlib.Core.Path.{◌≡◌}
use mathlib.Core.Logic.{inl, inr}
use mathlib.Core.Bool.{false}
use mathlib.Core.List.{List, [], ◌∷◌}
use native.Mathlib.Omega.{arith}
use ctfd_challenge_container.Prelude.Tests.{if◌then◌else◌, ◌==◌, Bool-cases}
use ctfd_challenge_container.Prelude.Lists.{length, All}

abbrev pub Differs : ℕ → List ℕ → Type 0
Differs a [] = Unit
Differs a (b ∷ bs) = ((a == b) ≡ false) × Differs a bs

abbrev pub Distinct : List ℕ → Type 0
Distinct [] = Unit
Distinct (a ∷ ns) = Differs a ns × Distinct ns

without : ℕ → List ℕ → List ℕ
without n [] = []
without n (a ∷ ns) = if a == n then ns else a ∷ without n ns

length-without : (n : ℕ) (ns : List ℕ) → length ns ≤ suc (length (without n ns))
unfolding without
length-without n [] = omega arith
length-without n (a ∷ ns) = ground (arith, length-without n ns)

Differs-without : (n a : ℕ) (ns : List ℕ) → Differs a ns → Differs a (without n ns)
unfolding without
Differs-without n a [] h = tt
Differs-without n a (b ∷ ns) h = ground (arith, Differs-without n a ns h.1)

Distinct-without : (n : ℕ) (ns : List ℕ) → Distinct ns → Distinct (without n ns)
unfolding without
Distinct-without n [] h = tt
Distinct-without n (a ∷ ns) h =
    ground (arith, Distinct-without n ns h.1, Differs-without n a ns h.0)

All-below_of_Differs :
    (n : ℕ) (ns : List ℕ) → Differs n ns → All (λ a. a < suc n) ns → All (λ a. a < n) ns
All-below_of_Differs n [] h b = tt
All-below_of_Differs n (a ∷ ns) h b = (ground arith, All-below_of_Differs n ns h.1 b.1)

All-below_without :
    (n : ℕ) (ns : List ℕ) → Distinct ns → All (λ a. a < suc n) ns → All (λ a. a < n) (without n ns)
unfolding without
All-below_without n [] h b = tt
All-below_without n (a ∷ ns) h b = elim (Bool-cases (a == n)) [
  | inl e ↦ let same : a ≡ n = ground arith in rw e (All-below_of_Differs n ns (rw same at h.0) b.1)
  | inr e ↦ rw e (ground arith, All-below_without n ns h.1 b.1)
]

-- The pigeonhole principle.
pub length-Distinct : (n : ℕ) (ns : List ℕ) → Distinct ns → All (λ a. a < n) ns → length ns ≤ n
length-Distinct n [] h b = omega arith
length-Distinct zero (a ∷ ns) h b = absurd (omega arith)
length-Distinct (suc n) (a ∷ ns) h b = omega (
  arith,
  length-without n (a ∷ ns),
  length-Distinct n (without n (a ∷ ns)) (Distinct-without n (a ∷ ns) h)
      (All-below_without n (a ∷ ns) h b),
)
