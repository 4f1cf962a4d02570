-- ===== src/Coordination/Reserve/Choice.antt =====
-- `random.choice` gives a member of the list.
use ctfd_challenge_container.Prelude.{
  ℕ, ◌≡◌, false, List, [], ◌∷◌, arith, is_empty, All, get_or-All,
}
use ctfd_challenge_container.Coordination.Reserve.{choose}

pub choose-All :
    (P : ℕ → Type 0) (draw : ℕ) (xs : List ℕ) → is_empty xs ≡ false → All P xs → P (choose draw xs)
choose-All P draw [] e h = cc
choose-All P draw (x ∷ xs) e h = get_or-All P (x ∷ xs) _ 0 (omega arith) h
