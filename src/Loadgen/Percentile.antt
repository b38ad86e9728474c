-- ===== src/Loadgen/Percentile.antt =====
-- apps/loadgen/generator.py: which of the latencies `LoadStats.percentile` returns.
use swarmscope.Base.{ℕ, ◌+◌, ◌*◌, ◌%◌, ◌⊎◌, ◌≤◌, ◌≡◌, List, [], ◌∷◌, min, max, All}

-- every element stands before larger ones
abbrev IsSorted : List ℕ → Type 0
IsSorted [] = Unit
IsSorted (x ∷ xs) = All (λ y. x ≤ y) xs × IsSorted xs

-- `k` is a nearest number to `a / d`, and an even one if `a / d` lies halfway between two.
abbrev pub IsNearest : ℕ → ℕ → ℕ → Type 0
IsNearest a d k =
    (2 * (k * d) ≤ 2 * a + d)
    × (2 * a ≤ 2 * (k * d) + d)
    × ((2 * (k * d) ≡ 2 * a + d) ⊎ (2 * a ≡ 2 * (k * d) + d) → k % 2 ≡ 0)

-- the rank that is meant: between the first and the last
abbrev pub rank : ℕ → ℕ → ℕ
rank k n = max 1 (min n k)
