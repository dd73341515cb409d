-- ===== src/Tests/Cores.antt =====
-- Instances of the theorems on cpusets.py.
use nomercy_github_runner.Prelude.{ℕ, ◌≡◌, refl, ◌<◌, List, [], ◌∷◌, arith, max}
use nomercy_github_runner.Cpusets.{
  ok, parse, window, has_core, allocate, key_of, key_lt, best_of, count_covers,
}
use nomercy_github_runner.Cpusets.Windows.{parse-window, window_cores}
use nomercy_github_runner.Cpusets.Least.{allocate_least, NoWorse, named_at}

-- The last three cores and the first one of a host of eight.
parse-window_example :
    (set : List ℕ) × (parse (window 5 4 8) ≡ ok set)
    × ((c : ℕ) → has_core c set ≡ has_core c (window_cores 5 8 0 4))
parse-window_example = parse-window 5 4 8 (omega arith) (omega arith)

abbrev used : List (List ℕ)
used = (0 ∷ 1 ∷ []) ∷ (1 ∷ 2 ∷ []) ∷ []

-- The cores 2 and 3 are the window of the least cover.
chosen : allocate 2 4 used ≡ ok (window 2 2 4)
unfolding allocate best_of key_of key_lt count_covers
chosen = refl

allocate_least_example :
    (start : ℕ) × (start < 4)
    × (allocate 2 4 used ≡ ok (window start (max 1 2) 4))
    × ((other : ℕ) → other < 4 → NoWorse (named_at used 4) (max 1 2) start other)
allocate_least_example = allocate_least 2 4 used (omega arith) (omega arith)
