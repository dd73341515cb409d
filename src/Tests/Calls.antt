-- ===== src/Tests/Calls.antt =====
-- Instances of the theorems on retry.py.
use nomercy_github_runner.Prelude.{
  ℕ, zero, suc, ◌≡◌, ◌≤◌, ◌<◌, true, false, refl, Option, none, some, [], arith, if◌then◌else◌,
  ◌==◌,
}
use nomercy_github_runner.Retry.{
  Answer, returned, late, deadline_exceeded, caught, records, Cache, cached, Read,
}
use nomercy_github_runner.Retry.Cache.{failed_reading_is_unknown}

-- An agent that is late once and then answers.
abbrev slow_start : ℕ → Answer ℕ ℕ
slow_start zero = late
slow_start (suc zero) = late
slow_start (suc (suc i)) = returned 5

first_late : (i : ℕ) → 0 < i → i ≤ 1 → caught i (slow_start i) ≡ some (deadline_exceeded i)
first_late zero p q = refl
first_late (suc zero) p q = refl
first_late (suc (suc i)) p q = absurd (omega arith)

-- An agent that never answers.
abbrev never : ℕ → Answer ℕ ℕ
never i = late

abbrev silent : ℕ → Answer (Option ℕ) ℕ
silent i = late

abbrev nothing_cached : Cache ℕ
nothing_cached = []

failed_reading_is_unknown_example :
    let (v, c', called) = records 30 7 100 silent nothing_cached in
    (v ≡ Read.answer none)
    × (called ≡ true)
    × (records 30 7 120 silent c' ≡ (Read.answer none, c', false))
    × (cached 7 c' ≡ (if 7 == 7 then some (100, none) else cached 7 nothing_cached))
failed_reading_is_unknown_example =
    failed_reading_is_unknown 30 7 100 silent nothing_cached 7 120 silent (deadline_exceeded 1) refl
      refl (omega arith) (omega arith)
