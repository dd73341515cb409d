-- ===== src/Placement/Demand.antt =====
-- Whether a worker has room for one more runner: the tests of `choose` on slots and memory
-- (dashboard/control/placement.py).
use nomercy_github_runner.Prelude.{
  ℕ, ◌+◌, ◌*◌, max, Bool, false, not, ◌||◌, Option, none, some, List, any, length, ltb, leb, ◌==◌,
  if◌then◌else◌,
}
use nomercy_github_runner.Placement.Worker.{
  Number, Runtime, Spec, Worker, is_negative, linux_container, number_or_zero, runtime_eq, to_nat,
}
use nomercy_github_runner.Placement.Suits.{
  Reason, ceiling_too_high, full, invalid_commitment, invalid_overhead, no_ram_for_unswappable,
  not_enough_memory, sum_of, swap_below_ram, unknown_memory,
}

abbrev pub reaches : ℕ → Option Number → Bool
reaches count none = false
reaches count (some slots) = leb (to_nat slots) count

-- int(spec.get("memory_swap_limit") or want_memory)
abbrev pub want_swap : Spec → ℕ
want_swap s = if s.memory_swap_limit == 0 then s.memory_limit else s.memory_swap_limit

abbrev pub unswappable : Spec → ℕ
unswappable s = if leb s.memory_swap_limit s.memory_limit then s.memory_limit else 0

abbrev pub committed : Spec → ℕ
committed s = max s.memory_limit s.memory_swap_limit

abbrev pub some_unlimited : List Spec → Bool
some_unlimited placed = any (λ s. s.memory_limit == 0) placed

-- The last two tests, against a total: the memory in use and the demand of the new runner.
abbrev pub against : ℕ → ℕ → Spec → List Spec → ℕ → Option Reason
against memory demand s mine total =
    if s.memory_limit == 0 || some_unlimited mine
    then some unknown_memory
    else if ltb total (memory + demand)
    then some not_enough_memory
    else none

abbrev pub is_container : Option Runtime → Bool
is_container none = false
is_container (some r) = runtime_eq r linux_container

abbrev invalid_budget : Worker → ℕ → ℕ → ℕ → Bool
invalid_budget w commit physical swap =
    not w.bounded_overcommit
    || (not (is_container w.kind)
        || (physical == 0 || (swap == 0 || (commit == 0 || ltb (physical + swap) commit))))

-- Room under an explicit commitment.
unfoldable pub no_room_committed : Spec → List Spec → Worker → ℕ → Option Reason
no_room_committed s mine w commit =
    let physical = to_nat (number_or_zero w.memory_bytes) in
    let swap = to_nat (number_or_zero w.swap_bytes) in
    let own = if want_swap s == s.memory_limit then s.memory_limit else 0 in
    if invalid_budget w commit physical swap
    then some invalid_commitment
    else if ltb physical s.memory_limit
    then some ceiling_too_high
    else if ltb (want_swap s) s.memory_limit
    then some swap_below_ram
    else if ltb physical (sum_of unswappable mine + own)
    then some no_ram_for_unswappable
    else against (sum_of committed mine) (want_swap s) s mine commit

-- Room under the memory that the worker declares, each runner with an overhead.
unfoldable pub no_room_declared : Spec → List Spec → Worker → Option Reason
no_room_declared s mine w =
    let overhead = number_or_zero w.per_runner_memory_overhead_bytes in
    let each = to_nat overhead in
    if is_negative overhead then some invalid_overhead else elim w.memory_bytes [
      | none ↦ none
      | some total ↦
          against (sum_of (λ p. p.memory_limit) mine + length mine * each) (s.memory_limit + each) s
            mine (to_nat total)
    ]

unfoldable pub no_room : Spec → List Spec → Worker → Option Reason
unfolding no_room_committed no_room_declared
no_room s mine w =
    if reaches (length mine) w.max_runners then some full else elim w.memory_commit_bytes [
      | some commit ↦ no_room_committed s mine w (to_nat commit)
      | none ↦ no_room_declared s mine w
    ]
