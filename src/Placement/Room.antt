-- ===== src/Placement/Room.antt =====
-- What a worker that qualifies has room for.
use nomercy_github_runner.Prelude.{
  subst, sym, ℕ, ◌+◌, ◌*◌, ◌≤◌, ◌<◌, ◌≡◌, refl, false, Option, none, some, List, length, arith, inl,
  inr, Bool-cases, Option-cases,
}
use nomercy_github_runner.Placement.Worker.{Number, Spec, Worker, number_or_zero, to_nat}
use nomercy_github_runner.Placement.Suits.{misfit, occupants, sum_of}
use nomercy_github_runner.Placement.Demand.{
  committed, no_room, no_room_committed, no_room_declared, reaches, want_swap,
}
use nomercy_github_runner.Placement.Choose.{why_not}

-- The slots that a worker declares are more than its runners, when it declares any.
abbrev pub HasSlot : ℕ → Option Number → Type 0
HasSlot count none = Unit
HasSlot count (some slots) = count < to_nat slots

-- The memory of the runners on a worker and of the new one, within what the worker declares: a
-- commitment that RAM and swap back, or a total with an overhead for each runner, or no limit.
abbrev pub HasMemory : Spec → List Spec → Worker → Option Number → Option Number → Type 0
HasMemory s mine w (some commit) total =
    (sum_of committed mine + want_swap s ≤ to_nat commit)
    × (to_nat commit ≤ to_nat (number_or_zero total) + to_nat (number_or_zero w.swap_bytes))
    × (s.memory_limit ≤ to_nat (number_or_zero total))
HasMemory s mine w none (some total) =
    sum_of (λ p. p.memory_limit) mine
      + s.memory_limit
      + (length mine + 1) * to_nat (number_or_zero w.per_runner_memory_overhead_bytes)
    ≤ to_nat total
HasMemory s mine w none none = Unit

-- A worker that nothing speaks against has a slot and the memory.
slot_lem : (count : ℕ) (slots : Option Number) → reaches count slots ≡ false → HasSlot count slots
slot_lem count none h = tt
slot_lem count (some slots) h = ground arith

committed_lem :
    (s : Spec) (mine : List Spec) (w : Worker) (commit : Number)
    → no_room_committed s mine w (to_nat commit) ≡ none
    → HasMemory s mine w (some commit) w.memory_bytes
unfolding no_room_committed
committed_lem s mine w commit h = ground arith

suc_times : (n e : ℕ) → (n + 1) * e ≡ n * e + e
suc_times n e = omega arith

declared_lem :
    (s : Spec) (mine : List Spec) (w : Worker) (total : Option Number)
    → w.memory_bytes ≡ total
    → no_room_declared s mine w ≡ none
    → HasMemory s mine w none total
unfolding no_room_declared
declared_lem s mine w none e h = tt
declared_lem s mine w (some total) e h =
    ground
      (arith, suc_times (length mine) (to_nat (number_or_zero w.per_runner_memory_overhead_bytes)))

room_lem :
    (s : Spec) (mine : List Spec) (w : Worker)
    → no_room s mine w ≡ none
    → HasSlot (length mine) w.max_runners × HasMemory s mine w w.memory_commit_bytes w.memory_bytes
unfolding no_room
room_lem s mine w h = elim (Bool-cases (reaches (length mine) w.max_runners)) [
  | inl full ↦ absurd (ground arith)
  | inr slot ↦ (
    slot_lem (length mine) w.max_runners slot,
    elim (Option-cases w.memory_commit_bytes) [
      | inl e ↦
          subst (λ c. HasMemory s mine w c w.memory_bytes) (sym e)
            (declared_lem s mine w w.memory_bytes refl (ground arith))
      | inr (commit, e) ↦
          subst (λ c. HasMemory s mine w c w.memory_bytes) (sym e)
            (committed_lem s mine w commit (ground arith))
    ],
  )
]

-- A worker that nothing speaks against has a slot and the memory for the new runner.
pub why_not-none :
    (float_of : List ℕ → Option ℕ) (s : Spec) (placed : List Spec) (w : Worker)
    → why_not float_of s placed w ≡ none
    → (misfit float_of s w ≡ none)
      × HasSlot (length (occupants w.host_id placed)) w.max_runners
      × HasMemory s (occupants w.host_id placed) w w.memory_commit_bytes w.memory_bytes
unfolding why_not
why_not-none float_of s placed w h = elim (Option-cases (misfit float_of s w)) [
  | inl e ↦
      let (slot, memory) = room_lem s (occupants w.host_id placed) w (ground arith) in
      (e, slot, memory)
  | inr (r, e) ↦ absurd (ground arith)
]
