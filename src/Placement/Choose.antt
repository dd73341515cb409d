-- ===== src/Placement/Choose.antt =====
-- `choose` over all the workers (dashboard/control/placement.py).
use nomercy_github_runner.Prelude.{
  ℕ, Bool, not, ◌&&◌, ◌||◌, Option, none, some, List, [], ◌∷◌, keep, length, ltb, ◌==◌,
  if◌then◌else◌,
}
use nomercy_github_runner.States.Names.{State, state_eq}
use nomercy_github_runner.Placement.Worker.{Spec, Worker}
use nomercy_github_runner.Placement.Suits.{Reason, misfit, occupants}
use nomercy_github_runner.Placement.Demand.{no_room}

abbrev or_reason : Option Reason → Option Reason → Option Reason
or_reason none b = b
or_reason (some a) b = some a

-- The body of the loop of `choose` for one worker.
unfoldable pub why_not : (List ℕ → Option ℕ) → Spec → List Spec → Worker → Option Reason
why_not float_of s placed w =
    or_reason (misfit float_of s w) (no_room s (occupants w.host_id placed) w)

-- The runners that count: not this one, and not those that are gone.
abbrev pub counts : Spec → Spec → Bool
counts s p = not (p.runner_id == s.runner_id) && not (state_eq p.actual_state State.absent)

abbrev pub others : Spec → List Spec → List Spec
others s placed = keep (counts s) placed

-- What `choose` answers: a host, no worker at all, or each worker's reason.
pub data Chosen : Type 0 where
  on : ℕ → Chosen
  no_workers : Chosen
  no_worker_has_room : List (ℕ × Reason) → Chosen

-- A worker that fits: how many runners it has, and its host. Tuples are compared in this order.
abbrev pub less : ℕ × ℕ → ℕ × ℕ → Bool
less a b = ltb a.0 b.0 || (a.0 == b.0 && ltb a.1 b.1)

abbrev pub lesser : ℕ × ℕ → Option (ℕ × ℕ) → ℕ × ℕ
lesser a none = a
lesser a (some b) = if less b a then b else a

-- min(fits), where there is one
unfoldable pub least_fit : (Worker → Option Reason) → (Worker → ℕ) → List Worker → Option (ℕ × ℕ)
least_fit why count [] = none
least_fit why count (w ∷ workers) =
    let rest = least_fit why count workers in
    elim (why w) [ none ↦ some (lesser (count w, w.host_id) rest) | some r ↦ rest ]

unfoldable pub reasons : (Worker → Option Reason) → List Worker → List (ℕ × Reason)
reasons why [] = []
reasons why (w ∷ workers) =
    let rest = reasons why workers in elim (why w) [ none ↦ rest | some r ↦ (w.host_id, r) ∷ rest ]

abbrev pub answer : Option (ℕ × ℕ) → List (ℕ × Reason) → Chosen
answer (some fit) why = on fit.1
answer none [] = no_workers
answer none (r ∷ why) = no_worker_has_room (r ∷ why)

unfoldable pub choose : (List ℕ → Option ℕ) → Spec → List Worker → List Spec → Chosen
choose float_of s workers all_placed =
    let placed = others s all_placed in
    let why = why_not float_of s placed in
    let count = λ (w : Worker). length (occupants w.host_id placed) in
    answer (least_fit why count workers) (reasons why workers)
