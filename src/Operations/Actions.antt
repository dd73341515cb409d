-- ===== src/Operations/Actions.antt =====
-- Sequences of calls of `OperationStore` (dashboard/control/operations.py).
use nomercy_github_runner.Prelude.{ℕ, Option, none, some, List, [], ◌∷◌}
use nomercy_github_runner.Operations.Table.{Note, Progress, Table}
use nomercy_github_runner.Operations.Open.{Request, open_op}
use nomercy_github_runner.Operations.Methods.{
  add_note, attempt, cancel, close, defer, fail, merge_progress, set_progress, succeed,
}
use nomercy_github_runner.Operations.Reports.{Applied, Event, apply_event, recorded, refused}

-- One call of the store, by anyone: the methods above with their arguments.
pub data Action : Type 0 where
  opens : ℕ → ℕ → Request → Action
  notes : ℕ → ℕ → Note → Action
  attempts_it : ℕ → ℕ → Note → Action
  defers : ℕ → ℕ → ℕ → Action
  merges : ℕ → (Progress → Progress) → Action
  sets : ℕ → Progress → Action
  succeeds : ℕ → ℕ → Option ℕ → Action
  fails : ℕ → ℕ → ℕ → Action
  cancels : ℕ → ℕ → ℕ → Action
  reports : ℕ → (ℕ → Option (Option ℕ)) → ℕ → Event → Action

-- A method that raises has written nothing.
abbrev pub or_same : Table → Option Table → Table
or_same t none = t
or_same t (some t') = t'

abbrev pub applied_or : Table → Applied → Table
applied_or t (refused e) = t
applied_or t (recorded t') = t'

unfoldable pub act : Action → Table → Table
unfolding open_op add_note attempt defer merge_progress set_progress close apply_event
act (opens new_id now r) t = (open_op (λ u. u) new_id now r t).1
act (notes now i note) t = or_same t (add_note now i note t)
act (attempts_it now i note) t = or_same t (attempt now i note t)
act (defers now i seconds) t = defer now i seconds t
act (merges i f) t = merge_progress i f t
act (sets i p) t = set_progress i p t
act (succeeds now i r) t = or_same t (succeed now i r t)
act (fails now i e) t = or_same t (fail now i e t)
act (cancels now i e) t = or_same t (cancel now i e t)
act (reports now host_of host event) t = applied_or t (apply_event now host_of host event t)

unfoldable pub acts : List Action → Table → Table
acts [] t = t
acts (a ∷ as') t = acts as' (act a t)
