-- ===== src/Reconciler/Decide/Safety.antt =====
-- What `decide` never asks for.
use nomercy_github_runner.Prelude.{Bool, false, true, ◌≡◌, Option, none, some, List, arith}
use nomercy_github_runner.States.Names.{State, Verb}
use nomercy_github_runner.States.Edges.{aborts_a_job, can}
use nomercy_github_runner.Reconciler.Decide.{View, Phase, decide}
use nomercy_github_runner.Reconciler.Steps.{first_move, last_move, entry}

-- Whatever the operation, the progress and the desired state, the decided step never aborts a job.
pub decide_never_aborts :
    (s : View) (verb : Option Verb) (done : List Phase) (action : Verb)
    → decide s verb done ≡ some action
    → aborts_a_job action s.actual ≡ false
unfolding decide aborts_a_job
decide_never_aborts s verb done action h = ground arith

-- A move that the machine has an edge for; a step that makes none asks nothing.
abbrev pub permits : State → Option State → Bool
permits s none = true
permits s (some to) = can (some s) to

permits-first :
    (s : View) (verb : Option Verb) (done : List Phase) (action : Verb)
    → decide s verb done ≡ some action
    → permits s.actual (first_move action s.actual) ≡ true
unfolding decide first_move can
permits-first s verb done action h = ground arith

permits-last :
    (s : View) (verb : Option Verb) (done : List Phase) (action : Verb) (recreating : Bool)
    → decide s verb done ≡ some action
    → permits (entry action s.actual) (last_move action recreating) ≡ true
unfolding decide first_move last_move entry can
permits-last s verb done action recreating h = ground arith

-- No `_move` of a decided step is refused by the machine. The first move, where the step makes one
-- before it acts, is an edge from the runner's state (one that makes none finds the runner where an
-- interrupted step had moved it, or moves only at its end); and the move at its end, where the step
-- makes one, is an edge from the state that it had entered.
pub can-entry :
    (s : View) (verb : Option Verb) (done : List Phase) (action : Verb) (recreating : Bool)
    → decide s verb done ≡ some action
    → (permits s.actual (first_move action s.actual) ≡ true)
      × (permits (entry action s.actual) (last_move action recreating) ≡ true)
can-entry s verb done action recreating h =
    (permits-first s verb done action h, permits-last s verb done action recreating h)
