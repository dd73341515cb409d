-- ===== src/Reconciler/Decide.antt =====
-- The function `decide` of dashboard/control/reconciler.py: the next step for one runner. It reads
-- of a spec the actual and the desired state, whether an error is recorded and whether the cache
-- policy drains first; of an operation its verb; of the progress the phases done.
pub mod Safety
pub mod Convergence
use nomercy_github_runner.Prelude.{
  ℕ, Bool, true, false, not, ◌&&◌, ◌||◌, Option, none, some, List, [], ◌∷◌, any, ◌==◌,
  if◌then◌else◌,
}
use nomercy_github_runner.States.Names.{
  State, Verb, busy, cancel_drain, clear_cache, deregister, deregistering, drain, draining, failed,
  idle, in_states, in_verbs, observe, planned, provision, provisioned, provisioning, recreate,
  register, remove, removing, repair, restart, start, starting, state_eq, stop, stopping, verb_eq,
  withdraw,
}
use nomercy_github_runner.States.Edges.{ends_work}

-- What `desired_state` may say. Any other text is read as `running`.
pub data Desired : Type 0 where
  running stopped drained absent : Desired

-- The phases that `_advance` records under "done".
pub data Phase : Type 0 where
  started stopped rebuilding : Phase

abbrev phase_code : Phase → ℕ
phase_code Phase.started = 0
phase_code Phase.stopped = 1
phase_code Phase.rebuilding = 2

abbrev pub in_done : Phase → List Phase → Bool
in_done p = any (λ q. phase_code p == phase_code q)

abbrev desired_code : Desired → ℕ
desired_code Desired.running = 0
desired_code Desired.stopped = 1
desired_code Desired.drained = 2
desired_code Desired.absent = 3

abbrev pub desired_eq : Desired → Desired → Bool
desired_eq a b = desired_code a == desired_code b

-- SERVING and FULFILLED
abbrev pub serving : List State
serving = idle ∷ busy ∷ []

abbrev pub fulfilled : Verb → Option (List State)
fulfilled start = some serving
fulfilled cancel_drain = some serving
fulfilled provision = some serving
fulfilled register = some serving
fulfilled repair = some serving
fulfilled stop = some (State.stopped ∷ [])
fulfilled drain = some (State.drained ∷ [])
fulfilled remove = some (State.absent ∷ [])
fulfilled deregister = some (State.absent ∷ [])
fulfilled _ = none

-- DESTRUCTIVE and NEEDS_HEALTHY_WORKER
abbrev pub destructive : Verb → Bool
destructive action = in_verbs action ends_work

abbrev pub needs_healthy_worker : Verb → Bool
needs_healthy_worker action =
    destructive action
    || in_verbs action (provision ∷ register ∷ clear_cache ∷ start ∷ cancel_drain ∷ [])

-- The spec as `decide` reads it.
pub record View : Type 0 where
  pub actual : State
  pub desired : Desired
  pub has_error : Bool
  pub drain_first : Bool

abbrev is_verb : Option Verb → Verb → Bool
is_verb none v = false
is_verb (some u) v = verb_eq u v

abbrev no_verb : Option Verb → Bool
no_verb none = true
no_verb (some v) = false

-- The last part: the desired state.
by_desired : Desired → State → Option Verb
by_desired Desired.absent actual =
    if state_eq actual planned
    then some withdraw
    else if in_states actual serving
    then some drain
    else if in_states actual (State.drained ∷ State.stopped ∷ [])
    then some deregister
    else if in_states actual (removing ∷ failed ∷ [])
    then some remove
    else some observe
by_desired Desired.stopped actual =
    if in_states actual serving
    then some drain
    else if state_eq actual State.drained
    then some stop
    else if in_states actual (State.stopped ∷ planned ∷ failed ∷ [])
    then none
    else some observe
by_desired Desired.drained actual =
    if in_states actual serving
    then some drain
    else if state_eq actual State.drained
    then some observe
    else if in_states actual (planned ∷ State.stopped ∷ failed ∷ [])
    then none
    else some observe
by_desired Desired.running actual =
    if state_eq actual planned
    then some provision
    else if state_eq actual State.stopped
    then some start
    else if state_eq actual State.drained
    then some cancel_drain
    else if state_eq actual failed
    then none
    else some observe

-- A step that was interrupted is taken again, and a creation is finished, before the desired
-- state is looked at.
by_state : View → Option Verb
unfolding by_desired
by_state s =
    if state_eq s.actual stopping
    then some stop
    else if state_eq s.actual starting
    then some start
    else if state_eq s.actual deregistering
    then some deregister
    else if state_eq s.actual draining
    then some drain
    else if state_eq s.actual provisioning
    then some provision
    else if state_eq s.actual provisioned
    then some register
    else by_desired s.desired s.actual

-- The parts on `restart`, `recreate` and `repair`: a step, or `none` to fall through.
by_restart : View → Option Verb → List Phase → Option Verb
by_restart s verb done =
    if is_verb verb restart && not (in_done Phase.started done)
    then (if in_states s.actual serving
        then some drain
        else if state_eq s.actual State.drained && not (in_done Phase.stopped done)
        then some stop
        else if state_eq s.actual State.stopped
        then some start
        else none)
    else none

by_recreate : View → Option Verb → List Phase → Option Verb
by_recreate s verb done =
    if is_verb verb recreate && not (in_done Phase.rebuilding done)
    then (if in_states s.actual serving
        then some drain
        else if in_states s.actual (State.drained ∷ State.stopped ∷ [])
        then some deregister
        else if in_states s.actual (removing ∷ failed ∷ [])
        then some remove
        else none)
    else none

by_repair : View → Option Verb → Option Verb
by_repair s verb = if is_verb verb repair && state_eq s.actual failed then some repair else none

or_try : Option Verb → Option Verb → Option Verb
or_try (some v) rest = some v
or_try none rest = rest

unfoldable pub decide : View → Option Verb → List Phase → Option Verb
unfolding by_restart by_recreate by_repair by_state or_try
decide s verb done =
    if state_eq s.actual State.absent
    then none
    else if in_states s.actual (removing ∷ deregistering ∷ []) && no_verb verb
    then (if desired_eq s.desired Desired.absent || not s.has_error
        then (if state_eq s.actual removing then some remove else some deregister)
        else none)
    else if is_verb verb clear_cache
    then (if in_states s.actual (idle ∷ draining ∷ []) || (state_eq s.actual busy && s.drain_first)
        then some drain
        else some clear_cache)
    else or_try (by_restart s verb done)
        (or_try (by_recreate s verb done) (or_try (by_repair s verb) (by_state s)))
