-- ===== src/Reconciler/Steps.antt =====
-- The steps `_do_provision` to `_do_observe` of dashboard/control/reconciler.py by the states that
-- they write, the closing of an operation, and a pass over one undisturbed runner.
use nomercy_github_runner.Prelude.{
  ℕ, zero, suc, Bool, true, false, Option, none, some, List, [], ◌∷◌, ◌++◌, ◌&&◌, not, is_some,
  if◌then◌else◌,
}
use nomercy_github_runner.States.Names.{
  State, Verb, absent, cancel_drain, clear_cache, deregister, deregistering, drain, drained,
  draining, failed, idle, in_states, provision, provisioned, provisioning, recreate, register,
  registering, remove, removing, repair, restart, start, starting, state_eq, stop, stopped,
  stopping, withdraw,
}
use nomercy_github_runner.States.Edges.{can}
use nomercy_github_runner.States.Asking.{Checked, allows, ok, raised}
use nomercy_github_runner.Reconciler.Decide.{
  Desired, Phase, View, serving, fulfilled, in_done, desired_eq, decide,
}

-- The first `_move` of a step. A re-drive, which finds the runner where the interrupted step had
-- moved it, and a step that moves only at its end make none.
unfoldable pub first_move : Verb → State → Option State
first_move provision s = if state_eq s provisioning then none else some provisioning
first_move register s = some registering
first_move start s = if state_eq s starting then none else some starting
first_move stop s = if state_eq s stopping then none else some stopping
first_move drain s = if state_eq s draining then none else some draining
first_move deregister s = if state_eq s deregistering then none else some deregistering
first_move remove s = if state_eq s failed then some removing else none
first_move _ s = none

abbrev or_stay : State → Option State → State
or_stay s none = s
or_stay s (some to) = to

-- The state that a step has entered when it calls the executor.
unfoldable pub entry : Verb → State → State
unfolding first_move
entry v s = or_stay s (first_move v s)

-- The last `_move` of a step whose executor call succeeded (for a drain, one that is proved).
unfoldable pub last_move : Verb → Bool → Option State
last_move provision recreating = some provisioned
last_move register recreating = some idle
last_move start recreating = some idle
last_move stop recreating = some stopped
last_move drain recreating = some drained
last_move cancel_drain recreating = some idle
last_move withdraw recreating = some absent
last_move deregister recreating = some removing
last_move remove recreating = some (if recreating then provisioning else absent)
last_move repair recreating = some provisioning
last_move _ recreating = none

-- The state that such a step rests in.
unfoldable pub completion : Verb → Bool → State → State
unfolding last_move
completion v recreating s = or_stay s (last_move v recreating)

-- What `_close_if_fulfilled` does with the operation of a verb.
pub data Closing : Type 0 where
  left_open fails succeeds raises : Closing

abbrev broken : Verb → State → Checked Bool
broken verb actual = if state_eq actual failed then allows verb (some failed) else ok true

abbrev reached : Option (List State) → State → Bool
reached none actual = false
reached (some states) actual = in_states actual states

abbrev if_met : Bool → Closing
if_met met = if met then Closing.succeeds else Closing.left_open

-- A restart and a recreate close by the phases done, any other verb by FULFILLED.
abbrev meets : Verb → State → List Phase → Bool
meets restart actual done = in_done Phase.started done && in_states actual serving
meets recreate actual done = in_done Phase.rebuilding done && in_states actual serving
meets verb actual done = reached (fulfilled verb) actual

unfoldable pub closing : Verb → State → List Phase → Closing
closing verb actual done = elim (broken verb actual) [
  | raised e ↦ Closing.raises
  | ok false ↦ Closing.fails
  | ok true ↦ if_met (meets verb actual done)
]

-- The phase that a step adds by `_advance`.
abbrev pub phases : Verb → Bool → List Phase
phases start recreating = Phase.started ∷ []
phases stop recreating = Phase.stopped ∷ []
phases remove true = Phase.rebuilding ∷ []
phases _ recreating = []

-- DESIRED_BY_VERB of service.py, over the state desired before.
unfoldable pub desired_by_verb : Verb → Desired → Desired
desired_by_verb start d = Desired.running
desired_by_verb stop d = Desired.stopped
desired_by_verb restart d = Desired.running
desired_by_verb drain d = Desired.drained
desired_by_verb cancel_drain d = Desired.running
desired_by_verb remove d = Desired.absent
desired_by_verb recreate d = Desired.running
desired_by_verb repair d = Desired.running
desired_by_verb provision d = Desired.running
desired_by_verb register d = Desired.running
desired_by_verb deregister d = Desired.absent
desired_by_verb _ d = d

-- One runner with its open operation, the phases that the operation has done, and how the last
-- operation that ended was closed.
pub record Life : Type 0 where
  pub view : View
  pub verb : Option Verb
  pub done : List Phase
  pub outcome : Closing

-- An operation that ended leaves none, with no progress.
abbrev pub cleared : Closing → Life → Life
cleared how r = record r { verb = none; done = []; outcome = how }

after_closing : Life → Closing → Life
after_closing r Closing.left_open = r
after_closing r Closing.raises = r
after_closing r how = cleared how r

unfoldable pub close_finished : Life → Life
unfolding after_closing closing
close_finished r = elim r.verb [
  | none ↦ r
  | some v ↦ after_closing r (closing v r.view.actual r.done)
]

-- `_move` clears the error of a runner that arrives in service, and a repair clears it too.
abbrev clears : Verb → State → Bool
clears repair to = true
clears _ to = in_states to serving

moved : Verb → View → State → View
moved action s to = record s { actual = to; has_error = not (clears action to) && s.has_error }

-- `withdraw`, a removal that keeps nothing and `clear_cache` close their operation at once; a
-- cache clear fails outside the states that guard it.
abbrev close_at_once : Verb → Bool → State → Life → Life
close_at_once withdraw recreating was r = cleared Closing.succeeds r
close_at_once remove recreating was r = if recreating then r else cleared Closing.succeeds r
close_at_once clear_cache recreating was r =
    cleared (if in_states was (idle ∷ drained ∷ []) then Closing.succeeds else Closing.fails) r
close_at_once _ recreating was r = r

-- `_move`, which asks the machine: none is IllegalTransition.
move_to : Verb → Option State → View → Option View
unfolding moved
move_to action none s = some s
move_to action (some to) s = if can (some s.actual) to then some (moved action s to) else none

-- The last move, or what a look shows of a runner whose registration the forge confirms.
abbrev ending : Verb → Bool → State → Option State
ending Verb.observe recreating registering = some idle
ending action recreating s = last_move action recreating

-- A step whose executor call succeeds. A move that the machine refuses ends the step there, as the
-- exception does, which `pass_once` reports.
unfoldable pub take_step : Life → Verb → Life
unfolding first_move last_move move_to
take_step r action =
    let recreating = not (desired_eq r.view.desired Desired.absent) in
    elim (move_to action (first_move action r.view.actual) r.view) [
      | none ↦ r
      | some entered ↦ elim (move_to action (ending action recreating entered.actual) entered) [
        | none ↦ record r { view = entered }
        | some rested ↦
            close_at_once action recreating r.view.actual
              (record r { view = rested; done = r.done ++ phases action recreating })
      ]
    ]

-- A rebuild interrupted with no error, and no operation open, is asked for again.
interrupted : Life → Bool
interrupted r =
    not (is_some r.verb)
    && (in_states r.view.actual (removing ∷ deregistering ∷ [])
        && not (desired_eq r.view.desired Desired.absent))

resume : Life → Life
resume r =
    let v = record r.view { desired = Desired.running } in
    record { view = v; verb = some recreate; done = []; outcome = r.outcome }

-- The steps of an undisturbed runner: every call of the executor succeeds, its worker is healthy, a
-- placement is found, the replacement's preflight passes, its recreate and its cache clear have
-- their turn, no rollback is held, and no job comes or goes. The whole of `_step`, with the turns,
-- the holds, the locks and the failures, is `step` of Control/Step.
abbrev decided_step : Life → Life
unfolding take_step decide
decided_step r = elim (decide r.view r.verb r.done) [ none ↦ r | some action ↦ take_step r action ]

-- A pass over an undisturbed runner. An interrupted rebuild that failed, with no operation open, is
-- held; any other is asked for again. Then a finished operation is closed and the decided step is
-- taken.
unfoldable pub pass_over : Life → Life
unfolding close_finished interrupted resume decided_step
pass_over r =
    if interrupted r
    then (if r.view.has_error then r else decided_step (close_finished (resume r)))
    else decided_step (close_finished r)

unfoldable pub passes : ℕ → Life → Life
passes zero r = r
passes (suc n) r = passes n (pass_over r)
