-- ===== src/States/Machine.antt =====
-- states.py, the machine: which states an edge or a path can join.
use nomercy_github_runner.Prelude.{
  true, false, ◌≡◌, ◌≢◌, refl, Option, none, some, List, [], ◌∷◌, arith,
}
use nomercy_github_runner.States.Names.{
  State, absent, busy, deregistering, drained, draining, failed, idle, in_states, planned,
  provisioned, provisioning, registering, removing, starting, stopped, stopping, unknown,
}
use nomercy_github_runner.States.Edges.{at_work, can}

-- A path of the machine, of one edge or more.
pub data Reach (frm : Option State) : State → Type 0 where
  first : {to : State} → can frm to ≡ true → Reach frm to
  then : {mid to : State} → Reach frm mid → can (some mid) to ≡ true → Reach frm to

before : (a : Option State) {b c : State} → can a b ≡ true → Reach (some b) c → Reach a c
before a e (first f) = then (first e) f
before a e (then r f) = then (before a e r) f

reach_planned : Reach none planned
unfolding can
reach_planned = first refl

reach_provisioning : Reach none provisioning
unfolding can
reach_provisioning = then reach_planned refl

reach_idle : Reach none idle
unfolding can
reach_idle =
    then {mid = registering} (then {mid = provisioned} (then reach_provisioning refl) refl) refl

reach_draining : Reach none draining
unfolding can
reach_draining = then reach_idle refl

reach_drained : Reach none drained
unfolding can
reach_drained = then reach_draining refl

reach_stopping : Reach none stopping
unfolding can
reach_stopping = then reach_idle refl

-- Every state of the machine is reached from START, a runner that does not exist yet.
start-Reach : (s : State) → s ≢ unknown → Reach none s
unfolding can
start-Reach planned h = reach_planned
start-Reach provisioning h = reach_provisioning
start-Reach provisioned h = then reach_provisioning refl
start-Reach registering h = then {mid = provisioned} (then reach_provisioning refl) refl
start-Reach idle h = reach_idle
start-Reach busy h = then reach_idle refl
start-Reach draining h = reach_draining
start-Reach drained h = reach_drained
start-Reach stopping h = reach_stopping
start-Reach stopped h = then reach_stopping refl
start-Reach starting h = then {mid = stopped} (then reach_stopping refl) refl
start-Reach deregistering h = then reach_drained refl
start-Reach removing h = then {mid = deregistering} (then reach_drained refl) refl
start-Reach absent h = then reach_planned refl
start-Reach failed h = then reach_provisioning refl
start-Reach unknown h = absurd (h refl)

removing_ends : Reach (some removing) absent
unfolding can
removing_ends = first refl

drained_ends : Reach (some drained) absent
unfolding can
drained_ends = before _ {b = deregistering} refl (before _ refl removing_ends)

idle_ends : Reach (some idle) absent
unfolding can
idle_ends = before _ {b = draining} refl (before _ refl drained_ends)

stopped_ends : Reach (some stopped) absent
unfolding can
stopped_ends = before _ {b = deregistering} refl (before _ refl removing_ends)

-- From every state of the machine but the last there is a path to `absent`, so no runner is
-- ever left where it cannot be removed.
Reach-absent : (s : State) → s ≢ unknown → s ≢ absent → Reach (some s) absent
unfolding can
Reach-absent planned h k = first refl
Reach-absent provisioning h k = before _ {b = failed} refl (before _ refl removing_ends)
Reach-absent provisioned h k = before _ {b = registering} refl (before _ refl idle_ends)
Reach-absent registering h k = before _ refl idle_ends
Reach-absent idle h k = idle_ends
Reach-absent busy h k = before _ refl idle_ends
Reach-absent draining h k = before _ refl drained_ends
Reach-absent drained h k = drained_ends
Reach-absent stopping h k = before _ refl stopped_ends
Reach-absent stopped h k = stopped_ends
Reach-absent starting h k = before _ refl idle_ends
Reach-absent deregistering h k = before _ refl removing_ends
Reach-absent removing h k = removing_ends
Reach-absent absent h k = absurd (k refl)
Reach-absent failed h k = before _ refl removing_ends
Reach-absent unknown h k = absurd (h refl)

-- Where a job is proved over, or its loss was observed.
abbrev pub rests : List State
rests = idle ∷ drained ∷ stopped ∷ []

-- A path that has not come to a rest: it extends only from states outside `rests`.
pub data Unrested (frm : State) : State → Type 0 where
  here : Unrested frm frm
  next :
      {mid to : State}
      → Unrested frm mid
      → in_states mid rests ≡ false
      → can (some mid) to ≡ true
      → Unrested frm to

abbrev pub works_or_rests : List State
works_or_rests = busy ∷ draining ∷ idle ∷ drained ∷ stopped ∷ []

at_work_first : (s : State) → in_states s at_work ≡ true → in_states s works_or_rests ≡ true
at_work_first s h = ground arith

busy_next : (to : State) → can (some busy) to ≡ true → in_states to works_or_rests ≡ true
unfolding can
busy_next planned h = cc
busy_next _ h = ground arith

draining_next : (to : State) → can (some draining) to ≡ true → in_states to works_or_rests ≡ true
unfolding can
draining_next planned h = cc
draining_next _ h = ground arith

stay :
    (mid to : State)
    → in_states mid works_or_rests ≡ true
    → in_states mid rests ≡ false
    → can (some mid) to ≡ true
    → in_states to works_or_rests ≡ true
stay busy to h r e = busy_next to e
stay draining to h r e = draining_next to e
stay planned to h r e = ground arith
stay _ to h r e = ground arith

-- A runner at work is busy, draining or at a rest (idle, drained or stopped) at the end of every
-- path that has not passed a rest before: no path leads to stopping, deregistering, removing or
-- absent without one.
pub job_ends_first :
    (frm : State) {to : State}
    → in_states frm at_work ≡ true
    → Unrested frm to
    → in_states to works_or_rests ≡ true
job_ends_first frm h here = at_work_first frm h
job_ends_first frm h (next {mid} {to} r off e) = stay mid to (job_ends_first frm h r) off e
