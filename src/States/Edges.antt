-- ===== src/States/Edges.antt =====
-- The edges of the machine and the named sets of states (dashboard/control/states.py).
use nomercy_github_runner.Prelude.{
  String, Bool, true, false, ◌&&◌, Option, none, some, List, [], ◌∷◌, any, keep, map, if◌then◌else◌,
}
use nomercy_github_runner.States.Names.{
  State, Verb, absent, at_eq, busy, deregister, deregistering, drained, draining, failed, idle,
  in_states, in_verbs, planned, provisioned, provisioning, registering, remove, removing, starting,
  state_eq, stop, stopped, stopping,
}

-- A pair of states with the label that the diagram gives it.
pub record Edge : Type 0 where
  pub frm : Option State
  pub to : State
  pub trigger : String

abbrev edge : State → State → String → Edge
edge a b label = record { frm = some a; to = b; trigger = label }

-- TRANSITIONS
abbrev pub transitions : List Edge
transitions =
    record { frm = none; to = planned; trigger = "create" }
    ∷ edge planned provisioning "reconcile"
    ∷ edge planned absent "withdraw"
    ∷ edge provisioning provisioned "exec unit exists"
    ∷ edge provisioning failed "error"
    ∷ edge provisioned registering "provider.register"
    ∷ edge registering idle "forge confirms"
    ∷ edge registering failed "error"
    ∷ edge idle busy "job accepted"
    ∷ edge busy idle "job finished"
    ∷ edge idle stopped "worker stopped and forge offline"
    ∷ edge busy stopped "worker stopped and forge offline"
    ∷ edge idle draining "drain"
    ∷ edge busy draining "drain"
    ∷ edge draining drained "job finished"
    ∷ edge drained draining "job accepted"
    ∷ edge drained idle "cancel drain"
    ∷ edge drained stopping "stop"
    ∷ edge idle stopping "stop"
    ∷ edge stopping stopped "exec unit down"
    ∷ edge stopped starting "start"
    ∷ edge starting idle "agent reports ready"
    ∷ edge drained deregistering "remove"
    ∷ edge stopped deregistering "remove"
    ∷ edge deregistering removing "forge confirms"
    ∷ edge removing absent "exec unit and storage gone"
    ∷ edge removing provisioning "exec unit gone, storage kept"
    ∷ edge failed provisioning "repair"
    ∷ edge failed removing "remove"
    ∷ []

abbrev pub transitional : List State
transitional =
    planned ∷ provisioning ∷ provisioned ∷ registering ∷ draining ∷ stopping ∷ starting
    ∷ deregistering ∷ removing ∷ []

abbrev pub live : List State
live = idle ∷ busy ∷ draining ∷ drained ∷ []

abbrev pub ends_work : List Verb
ends_work = stop ∷ deregister ∷ remove ∷ []

abbrev pub at_work : List State
at_work = busy ∷ draining ∷ []

unfoldable pub aborts_a_job : Verb → State → Bool
aborts_a_job step state = in_verbs step ends_work && in_states state at_work

abbrev pub pair_of : State → State → Option State × State
pair_of a b = (some a, b)

-- OBSERVED
abbrev pub observed : List (Option State × State)
observed =
    pair_of planned provisioning
    ∷ pair_of provisioning provisioned
    ∷ pair_of provisioning failed
    ∷ pair_of registering idle
    ∷ pair_of registering failed
    ∷ pair_of idle busy
    ∷ pair_of busy idle
    ∷ pair_of idle stopped
    ∷ pair_of busy stopped
    ∷ pair_of draining drained
    ∷ pair_of drained draining
    ∷ pair_of stopping stopped
    ∷ pair_of starting idle
    ∷ pair_of deregistering removing
    ∷ pair_of removing absent
    ∷ pair_of removing provisioning
    ∷ []

abbrev pub in_pairs : Option State → State → List (Option State × State) → Bool
in_pairs frm to = any (λ p. at_eq p.0 frm && state_eq p.1 to)

abbrev pub is_edge : Option State → State → Edge → Bool
is_edge frm to e = at_eq e.frm frm && state_eq e.to to

unfoldable pub is_observed : State → State → Bool
is_observed frm to = in_pairs (some frm) to observed

unfoldable pub can : Option State → State → Bool
can frm to = any (is_edge frm to) transitions

-- COMMANDED: the edges that are not observed.
unfoldable pub is_commanded : Option State → State → Bool
unfolding can
is_commanded frm to = can frm to && (if in_pairs frm to observed then false else true)

unfoldable pub next_states : Option State → List State
next_states frm = map (λ (e : Edge). e.to) (keep (λ e. at_eq e.frm frm) transitions)
