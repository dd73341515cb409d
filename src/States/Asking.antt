-- ===== src/States/Asking.antt =====
-- What is raised, and where each verb may be asked for: `check`, `verb_target` and `allows`
-- (dashboard/control/states.py).
use nomercy_github_runner.Prelude.{
  String, Bool, true, ◌||◌, Option, none, some, List, [], ◌∷◌, any, keep, find_first, map,
  if◌then◌else◌,
}
use nomercy_github_runner.States.Names.{
  State, Verb, absent, at_eq, busy, cancel_drain, clear_cache, create, deregister, deregistering,
  drain, drained, draining, failed, fetch_logs, fetch_status, idle, in_verbs, inspect_resources,
  planned, provision, provisioned, provisioning, recreate, register, registering, remove, removing,
  repair, restart, scale_down, scale_up, start, starting, stop, stopped, stopping,
}
use nomercy_github_runner.States.Edges.{Edge, is_edge, pair_of, transitions}

-- What is raised: IllegalTransition with both states and the verb (`none` for the target "?"),
-- or one of the ValueErrors.
pub data StateError : Type 0 where
  illegal_transition : Option State → Option State → Option Verb → StateError
  not_state_changing : Verb → StateError
  ambiguous : Verb → StateError
  unknown_verb : Verb → StateError

pub data Checked {ℓ} (A : Type ℓ) : Type ℓ where
  ok : A → Checked A
  raised : StateError → Checked A

abbrev found_edge : Option State → State → Option Verb → Option Edge → Checked String
found_edge frm to verb none = raised (illegal_transition frm (some to) verb)
found_edge frm to verb (some e) = ok e.trigger

unfoldable pub check : Option State → State → Option Verb → Checked String
check frm to verb = found_edge frm to verb (find_first (is_edge frm to) transitions)

abbrev pub reads : List Verb
reads = fetch_status ∷ fetch_logs ∷ inspect_resources ∷ []

abbrev pub fleet_verbs : List Verb
fleet_verbs = scale_up ∷ scale_down ∷ []

-- COMPOSITE, as a lookup.
abbrev pub composite : Verb → Option (Verb × Verb)
composite restart = some (stop, start)
composite recreate = some (remove, create)
composite _ = none

-- WALKS_FROM.get(verb, ())
abbrev pub walks_from : Verb → List State
walks_from recreate = idle ∷ busy ∷ deregistering ∷ removing ∷ []
walks_from restart = busy ∷ []
walks_from _ = []

-- VERB_EDGES, as a lookup.
abbrev pub verb_edges : Verb → Option (List (Option State × State))
verb_edges create = some ((none, planned) ∷ [])
verb_edges provision = some (pair_of planned provisioning ∷ [])
verb_edges register = some (pair_of provisioned registering ∷ [])
verb_edges start = some (pair_of stopped starting ∷ [])
verb_edges stop = some (pair_of idle stopping ∷ pair_of drained stopping ∷ [])
verb_edges drain = some (pair_of idle draining ∷ pair_of busy draining ∷ [])
verb_edges cancel_drain = some (pair_of drained idle ∷ [])
verb_edges remove = some (
    pair_of planned absent
    ∷ pair_of drained deregistering
    ∷ pair_of stopped deregistering
    ∷ pair_of failed removing
    ∷ [])
verb_edges deregister = some (pair_of deregistering removing ∷ [])
verb_edges repair = some (pair_of failed provisioning ∷ [])
verb_edges _ = none

-- GUARDED, as a lookup.
abbrev pub guarded : Verb → Option (List State)
guarded clear_cache = some (idle ∷ drained ∷ [])
guarded _ = none

-- The targets of a verb from one state; every target of the table is listed once.
abbrev pub targets : Option State → List (Option State × State) → List State
targets frm edges = map (λ (p : Option State × State). p.1) (keep (λ p. at_eq p.0 frm) edges)

abbrev only_target : Verb → Option State → List State → Checked State
only_target verb frm [] = raised (illegal_transition frm none (some verb))
only_target verb frm (t ∷ []) = ok t
only_target verb frm (t ∷ u ∷ rest) = raised (ambiguous verb)

unfoldable pub verb_target : Verb → Option State → Checked State
verb_target verb frm = elim (verb_edges verb) [
  | none ↦ raised (not_state_changing verb)
  | some edges ↦ only_target verb frm (targets frm edges)
]

abbrev in_options : Option State → List State → Bool
in_options frm = any (λ s. at_eq (some s) frm)

-- The branches of `allows` after its first three tests.
abbrev by_edges : Verb → Option State → Checked Bool
by_edges verb frm = elim (verb_edges verb) [
  | none ↦ raised (unknown_verb verb)
  | some edges ↦ ok (any (λ p. at_eq p.0 frm) edges)
]

-- The body of `allows`, with its call of itself on the first part of a composite as an argument.
abbrev pub allows_by : (Verb → Option State → Checked Bool) → Verb → Option State → Checked Bool
allows_by again verb frm =
    if in_verbs verb reads || in_verbs verb fleet_verbs then ok true else elim (guarded verb) [
      | some states ↦ ok (in_options frm states)
      | none ↦ elim (composite verb) [
        | some (first, second) ↦
            if in_options frm (walks_from verb) then ok true else again first frm
        | none ↦ by_edges verb frm
      ]
    ]

-- No part of a composite is a composite, so the depth of the calls is two.
unfoldable pub allows : Verb → Option State → Checked Bool
allows = allows_by (allows_by (λ verb frm. raised (unknown_verb verb)))
