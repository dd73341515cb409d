-- ===== src/States/Names.antt =====
-- The states and the verbs of dashboard/control/states.py.
use nomercy_github_runner.Prelude.{ℕ, Bool, true, false, Option, none, some, List, any, ◌==◌}

pub data State : Type 0 where
  planned provisioning provisioned registering idle busy draining drained stopping stopped : State
  starting deregistering removing absent failed unknown : State

pub data Verb : Type 0 where
  create provision register start stop drain cancel_drain remove deregister repair : Verb
  fetch_status fetch_logs inspect_resources scale_up scale_down restart recreate clear_cache : Verb
  withdraw observe set_capacity other : Verb

abbrev pub state_code : State → ℕ
state_code planned = 0
state_code provisioning = 1
state_code provisioned = 2
state_code registering = 3
state_code idle = 4
state_code busy = 5
state_code draining = 6
state_code drained = 7
state_code stopping = 8
state_code stopped = 9
state_code starting = 10
state_code deregistering = 11
state_code removing = 12
state_code absent = 13
state_code failed = 14
state_code unknown = 15

abbrev pub verb_code : Verb → ℕ
verb_code create = 0
verb_code provision = 1
verb_code register = 2
verb_code start = 3
verb_code stop = 4
verb_code drain = 5
verb_code cancel_drain = 6
verb_code remove = 7
verb_code deregister = 8
verb_code repair = 9
verb_code fetch_status = 10
verb_code fetch_logs = 11
verb_code inspect_resources = 12
verb_code scale_up = 13
verb_code scale_down = 14
verb_code restart = 15
verb_code recreate = 16
verb_code clear_cache = 17
verb_code withdraw = 18
verb_code observe = 19
verb_code set_capacity = 20
verb_code other = 21

-- Equality of the texts.
abbrev pub state_eq : State → State → Bool
state_eq a b = state_code a == state_code b

abbrev pub verb_eq : Verb → Verb → Bool
verb_eq a b = verb_code a == verb_code b

abbrev pub at_eq : Option State → Option State → Bool
at_eq none none = true
at_eq (some a) (some b) = state_eq a b
at_eq _ _ = false

abbrev pub in_states : State → List State → Bool
in_states s = any (state_eq s)

abbrev pub in_verbs : Verb → List Verb → Bool
in_verbs v = any (verb_eq v)
