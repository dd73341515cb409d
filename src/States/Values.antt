-- ===== src/States/Values.antt =====
-- The types of states.py as finite types.
use nomercy_github_runner.Prelude.{Bool, true, ◌≡◌, List, [], ◌∷◌, all, arith, Finite}
use nomercy_github_runner.States.Names.{
  State, Verb, absent, busy, deregistering, drained, draining, failed, idle, planned, provisioned,
  provisioning, registering, removing, starting, stopped, stopping, unknown,
}

abbrev state_values : List State
state_values =
    planned ∷ provisioning ∷ provisioned ∷ registering ∷ idle ∷ busy ∷ draining ∷ drained ∷ stopping
    ∷ stopped ∷ starting ∷ deregistering ∷ removing ∷ absent ∷ failed ∷ unknown ∷ []

abbrev verb_values : List Verb
verb_values =
    Verb.create ∷ Verb.provision ∷ Verb.register ∷ Verb.start ∷ Verb.stop ∷ Verb.drain
    ∷ Verb.cancel_drain ∷ Verb.remove ∷ Verb.deregister ∷ Verb.repair ∷ Verb.fetch_status
    ∷ Verb.fetch_logs ∷ Verb.inspect_resources ∷ Verb.scale_up ∷ Verb.scale_down ∷ Verb.restart
    ∷ Verb.recreate ∷ Verb.clear_cache ∷ Verb.withdraw ∷ Verb.observe ∷ Verb.set_capacity
    ∷ Verb.other ∷ []

pub states_covered : (p : State → Bool) → all p state_values ≡ true → (s : State) → p s ≡ true
states_covered p h planned = ground arith
states_covered p h _ = ground arith

pub verbs_covered : (p : Verb → Bool) → all p verb_values ≡ true → (v : Verb) → p v ≡ true
verbs_covered p h Verb.create = ground arith
verbs_covered p h _ = ground arith

instance abbrev pub State-finite : Finite State
State-finite = record { values = state_values; covers = states_covered }

instance abbrev pub Verb-finite : Finite Verb
Verb-finite = record { values = verb_values; covers = verbs_covered }
