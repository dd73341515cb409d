-- ===== src/Tests/Lifecycle.antt =====
-- Instances of the theorems on states.py.
use nomercy_github_runner.Prelude.{true, false, ◌≡◌, ◌⊎◌, ◌↔◌, refl, none, some}
use nomercy_github_runner.States.Names.{
  State, Verb, busy, deregistering, drained, draining, in_states, planned, provisioning, removing,
  stopping,
}
use nomercy_github_runner.States.Edges.{aborts_a_job, can, is_observed}
use nomercy_github_runner.States.Asking.{allows, check, illegal_transition, ok, raised, verb_target}
use nomercy_github_runner.States.Machine.{here, next, works_or_rests, job_ends_first}
use nomercy_github_runner.States.Verbs.{allows_iff_target, allows_never_aborts, observed_asked_for}

job_ends_first_example : in_states drained works_or_rests ≡ true
unfolding can
job_ends_first_example =
    job_ends_first busy {to = drained} refl (next {mid = draining} (next here refl refl) refl refl)

allows_iff_target_example :
    (allows Verb.drain (some busy) ≡ ok true)
    ↔ ((to : State) × (verb_target Verb.drain (some busy) ≡ ok to))
allows_iff_target_example = allows_iff_target Verb.drain (some busy) refl

allows_never_aborts_example : aborts_a_job Verb.remove drained ≡ false
unfolding allows
allows_never_aborts_example = allows_never_aborts Verb.remove drained refl refl

observed_asked_for_example :
    ((Verb.deregister ≡ Verb.provision) × (deregistering ≡ planned) × (removing ≡ provisioning))
    ⊎ ((Verb.deregister ≡ Verb.deregister)
        × (deregistering ≡ deregistering)
        × (removing ≡ removing))
unfolding is_observed verb_target
observed_asked_for_example = observed_asked_for Verb.deregister deregistering removing refl refl

check_refuses :
    check (some busy) stopping none ≡ raised (illegal_transition (some busy) (some stopping) none)
unfolding check
check_refuses = refl
