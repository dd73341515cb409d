-- ===== src/States/Verbs.antt =====
-- states.py, the verbs: what each may do from each state.
use nomercy_github_runner.Prelude.{
  true, false, ◌≡◌, ◌⊎◌, ◌↔◌, inl, inr, refl, Option, some, arith, is_some,
}
use nomercy_github_runner.States.Names.{
  State, Verb, create, deregister, deregistering, in_verbs, planned, provision, provisioning,
  removing,
}
use nomercy_github_runner.States.Edges.{aborts_a_job, can, ends_work, is_observed}
use nomercy_github_runner.States.Asking.{
  Checked, StateError, allows, ok, raised, verb_edges, verb_target,
}

-- Where a verb takes a runner, the machine has an edge.
can-verb_target :
    (verb : Verb) (frm : Option State) (to : State)
    → verb_target verb frm ≡ ok to
    → can frm to ≡ true
unfolding verb_target can
can-verb_target create frm to h = ground arith
can-verb_target _ frm to h = ground arith

Checked-cases :
    {A : Type 0} (r : Checked A) → ((a : A) × (r ≡ ok a)) ⊎ ((e : StateError) × (r ≡ raised e))
Checked-cases (ok a) = inl (a, refl)
Checked-cases (raised e) = inr (e, refl)

allowed_has_target :
    (verb : Verb) (frm : Option State) (e : StateError)
    → is_some (verb_edges verb) ≡ true
    → allows verb frm ≡ ok true
    → verb_target verb frm ≡ raised e
    → ⊥
unfolding allows verb_target
allowed_has_target create frm e s h r = ground arith
allowed_has_target _ frm e s h r = ground arith

target_allowed :
    (verb : Verb) (frm : Option State) (to : State)
    → verb_target verb frm ≡ ok to
    → allows verb frm ≡ ok true
unfolding allows verb_target
target_allowed create frm to h = ground arith
target_allowed _ frm to h = ground arith

-- A state-changing verb is allowed exactly where it has a target.
pub allows_iff_target :
    (verb : Verb) (frm : Option State)
    → is_some (verb_edges verb) ≡ true
    → (allows verb frm ≡ ok true) ↔ ((to : State) × (verb_target verb frm ≡ ok to))
allows_iff_target verb frm s = (
  λ h. elim (Checked-cases (verb_target verb frm)) [
    | inl found ↦ found
    | inr (e, r) ↦ absurd (allowed_has_target verb frm e s h r)
  ],
  λ t. target_allowed verb frm t.0 t.1,
)

-- A step that ends a runner's work is allowed in no state in which the runner may have a job.
pub allows_never_aborts :
    (verb : Verb) (s : State)
    → in_verbs verb ends_work ≡ true
    → allows verb (some s) ≡ ok true
    → aborts_a_job verb s ≡ false
unfolding allows aborts_a_job
allows_never_aborts create s w h = ground arith
allows_never_aborts _ s w h = ground arith

-- A verb can ask for an observed edge in two cases only: `provision` of a planned runner and
-- `deregister` of one that is deregistering.
pub observed_asked_for :
    (verb : Verb) (s to : State)
    → is_observed s to ≡ true
    → verb_target verb (some s) ≡ ok to
    → ((verb ≡ provision) × (s ≡ planned) × (to ≡ provisioning))
      ⊎ ((verb ≡ deregister) × (s ≡ deregistering) × (to ≡ removing))
unfolding is_observed verb_target
observed_asked_for create s to o h = ground arith
observed_asked_for _ s to o h = ground arith
