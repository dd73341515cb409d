-- ===== src/Control/Keeping/Entering.antt =====
-- `Evolves` for what the steps begin with, and for the callbacks that they hand out.
use nomercy_github_runner.Prelude.{ℕ, ◌≡◌, refl, true, false, Option, List, [], ◌∷◌, arith}
use nomercy_github_runner.States.Names.{State, Verb, state_eq, in_states, in_verbs}
use nomercy_github_runner.States.Edges.{aborts_a_job, ends_work, at_work}
use nomercy_github_runner.Specs.{Spec}
use nomercy_github_runner.Control.World.{Action, record_call, ◌>>◌}
use nomercy_github_runner.Control.Rules.{
  Sound, Keeps, Sound-next, Sound-bind, Sound-if, Sound-pure, Holds,
}
use nomercy_github_runner.Control.Leaves.{look-Sound, update_row-Keeps, record_call-Keeps}
use nomercy_github_runner.Control.Transitions.{move-Sound}
use nomercy_github_runner.Control.Moves.{unchanged}
use nomercy_github_runner.Control.Steps.{
  placed_on, registered_as, enter, record_host, record_registration,
}

state_of_eq : (a b : State) → state_eq a b ≡ true → a ≡ b
state_of_eq a b h = ground arith

-- A step that ends nothing, and one on a runner that is not at work.
pub harmless : (v : Verb) (a : State) → in_verbs v ends_work ≡ false → aborts_a_job v a ≡ false
unfolding aborts_a_job
harmless v a h = ground arith

pub at_rest : (v : Verb) (a : State) → in_states a at_work ≡ false → aborts_a_job v a ≡ false
unfolding aborts_a_job
at_rest v a h = ground arith

module _ {Γ : List Spec} where
  -- A call goes on record, and is made.
  pub call-Keeps :
      {A : Type 0} (v : Verb) (s : Spec) {m : Action A}
      → aborts_a_job v s.actual_state ≡ false
      → Keeps Γ m
      → Keeps Γ (record_call v s >> m)
  call-Keeps v s safe h = Sound-next (record_call-Keeps v s safe) (λ u. h)

  pub enter-Sound :
      (s : Spec) (to : State)
      → Holds Γ s
      → Sound Γ (enter s to) (λ r. r ∷ []) (λ r. r.actual_state ≡ to)
  unfolding enter
  enter-Sound s to holds =
      Sound-if (state_eq s.actual_state to)
        (λ e. Sound-pure s (λ w k. (holds w k, tt)) (state_of_eq s.actual_state to e))
        (λ e. move-Sound s to unchanged (λ r. (refl, refl)) holds)

  pub record_host-Keeps : (s : Spec) (host : ℕ) → Keeps Γ (record_host s host)
  unfolding record_host
  record_host-Keeps s host =
      Sound-bind (look-Sound s.runner_id)
        (λ r own. update_row-Keeps s.runner_id r.spec_version (placed_on host) (λ x. (refl, refl)))

  pub record_registration-Keeps :
      (s : Spec) (rid uuid : Option ℕ) → Keeps Γ (record_registration s rid uuid)
  unfolding record_registration
  record_registration-Keeps s rid uuid = Sound-bind (look-Sound s.runner_id) (λ r own.
      update_row-Keeps s.runner_id r.spec_version (registered_as rid uuid) (λ x. (refl, refl)))
