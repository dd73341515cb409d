-- ===== src/Control/Keeping/Passing.antt =====
-- `Evolves` for one pass: `_sweep`, `_converge_capacity` and the loops of `pass_once`.
use nomercy_github_runner.Prelude.{
  ℕ, ◌≡◌, refl, true, not, Option, none, some, List, [], ◌∷◌, ◌++◌, ◌&&◌, subst, sym, arith, any,
}
use nomercy_github_runner.States.Names.{state_eq, in_states, registering}
use nomercy_github_runner.Specs.{Spec, SpecError, get_spec, list_specs}
use nomercy_github_runner.Operations.Table.{Operation}
use nomercy_github_runner.Operations.Methods.{overdue}
use nomercy_github_runner.Reconciler.Capacity.{
  Fleet, converge_capacity, plan, scale_down, converged, wait,
}
use nomercy_github_runner.Reconciler.Capacity as Capacity
use nomercy_github_runner.Reconciler.Decide.{Desired}
use nomercy_github_runner.Control.World.{
  Action, Done, Held, Line, World, Error, of_spec, failure, swept, ◌>>=◌, gets, scaled_down,
  planned, Result, ok, raised, raise,
}
use nomercy_github_runner.Control.Outside.{Outside}
use nomercy_github_runner.Control.Lawful.{Lawful}
use nomercy_github_runner.Control.Evolves.{
  Evolves, Evolves-self, Evolves-trans, ids, distinct, near_self,
}
use nomercy_github_runner.Control.Rules.{
  Sound, Keeps, Knows, Sound-next, Sound-bind, Sound-if, Sound-option, Sound-pure, Sound-try,
  Sound-weaken, Sound-untold, Keeps-pure, Keeps-when, Holds, AnyResult,
}
use nomercy_github_runner.Control.Leaves.{
  gets-Keeps, report-Keeps, look-Sound, update_row-Keeps, succeed_op-Keeps, get_spec-id,
}
use nomercy_github_runner.Control.Pass.{
  creating, abandoned, abandon_creation, recover, sweep_creation, awaits_preflight, sweep_runner,
  sweep_one, maintenance_holds, sweep_all, sweep, scale_down_all, is_capacity_of, close_capacity,
  latest_of, carry_capacity, converge_fleet, converge_all, report_error, step_all, pass_once,
  interrupted_while, points_at, is_maintenance,
}
use nomercy_github_runner.Control.Keeping.Moving.{
  hold-Keeps, fail_step-Keeps, worker_accepts-Keeps, progress_op-Keeps,
}
use nomercy_github_runner.Control.Keeping.Looking.{do_observe-Keeps}
use nomercy_github_runner.Control.Keeping.Deciding.{step-Keeps}
use nomercy_github_runner.Control.Keeping.Listing.{listed-Knows}

-- The spec that a look found, where there is one.
abbrev found : Option Spec → List Spec
found none = []
found (some s) = s ∷ []

found_row : (i : ℕ) (w : World) (s : Option Spec) → get_spec i w.specs ≡ s → Knows w (found s)
found_row i w none e = tt
found_row i w (some s) e = (
  record {
    row = s;
    found = subst (λ j. get_spec j w.specs ≡ some s) (sym (get_spec-id i w.specs s e)) e;
    version = omega arith;
    unbumped = λ h. near_self s.actual_state;
  },
  tt,
)

module _ {Γ : List Spec} where
  find-Sound : (i : ℕ) → Sound Γ (gets (λ w. get_spec i w.specs)) found AnyResult
  find-Sound i = record {
    runs = λ w k. (Evolves-self w, (found_row i w (get_spec i w.specs) refl, tt));
  }

module _ (o : Outside) (l : Lawful o) where
  maintenance_holds-Keeps : {Γ : List Spec} → Keeps Γ (maintenance_holds o)
  maintenance_holds-Keeps = Sound-next (Sound-weaken l.maintenance) (λ held.
      Sound-next (gets-Keeps (λ w. any is_maintenance w.report)) (λ said.
        Sound-next (Keeps-when (held && not said) (λ e. report-Keeps Line.maintenance))
          (λ u. Keeps-pure held)))

  abandon_creation-Keeps :
      {Γ : List Spec} (s : Spec) (op : Operation) → Keeps Γ (abandon_creation o s op)
  unfolding abandon_creation
  abandon_creation-Keeps s op =
      Sound-try (Sound-weaken (l.abandon s))
        (λ undone u.
          Sound-next (fail_step-Keeps o l s (some op) (abandoned undone) 0)
            (λ v. report-Keeps (swept s.runner_id)))
        (λ e. fail_step-Keeps o l s (some op) e interrupted_while)

  recover-Sound :
      {Γ : List Spec} (s : Spec) → Holds Γ s → Sound Γ (recover o s) (λ r. r ∷ []) AnyResult
  recover-Sound s holds =
      Sound-if (state_eq s.actual_state registering)
        (λ e.
          Sound-next (do_observe-Keeps o l s true holds)
            (λ u. Sound-untold (look-Sound s.runner_id)))
        (λ e. Sound-pure s (λ w k. (holds w k, tt)) tt)

  sweep_creation-Keeps :
      {Γ : List Spec} (s : Spec) (op : Operation) → Holds Γ s → Keeps Γ (sweep_creation o s op)
  sweep_creation-Keeps s op holds = Sound-next (worker_accepts-Keeps o l s) (λ accepted.
      Sound-if (not accepted) (λ e. hold-Keeps s Held.worker_not_healthy)
        (λ e. Sound-bind (recover-Sound s holds) (λ r u.
          Keeps-when (in_states r.actual_state creating) (λ h. abandon_creation-Keeps r op))))

  sweep_runner-Keeps :
      (Γ : List Spec) (op : Operation) (s : Option Spec)
      → Keeps (found s ++ Γ) (sweep_runner o op s)
  sweep_runner-Keeps Γ op none = Keeps-pure tt
  sweep_runner-Keeps Γ op (some s) =
      Keeps-when (points_at op s && in_states s.actual_state creating) (λ e.
        Sound-next (progress_op-Keeps op.operation_id) (λ p.
          Keeps-when (not (awaits_preflight o s p)) (λ h. sweep_creation-Keeps s op (λ w k. k.0))))

  sweep_one-Keeps : {Γ : List Spec} (op : Operation) → Keeps Γ (sweep_one o op)
  sweep_one-Keeps {Γ} op =
      Sound-option op.runner_id (λ e. Keeps-pure tt)
        (λ i e. Sound-bind (find-Sound i) (λ s u. sweep_runner-Keeps Γ op s))

  sweep_all-Keeps : {Γ : List Spec} (ops : List Operation) → Keeps Γ (sweep_all o ops)
  unfolding sweep_all
  sweep_all-Keeps [] = Keeps-pure tt
  sweep_all-Keeps (op ∷ ops) = Sound-next maintenance_holds-Keeps (λ held.
      Keeps-when (not held) (λ e. Sound-next (sweep_one-Keeps op) (λ u. sweep_all-Keeps ops)))

  -- `_sweep`
  pub sweep-Keeps : {Γ : List Spec} → Keeps Γ (sweep o)
  unfolding sweep
  sweep-Keeps =
      Sound-next (Sound-weaken l.now)
        (λ now. Sound-next (gets-Keeps (λ w. overdue now w.table)) (λ ops. sweep_all-Keeps ops))

  scale_down_all-Keeps :
      {Γ : List Spec} (fleet : ℕ) (victims : List Spec) → Keeps Γ (scale_down_all o fleet victims)
  unfolding scale_down_all
  scale_down_all-Keeps fleet [] = Keeps-pure tt
  scale_down_all-Keeps fleet (victim ∷ victims) =
      Sound-next
        (update_row-Keeps victim.runner_id victim.spec_version
          (λ s. record s { desired_state = Desired.absent }) (λ r. (refl, refl)))
        (λ b.
          Sound-next (report-Keeps (scaled_down fleet victim.runner_id))
            (λ u. scale_down_all-Keeps fleet victims))

  close_capacity-Keeps :
      {Γ : List Spec} (fleet desired : ℕ) (ops : List Operation)
      → Keeps Γ (close_capacity o fleet desired ops)
  unfolding close_capacity
  close_capacity-Keeps fleet desired [] = Keeps-pure tt
  close_capacity-Keeps fleet desired (op ∷ ops) =
      Sound-next
        (Keeps-when (is_capacity_of o fleet op) (λ e. Sound-next (Sound-weaken l.now) (λ now.
          Sound-next (succeed_op-Keeps now op.operation_id (some desired))
            (λ u. report-Keeps (Line.converged fleet)))))
        (λ u. close_capacity-Keeps fleet desired ops)

  carry_capacity-Keeps :
      {Γ : List Spec} (fleet : Fleet) (a : Capacity.Action) → Keeps Γ (carry_capacity o fleet a)
  carry_capacity-Keeps fleet (plan missing) =
      Sound-next (Sound-weaken (l.plan fleet.fleet_id missing))
        (λ u. report-Keeps (planned fleet.fleet_id missing))
  carry_capacity-Keeps fleet (scale_down victims) = scale_down_all-Keeps fleet.fleet_id victims
  carry_capacity-Keeps fleet converged =
      Sound-next (gets-Keeps (λ w. latest_of o fleet.fleet_id w.table.rows))
        (λ ops. close_capacity-Keeps fleet.fleet_id fleet.desired_capacity ops)
  carry_capacity-Keeps fleet wait = Keeps-pure tt

  -- `_converge_capacity`
  converge_fleet-Keeps : {Γ : List Spec} (fleet : Fleet) → Keeps Γ (converge_fleet o fleet)
  unfolding converge_fleet
  converge_fleet-Keeps fleet =
      Sound-next (gets-Keeps (λ w. converge_capacity fleet (list_specs w.specs)))
        (λ a. carry_capacity-Keeps fleet a)

  converge_all-Keeps : {Γ : List Spec} (fleets : List Fleet) → Keeps Γ (converge_all o fleets)
  unfolding converge_all
  converge_all-Keeps [] = Keeps-pure tt
  converge_all-Keeps (fleet ∷ fleets) = Sound-next (Sound-weaken l.lease_lost) (λ lost.
      Sound-next (Sound-if lost (λ e. Keeps-pure true) (λ e. maintenance_holds-Keeps)) (λ held.
        Keeps-when (not held) (λ e.
          Sound-next
            (Sound-try (converge_fleet-Keeps fleet) (λ d u. Keeps-pure d)
              (λ x. report-Keeps (failure fleet.fleet_id (o.text_of x))))
            (λ u. converge_all-Keeps fleets))))

  report_error-Keeps : {Γ : List Spec} (s : Spec) (e : Error) → Keeps Γ (report_error o s e)
  report_error-Keeps s (of_spec (SpecError.stale i v w)) = hold-Keeps s Held.changed_mid_pass
  report_error-Keeps s (of_spec e) = report-Keeps (failure s.runner_id (o.text_of (of_spec e)))
  report_error-Keeps s e = report-Keeps (failure s.runner_id (o.text_of e))

  step_all-Keeps :
      {Γ : List Spec} (specs : List Spec)
      → ((w : World) → Knows w Γ → Knows w specs)
      → Keeps Γ (step_all o specs)
  unfolding step_all
  step_all-Keeps [] holds = Keeps-pure tt
  step_all-Keeps (s ∷ specs) holds = Sound-next maintenance_holds-Keeps (λ held.
      Keeps-when (not held) (λ e. Sound-next (Sound-weaken l.lease_lost) (λ lost.
        Sound-if lost (λ h. report-Keeps Line.lease_lost)
          (λ h.
            Sound-next
              (Sound-try (step-Keeps o l s (λ w k. (holds w k).0)) (λ d u. Keeps-pure d)
                (λ x. report_error-Keeps s x))
              (λ u. step_all-Keeps specs (λ w k. (holds w k).1))))))

-- An action that keeps what `Evolves` says where no two rows have one key.
record Starts (m : Action Done) : Type 0 where
  pub from : (w : World) → distinct (ids w.specs) ≡ true → Evolves w (m w).1

after_Evolves :
    {A : Type 0} (f : A → Action Done) (w v : World) (r : Result A)
    → Evolves w v
    → distinct (ids w.specs) ≡ true
    → ((a : A) → Starts (f a))
    → (let x : Result Done × World = elim r [ ok a ↦ f a v | raised e ↦ raise e v ] in
        Evolves w x.1)
after_Evolves f w v (ok a) e d k = Evolves-trans e ((k a).from v (e.keys d))
after_Evolves f w v (raised x) e d k = e

Starts-next :
    {A : Type 0} {m : Action A} {f : A → Action Done}
    → Keeps [] m
    → ((a : A) → Starts (f a))
    → Starts (m >>= f)
Starts-next {A} {m} {f} h k = record {
  from = λ w d. after_Evolves f w (m w).1 (m w).0 (h.runs w tt).0 d k;
}

step_listed-Starts :
    (o : Outside) → Lawful o → Starts (gets (λ w. list_specs w.specs) >>= step_all o)
step_listed-Starts o l = record {
  from = λ w d.
      ((step_all-Keeps o l {Γ = list_specs w.specs} (list_specs w.specs) (λ a k. k)).runs w
        (listed-Knows w d)).0;
}

pass_once-Starts : (o : Outside) → Lawful o → Starts (pass_once o)
unfolding pass_once
pass_once-Starts o l = Starts-next (sweep-Keeps o l) (λ u.
    Starts-next l.fleets
      (λ fleets. Starts-next (converge_all-Keeps o l fleets) (λ v. step_listed-Starts o l)))

-- From a table of specs in which no two rows have one key, a whole pass moves every runner only
-- along the edges of the machine, and makes no call that ends the work of a runner at work.
pub pass_once-Evolves :
    (o : Outside)
    → Lawful o
    → (w : World) → distinct (ids w.specs) ≡ true
    → Evolves w (pass_once o w).1
pass_once-Evolves o l w d = (pass_once-Starts o l).from w d
