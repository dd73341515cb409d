-- ===== src/Control/Keeping/Asking.antt =====
-- `Evolves` for the requests of dashboard/control/service.py.
use nomercy_github_runner.Prelude.{
  ℕ, refl, Bool, true, false, not, Option, none, some, List, is_some, ◌&&◌,
}
use nomercy_github_runner.States.Names.{Verb, verb_eq, in_verbs}
use nomercy_github_runner.States.Edges.{aborts_a_job}
use nomercy_github_runner.States.Asking.{Checked, reads, fleet_verbs, allows}
use nomercy_github_runner.Specs.{Spec, get_spec}
use nomercy_github_runner.Operations.Table.{Operation, by_key}
use nomercy_github_runner.Reconciler.Decide.{Desired}
use nomercy_github_runner.Control.World.{World, Refusal, refused, or_raise, of_state}
use nomercy_github_runner.Control.Outside.{Outside}
use nomercy_github_runner.Control.Evolves.{Evolves, Evolves-self, Follows-self}
use nomercy_github_runner.Control.Lawful.{Lawful}
use nomercy_github_runner.Control.Rules.{
  Keeps, Sound-next, Sound-if, Sound-option, Sound-try, Sound-weaken, Sound-raise, Keeps-pure,
  Keeps-when,
}
use nomercy_github_runner.Control.Leaves.{
  gets-Keeps, update_row-Keeps, open_row-Keeps, succeed_op-Keeps, action-Keeps,
}
use nomercy_github_runner.Control.Request.{
  is_verb, drains_first, refuse_if, find_spec, find_repeat, repeated, is_reused, or_unknown, admit,
  asked_for, request, schedule, act_on, audit_request, is_audited, act, wanting, set_desired,
}
use nomercy_github_runner.Control.Keeping.Moving.{operation_of-Keeps}

or_raise-Evolves :
    (w : World) (s : Option Spec) → Evolves w (or_raise (refused Refusal.unknown_runner) s w).1
or_raise-Evolves w none = Evolves-self w
or_raise-Evolves w (some s) = Evolves-self w

module _ {Γ : List Spec} where
  refuse_if-Keeps : (b : Bool) (r : Refusal) → Keeps Γ (refuse_if b r)
  refuse_if-Keeps b r = Sound-if b (λ e. Sound-raise (refused r)) (λ e. Keeps-pure tt)

  find_spec-Keeps : (i : ℕ) → Keeps Γ (find_spec i)
  find_spec-Keeps i = action-Keeps (find_spec i) (λ w k. or_raise-Evolves w (get_spec i w.specs))

  repeated-Keeps : (i : ℕ) (v : Verb) (op : Option Operation) → Keeps Γ (repeated i v op)
  repeated-Keeps i v none = Keeps-pure none
  repeated-Keeps i v (some op) =
      Sound-next (refuse_if-Keeps (is_reused i v op) Refusal.key_reused) (λ u. Keeps-pure (some op))

  find_repeat-Keeps : (key : Option ℕ) (i : ℕ) (v : Verb) → Keeps Γ (find_repeat key i v)
  unfolding find_repeat
  find_repeat-Keeps none i v = Keeps-pure none
  find_repeat-Keeps (some key) i v =
      Sound-next (gets-Keeps (λ w. by_key key w.table)) (λ op. repeated-Keeps i v op)

  or_unknown-Keeps : {A : Type 0} (c : Checked A) → Keeps Γ (or_unknown c)
  or_unknown-Keeps (Checked.ok a) = Keeps-pure a
  or_unknown-Keeps (Checked.raised e) = Sound-raise (of_state e)

  admit-Keeps : (s : Spec) (v : Verb) → Keeps Γ (admit s v)
  unfolding admit
  admit-Keeps s v =
      Sound-next (refuse_if-Keeps (aborts_a_job v s.actual_state) Refusal.would_abort) (λ u.
        Sound-next (or_unknown-Keeps (allows v (some s.actual_state))) (λ possible.
          Sound-next (refuse_if-Keeps (not possible && not (drains_first s v)) Refusal.not_possible)
            (λ x.
              Sound-next (operation_of-Keeps s)
                (λ op. refuse_if-Keeps (is_some op) Refusal.in_flight))))

  audit_request-Keeps : (v : Verb) (i : ℕ) (accepted : Bool) → Keeps Γ (audit_request v i accepted)
  audit_request-Keeps v i accepted = record {
    runs = λ w k. (
      record {
        rows = λ j s e. (s, e, Follows-self s);
        safe = λ a. a;
        moves = λ m. m;
        keys = λ d. d;
      },
      (tt, tt),
    );
  }

module _ (o : Outside) (l : Lawful o) where
  schedule-Keeps :
      {Γ : List Spec} (s : Spec) (v : Verb) (key : Option ℕ) → Keeps Γ (schedule o s v key)
  unfolding schedule
  schedule-Keeps s v key =
      Sound-next
        (Keeps-when (verb_eq v Verb.recreate) (λ e. Sound-weaken (l.validate_replacement s)))
        (λ u. Sound-next (Sound-weaken l.new_id) (λ new_id. Sound-next (Sound-weaken l.now) (λ now.
          Sound-next (open_row-Keeps new_id now (request v s.runner_id key)) (λ found.
            Sound-if found.1
              (λ e.
                Sound-next
                  (update_row-Keeps s.runner_id s.spec_version (asked_for v found.0.operation_id)
                    (λ r. (refl, refl)))
                  (λ b. Keeps-pure found.0.operation_id))
              (λ e. Keeps-pure found.0.operation_id)))))

  act_on-Keeps : {Γ : List Spec} (i : ℕ) (v : Verb) (key : Option ℕ) → Keeps Γ (act_on o i v key)
  unfolding act_on
  act_on-Keeps i v key = Sound-next (refuse_if-Keeps (not (is_verb v)) Refusal.unknown_verb) (λ a.
      Sound-next (refuse_if-Keeps (in_verbs v reads) Refusal.is_read) (λ b.
        Sound-next (refuse_if-Keeps (in_verbs v fleet_verbs) Refusal.acts_on_a_fleet) (λ c.
          Sound-next (find_spec-Keeps i) (λ s. Sound-next (find_repeat-Keeps key i v) (λ repeat.
            Sound-option repeat (λ e. Sound-next (admit-Keeps s v) (λ d. schedule-Keeps s v key))
              (λ op e. Keeps-pure op.operation_id))))))

  -- `act`
  pub act-Keeps : {Γ : List Spec} (i : ℕ) (v : Verb) (key : Option ℕ) → Keeps Γ (act o i v key)
  unfolding act
  act-Keeps i v key =
      Sound-try (act_on-Keeps i v key)
        (λ id u. Sound-next (audit_request-Keeps v i true) (λ x. Keeps-pure id))
        (λ e.
          Sound-next (Keeps-when (is_audited e) (λ h. audit_request-Keeps v i false))
            (λ u. Sound-raise e))

  -- `set_desired`
  pub set_desired-Keeps :
      {Γ : List Spec} (i : ℕ) (d : Desired) (key : Option ℕ) → Keeps Γ (set_desired o i d key)
  unfolding set_desired
  set_desired-Keeps i d key = Sound-next (find_spec-Keeps i) (λ s.
      Sound-next (Sound-weaken l.new_id) (λ new_id. Sound-next (Sound-weaken l.now) (λ now.
        Sound-next (open_row-Keeps new_id now (request Verb.other i key)) (λ found.
          Sound-if found.1
            (λ e.
              Sound-next (update_row-Keeps i s.spec_version (wanting d) (λ r. (refl, refl))) (λ b.
                Sound-next (Sound-weaken l.now) (λ later.
                  Sound-next (succeed_op-Keeps later found.0.operation_id (some new_id))
                    (λ x. Keeps-pure found.0.operation_id))))
            (λ e. Keeps-pure found.0.operation_id)))))
