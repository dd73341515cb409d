-- ===== src/Control/Keeping/Removing.antt =====
-- `Evolves` for the steps of Ending, and for `_do_cancel_drain`.
use nomercy_github_runner.Prelude.{
  ℕ, ◌≡◌, refl, true, false, Option, none, some, List, [], ◌∷◌, ◌++◌, arith,
}
use nomercy_github_runner.States.Names.{
  State, Verb, state_eq, in_states, idle, drained, provisioning, deregistering, removing, absent,
  failed,
}
use nomercy_github_runner.States.Edges.{aborts_a_job, at_work}
use nomercy_github_runner.Specs.{Spec}
use nomercy_github_runner.Operations.Table.{Operation}
use nomercy_github_runner.Reconciler.Decide.{Phase}
use nomercy_github_runner.Control.World.{report_line, did, failure, no_row, pure, ◌>>=◌, ◌>>◌}
use nomercy_github_runner.Control.Stores.{fail_op}
use nomercy_github_runner.Control.Outside.{Outside}
use nomercy_github_runner.Control.Evolves.{near}
use nomercy_github_runner.Control.Lawful.{Lawful}
use nomercy_github_runner.Control.Rules.{
  Sound, Keeps, Sound-next, Sound-bind, Sound-if, Sound-pure, Sound-try, Sound-weaken, Sound-raise,
  Sound-untold, Keeps-pure, Holds, AnyResult,
}
use nomercy_github_runner.Control.Leaves.{
  look-Sound, update_row-Keeps, report-Keeps, succeed_op-Keeps, fail_op-Keeps,
}
use nomercy_github_runner.Control.Transitions.{move-Sound, kept-Sound}
use nomercy_github_runner.Control.Moves.{unchanged, clear_operation}
use nomercy_github_runner.Control.Steps.{do_cancel_drain, with_settings, wording}
use nomercy_github_runner.Control.Ending.{
  do_withdraw, do_deregister, do_repair, do_clear_cache, clear_of, drop_registration, remove_unit,
  remove_for_good, rebuild, do_remove, is_registered, no_registration, no_error, rebuilt,
  recreating, busy_at_clear, deregister_before_remove, replacement_after_removal,
}
use nomercy_github_runner.Control.Keeping.Moving.{
  advance-Keeps, clear_operation-Keeps, fail_step-Keeps, attempt_step-Keeps, finish-Keeps,
}
use nomercy_github_runner.Control.Keeping.Entering.{harmless, at_rest, call-Keeps, enter-Sound}

-- The states in which a unit is removed.
abbrev pub removable : List State
removable = failed ∷ removing ∷ []

removable_at_rest : (a : State) → in_states a removable ≡ true → in_states a at_work ≡ false
removable_at_rest a h = ground arith

near-removable :
    (a b : State) → in_states a removable ≡ true → near a b ≡ true → in_states b removable ≡ true
near-removable a b h g = ground arith

-- What the row of a runner is known to be when its registration is dropped.
abbrev kept_as : Option Spec → List Spec
kept_as none = []
kept_as (some s) = s ∷ []

abbrev KeptRemovable : Option Spec → Type 0
KeptRemovable none = Unit
KeptRemovable (some s) = in_states s.actual_state removable ≡ true

module _ (o : Outside) (l : Lawful o) where
  pub do_cancel_drain-Keeps :
      {Γ : List Spec} (s : Spec) (op : Option Operation)
      → Holds Γ s
      → Keeps Γ (do_cancel_drain o s op)
  unfolding do_cancel_drain
  do_cancel_drain-Keeps s op holds = Sound-next (attempt_step-Keeps o l op Verb.cancel_drain) (λ u.
      Sound-try
        (call-Keeps Verb.cancel_drain s (harmless Verb.cancel_drain s.actual_state refl)
          (Sound-weaken (l.cancel_drain s)))
        (λ q x.
          Sound-bind (move-Sound s idle unchanged (λ y. (refl, refl)) holds)
            (λ t at. report-Keeps (did Verb.cancel_drain s.runner_id)))
        (λ e. fail_step-Keeps o l s op e (wording Verb.cancel_drain)))

  pub do_withdraw-Keeps :
      {Γ : List Spec} (s : Spec) (op : Option Operation) → Holds Γ s → Keeps Γ (do_withdraw o s op)
  unfolding do_withdraw
  do_withdraw-Keeps s op holds =
      Sound-bind (move-Sound s absent unchanged (λ y. (refl, refl)) holds) (λ t at.
        Sound-next (finish-Keeps o l s op) (λ u. report-Keeps (did Verb.withdraw s.runner_id)))

  pub do_deregister-Keeps :
      {Γ : List Spec} (s : Spec) (op : Option Operation)
      → Holds Γ s
      → aborts_a_job Verb.deregister s.actual_state ≡ false
      → Keeps Γ (do_deregister o s op)
  unfolding do_deregister
  do_deregister-Keeps s op holds safe = Sound-next (attempt_step-Keeps o l op Verb.deregister) (λ u.
      Sound-bind (enter-Sound s deregistering holds) (λ r there.
        Sound-try (call-Keeps Verb.deregister s safe (Sound-weaken (l.deregister r)))
          (λ q x.
            Sound-bind (move-Sound r removing no_registration (λ y. (refl, refl)) (λ w k. k.0))
              (λ t at. report-Keeps (did Verb.deregister r.runner_id)))
          (λ e. fail_step-Keeps o l r op e (wording Verb.deregister))))

  pub do_repair-Keeps :
      {Γ : List Spec} (s : Spec) (op : Option Operation) → Holds Γ s → Keeps Γ (do_repair o s op)
  unfolding do_repair
  do_repair-Keeps s op holds = Sound-next (attempt_step-Keeps o l op Verb.repair) (λ u.
      Sound-bind (move-Sound s provisioning no_error (λ y. (refl, refl)) holds)
        (λ t at. report-Keeps (did Verb.repair s.runner_id)))

  clear_failed-Keeps :
      {Γ : List Spec} (s : Spec) (op : Operation) (error text : ℕ)
      → Keeps Γ (do
        now ← o.now
        fail_op now op.operation_id error
        clear_operation o s
        report_line (failure s.runner_id text))
  clear_failed-Keeps s op error text = Sound-next (Sound-weaken l.now) (λ now.
      Sound-next (fail_op-Keeps now op.operation_id error) (λ u.
        Sound-next (clear_operation-Keeps o l s) (λ v. report-Keeps (failure s.runner_id text))))

  clear_of-Keeps : {Γ : List Spec} (s : Spec) (op : Operation) → Keeps Γ (clear_of o s op)
  clear_of-Keeps s op =
      Sound-if (in_states s.actual_state (idle ∷ drained ∷ []))
        (λ e. Sound-next (attempt_step-Keeps o l (some op) Verb.clear_cache) (λ u.
          Sound-try
            (call-Keeps Verb.clear_cache s (harmless Verb.clear_cache s.actual_state refl)
              (Sound-weaken (l.clear_cache s)))
            (λ freed x. Sound-next (Sound-weaken l.now) (λ now.
              Sound-next (succeed_op-Keeps now op.operation_id freed) (λ v.
                Sound-next (Sound-weaken (l.invalidate_cache s.runner_id)) (λ y.
                  Sound-next (clear_operation-Keeps o l s)
                    (λ z. report-Keeps (did Verb.clear_cache s.runner_id))))))
            (λ e.
              clear_failed-Keeps s op (o.prefixed (wording Verb.clear_cache) (o.text_of e))
                (o.text_of e))))
        (λ e. clear_failed-Keeps s op busy_at_clear busy_at_clear)

  pub do_clear_cache-Keeps :
      {Γ : List Spec} (s : Spec) (op : Option Operation) → Keeps Γ (do_clear_cache o s op)
  unfolding do_clear_cache
  do_clear_cache-Keeps s none = Sound-raise no_row
  do_clear_cache-Keeps s (some op) = clear_of-Keeps s op

  drop_registration-Sound :
      {Γ : List Spec} (s : Spec) (op : Option Operation)
      → Holds Γ s
      → in_states s.actual_state removable ≡ true
      → Sound Γ (drop_registration o s op) kept_as KeptRemovable
  unfolding drop_registration
  drop_registration-Sound s op holds fits =
      Sound-if (is_registered s)
        (λ e. Sound-next (attempt_step-Keeps o l op Verb.deregister) (λ u.
          Sound-try
            (call-Keeps Verb.deregister s
              (at_rest Verb.deregister s.actual_state (removable_at_rest s.actual_state fits))
              (Sound-weaken (l.deregister s)))
            (λ q x. Sound-bind (kept-Sound s no_registration (λ y. (refl, refl)) holds) (λ r close.
              Sound-pure (some r) (λ w k. (k.0, tt))
                (near-removable s.actual_state r.actual_state fits close)))
            (λ x.
              Sound-next (fail_step-Keeps o l s op x deregister_before_remove)
                (λ v. Sound-pure none (λ w k. tt) tt))))
        (λ e. Sound-pure (some s) (λ w k. (holds w k, tt)) fits)

  rebuild-Keeps : {Γ : List Spec} (s : Spec) (op : Option Operation) → Keeps Γ (rebuild o s op)
  rebuild-Keeps s op = Sound-next (Sound-weaken (l.forget_adoption s)) (λ u.
      Sound-bind (look-Sound s.runner_id) (λ r own.
        Sound-try (Sound-weaken (l.replacement_settings r))
          (λ settings x.
            Sound-next
              (update_row-Keeps r.runner_id r.spec_version (with_settings settings)
                (λ y. (refl, refl)))
              (λ b. Sound-bind (look-Sound r.runner_id) (λ q own.
                Sound-bind (move-Sound q provisioning rebuilt (λ y. (refl, refl)) (λ w k. k.0))
                  (λ t at.
                    Sound-next (advance-Keeps op Phase.rebuilding)
                      (λ v. report-Keeps (did Verb.remove q.runner_id))))))
          (λ e. fail_step-Keeps o l r op e replacement_after_removal)))

  remove_for_good-Keeps :
      {Γ : List Spec} (s : Spec) (op : Option Operation)
      → Holds Γ s
      → Keeps Γ (remove_for_good o s op)
  remove_for_good-Keeps s op holds =
      Sound-bind (move-Sound s absent unchanged (λ y. (refl, refl)) holds) (λ t at.
        Sound-next (finish-Keeps o l t op) (λ u. report-Keeps (did Verb.remove t.runner_id)))

  remove_unit-Keeps :
      {Γ : List Spec} (op : Option Operation) (s : Spec)
      → Holds Γ s
      → in_states s.actual_state removable ≡ true
      → Keeps Γ (remove_unit o op s)
  unfolding remove_unit
  remove_unit-Keeps op s holds fits =
      Sound-bind {Q = λ r. r ∷ []} {F = AnyResult}
        (Sound-if (state_eq s.actual_state failed)
          (λ e. Sound-untold (move-Sound s removing unchanged (λ y. (refl, refl)) holds))
          (λ e. Sound-pure s (λ w k. (holds w k, tt)) tt))
        (λ r u. Sound-next (attempt_step-Keeps o l op Verb.remove) (λ v.
          Sound-try
            (call-Keeps Verb.remove s
              (at_rest Verb.remove s.actual_state (removable_at_rest s.actual_state fits))
              (Sound-weaken (l.remove r (recreating r))))
            (λ q x.
              Sound-if (recreating r) (λ e. rebuild-Keeps r op)
                (λ e. remove_for_good-Keeps r op (λ w k. k.0)))
            (λ e. fail_step-Keeps o l r op e (wording Verb.remove))))

  pub do_remove-Keeps :
      {Γ : List Spec} (s : Spec) (op : Option Operation)
      → Holds Γ s
      → in_states s.actual_state removable ≡ true
      → Keeps Γ (do_remove o s op)
  unfolding do_remove
  do_remove-Keeps {Γ} s op holds fits =
      Sound-bind (drop_registration-Sound s op holds fits) (λ kept f. removed kept f)
    where
      removed :
          (kept : Option Spec)
          → KeptRemovable kept
          → Keeps (kept_as kept ++ Γ) (elim kept [ none ↦ pure tt | some r ↦ remove_unit o op r ])
      removed none f = Keeps-pure tt
      removed (some r) f = remove_unit-Keeps op r (λ w k. k.0) f
