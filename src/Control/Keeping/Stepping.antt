-- ===== src/Control/Keeping/Stepping.antt =====
-- `Evolves` for the steps of Steps, from a runner that they may be taken on.
use nomercy_github_runner.Prelude.{
  ℕ, ◌≡◌, refl, true, false, Option, none, some, List, [], ◌∷◌, ◌==◌,
}
use nomercy_github_runner.States.Names.{
  Verb, state_eq, planned, provisioning, provisioned, registering, idle, starting, stopping,
  stopped, draining, drained,
}
use nomercy_github_runner.States.Edges.{aborts_a_job}
use nomercy_github_runner.Specs.{Spec}
use nomercy_github_runner.Operations.Table.{Operation, default_deadline_seconds}
use nomercy_github_runner.Reconciler.Decide.{Phase}
use nomercy_github_runner.Control.World.{Action, did, Held}
use nomercy_github_runner.Control.Outside.{Outside, Built, Registered}
use nomercy_github_runner.Control.Lawful.{Lawful}
use nomercy_github_runner.Control.Rules.{
  Sound, Keeps, Sound-next, Sound-bind, Sound-if, Sound-option, Sound-pure, Sound-try, Sound-weaken,
  Keeps-pure, Keeps-when, Holds, AnyResult, Sound-untold,
}
use nomercy_github_runner.Control.Leaves.{
  look-Sound, update_row-Keeps, open_row-Keeps, merge_op-Keeps, report-Keeps,
}
use nomercy_github_runner.Control.Transitions.{move-Sound}
use nomercy_github_runner.Control.Moves.{unchanged}
use nomercy_github_runner.Control.Steps.{
  with_settings, with_operation, built_as, noted_as, no_rollback, do_provision, do_register,
  do_start, do_stop, do_drain, provision_unit, open_provision, after_provision, is_placed, place,
  after_register, begin_drain, record_host, record_registration, wording,
}
use nomercy_github_runner.Control.Keeping.Moving.{
  hold-Keeps, advance-Keeps, fail_step-Keeps, attempt_step-Keeps, close_if_fulfilled-Keeps,
}
use nomercy_github_runner.Control.Keeping.Entering.{
  harmless, call-Keeps, enter-Sound, record_host-Keeps, record_registration-Keeps,
}

module _ (o : Outside) (l : Lawful o) where
  open_provision-Sound :
      {Γ : List Spec} (s : Spec) (op : Option Operation)
      → Holds Γ s
      → Sound Γ (open_provision o s op) (λ p. p.1 ∷ []) AnyResult
  open_provision-Sound s (some op) holds = Sound-pure (op, s) (λ w k. (holds w k, tt)) tt
  open_provision-Sound s none holds = Sound-next (Sound-weaken l.new_id) (λ new_id.
      Sound-next (Sound-weaken l.now) (λ now.
        Sound-next
          (open_row-Keeps new_id now (record {
            verb = Verb.provision;
            runner_id = some s.runner_id;
            fleet_id = none;
            key = none;
            deadline_seconds = default_deadline_seconds;
          }))
          (λ found.
            Sound-next
              (update_row-Keeps s.runner_id s.spec_version (with_operation found.0.operation_id)
                (λ r. (refl, refl)))
              (λ b.
                Sound-bind (look-Sound s.runner_id)
                  (λ r own. Sound-pure (found.0, r) (λ w k. (k.0, tt)) tt)))))

  after_provision-Keeps :
      {Γ : List Spec} (s : Spec) (op : Operation) (b : Built) → Keeps Γ (after_provision o s op b)
  after_provision-Keeps s op b = Sound-next (merge_op-Keeps op.operation_id no_rollback) (λ u.
      Sound-bind (look-Sound s.runner_id) (λ r own.
        Sound-bind
          (move-Sound r provisioned (built_as b r.host_id) (λ x. (refl, refl)) (λ w k. k.0))
          (λ q there. report-Keeps (did Verb.provision s.runner_id))))

  provision_unit-Keeps :
      {Γ : List Spec} (s : Spec) (op : Option Operation)
      → Holds Γ s
      → Keeps Γ (provision_unit o s op)
  unfolding provision_unit
  provision_unit-Keeps {Γ} s op holds = Sound-bind (open_provision-Sound s op holds) (λ opened u.
      Sound-next (attempt_step-Keeps o l (some opened.0) Verb.provision) (λ v.
        Sound-bind (enter-Sound opened.1 provisioning (λ w k. k.0)) (λ r there.
          Sound-try
            (call-Keeps Verb.provision opened.1 (harmless Verb.provision opened.1.actual_state refl)
              (l.provision (r ∷ opened.1 ∷ Γ) r (record_host r) (λ host. record_host-Keeps r host)))
            (λ built x. after_provision-Keeps r opened.0 built)
            (λ e. fail_step-Keeps o l r (some opened.0) e (wording Verb.provision)))))

  place-Keeps :
      {Γ : List Spec} (s : Spec) (p : Spec → Action (Option ℕ))
      → o.placement ≡ some p
      → Keeps Γ (place o s p)
  place-Keeps s p e = Sound-next (Sound-weaken (l.placement p e s)) (λ host.
      Sound-option host (λ h. Sound-next (hold-Keeps s Held.not_placed) (λ u. Keeps-pure false))
        (λ h q. Keeps-pure true))

  is_placed-Keeps : {Γ : List Spec} (s : Spec) → Keeps Γ (is_placed o s)
  unfolding is_placed
  is_placed-Keeps s =
      Sound-if (state_eq s.actual_state planned)
        (λ e.
          Sound-option s.host_id
            (λ h. Sound-option o.placement (λ q. Keeps-pure true) (λ p q. place-Keeps s p q))
            (λ host h. Keeps-pure true))
        (λ e. Keeps-pure true)

  pub do_provision-Keeps :
      {Γ : List Spec} (s : Spec) (op : Option Operation) → Holds Γ s → Keeps Γ (do_provision o s op)
  unfolding do_provision
  do_provision-Keeps s op holds = Sound-next (Sound-weaken (l.effective_settings s)) (λ settings.
      Sound-bind {Q = λ r. r ∷ []} {F = AnyResult}
        (Sound-if (settings == s.settings) (λ e. Sound-pure s (λ w k. (holds w k, tt)) tt)
          (λ e.
            Sound-next
              (update_row-Keeps s.runner_id s.spec_version (with_settings settings)
                (λ r. (refl, refl)))
              (λ b. Sound-untold (look-Sound s.runner_id))))
        (λ r u.
          Sound-next (is_placed-Keeps r)
            (λ placed. Keeps-when placed (λ e. provision_unit-Keeps r op (λ w k. k.0)))))

  after_register-Keeps :
      {Γ : List Spec} (s : Spec) (op : Option Operation) (r : Registered)
      → Keeps Γ (after_register o s op r)
  after_register-Keeps s op r = Sound-bind (look-Sound s.runner_id) (λ q own.
      Sound-bind (move-Sound q idle (noted_as r) (λ x. (refl, refl)) (λ w k. k.0)) (λ t there.
        Sound-next (report-Keeps (did Verb.register s.runner_id))
          (λ u. Sound-next (close_if_fulfilled-Keeps o l t op) (λ b. Keeps-pure tt))))

  pub do_register-Keeps :
      {Γ : List Spec} (s : Spec) (op : Option Operation) → Holds Γ s → Keeps Γ (do_register o s op)
  unfolding do_register
  do_register-Keeps {Γ} s op holds = Sound-next (attempt_step-Keeps o l op Verb.register) (λ u.
      Sound-bind (move-Sound s registering unchanged (λ x. (refl, refl)) holds) (λ r there.
        Sound-try
          (call-Keeps Verb.register s (harmless Verb.register s.actual_state refl) (
            l.register (r ∷ Γ) r (record_registration r)
              (λ rid uuid. record_registration-Keeps r rid uuid)))
          (λ q x. after_register-Keeps r op q)
          (λ e. fail_step-Keeps o l r op e (wording Verb.register))))

  pub do_start-Keeps :
      {Γ : List Spec} (s : Spec) (op : Option Operation) → Holds Γ s → Keeps Γ (do_start o s op)
  unfolding do_start
  do_start-Keeps s op holds = Sound-next (attempt_step-Keeps o l op Verb.start) (λ u.
      Sound-bind (enter-Sound s starting holds) (λ r there.
        Sound-try
          (call-Keeps Verb.start s (harmless Verb.start s.actual_state refl)
            (Sound-weaken (l.start r)))
          (λ q x. Sound-bind (move-Sound r idle unchanged (λ y. (refl, refl)) (λ w k. k.0)) (λ t at.
            Sound-next (advance-Keeps op Phase.started)
              (λ v. report-Keeps (did Verb.start r.runner_id))))
          (λ e. fail_step-Keeps o l r op e (wording Verb.start))))

  pub do_stop-Keeps :
      {Γ : List Spec} (s : Spec) (op : Option Operation)
      → Holds Γ s
      → aborts_a_job Verb.stop s.actual_state ≡ false
      → Keeps Γ (do_stop o s op)
  unfolding do_stop
  do_stop-Keeps s op holds safe = Sound-next (attempt_step-Keeps o l op Verb.stop) (λ u.
      Sound-bind (enter-Sound s stopping holds) (λ r there.
        Sound-try (call-Keeps Verb.stop s safe (Sound-weaken (l.stop r)))
          (λ q x.
            Sound-bind (move-Sound r stopped unchanged (λ y. (refl, refl)) (λ w k. k.0)) (λ t at.
              Sound-next (advance-Keeps op Phase.stopped) (λ v.
                Sound-next (report-Keeps (did Verb.stop t.runner_id))
                  (λ y. Sound-next (close_if_fulfilled-Keeps o l t op) (λ b. Keeps-pure tt)))))
          (λ e. fail_step-Keeps o l r op e (wording Verb.stop))))

  begin_drain-Sound :
      {Γ : List Spec} (s : Spec) (op : Option Operation)
      → Holds Γ s
      → Sound Γ (begin_drain o s op) (λ r. r ∷ []) AnyResult
  begin_drain-Sound s op holds =
      Sound-if (state_eq s.actual_state draining) (λ e. Sound-pure s (λ w k. (holds w k, tt)) tt)
        (λ e.
          Sound-next (attempt_step-Keeps o l op Verb.drain)
            (λ u. Sound-untold (move-Sound s draining unchanged (λ r. (refl, refl)) holds)))

  pub do_drain-Keeps :
      {Γ : List Spec} (s : Spec) (op : Option Operation) → Holds Γ s → Keeps Γ (do_drain o s op)
  unfolding do_drain
  do_drain-Keeps s op holds = Sound-bind (begin_drain-Sound s op holds) (λ r u.
      Sound-try
        (call-Keeps Verb.drain s (harmless Verb.drain s.actual_state refl)
          (Sound-weaken (l.drain r)))
        (λ finished x.
          Sound-next
            (Keeps-when finished (λ e.
              Sound-bind (move-Sound r drained unchanged (λ y. (refl, refl)) (λ w k. k.0))
                (λ t at. Keeps-pure tt)))
            (λ v. report-Keeps (did Verb.drain r.runner_id)))
        (λ e. fail_step-Keeps o l r op e (wording Verb.drain)))
