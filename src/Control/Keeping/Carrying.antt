-- ===== src/Control/Keeping/Carrying.antt =====
-- `Evolves` from the action that was decided to the step, through the four locks of `_step`.
use nomercy_github_runner.Prelude.{
  ◌≡◌, refl, Bool, true, false, not, Option, none, some, List, [], ◌∷◌, ◌++◌, ◌&&◌, ◌||◌, arith,
}
use nomercy_github_runner.States.Names.{
  State, Verb, state_eq, verb_eq, in_states, in_verbs, drained,
}
use nomercy_github_runner.States.Edges.{aborts_a_job}
use nomercy_github_runner.Specs.{Spec}
use nomercy_github_runner.Operations.Table.{Operation}
use nomercy_github_runner.Reconciler.Decide.{destructive, needs_healthy_worker}
use nomercy_github_runner.Control.World.{Held, quiesced, no_row, cache_budget}
use nomercy_github_runner.Control.Outside.{Outside}
use nomercy_github_runner.Control.Lawful.{Lawful}
use nomercy_github_runner.Control.Rules.{
  Sound, Keeps, Sound-next, Sound-bind, Sound-if, Sound-option, Sound-pure, Sound-try, Sound-weaken,
  Sound-raise, Keeps-pure, Keeps-when, Holds,
}
use nomercy_github_runner.Control.Leaves.{look-Sound, report-Keeps}
use nomercy_github_runner.Control.Turns.{is_verb_of, is_over_budget}
use nomercy_github_runner.Control.Locks.{
  queue_cache_budget, passes_preflight, look_again, quiet_enough, is_quiescent, after_observe, take,
  accept, accept_seen, carry_out, replacement_preflight, quiesce_before,
}
use nomercy_github_runner.Control.Keeping.Moving.{
  hold-Keeps, fail_step-Keeps, attempt_step-Keeps, worker_accepts-Keeps,
}
use nomercy_github_runner.Control.Keeping.Entering.{harmless, call-Keeps}
use nomercy_github_runner.Control.Keeping.Stepping.{
  do_provision-Keeps, do_register-Keeps, do_start-Keeps, do_stop-Keeps, do_drain-Keeps,
}
use nomercy_github_runner.Control.Keeping.Removing.{
  removable, do_cancel_drain-Keeps, do_withdraw-Keeps, do_deregister-Keeps, do_repair-Keeps,
  do_clear_cache-Keeps, do_remove-Keeps,
}
use nomercy_github_runner.Control.Keeping.Looking.{do_observe-Keeps}
use nomercy_github_runner.Control.Keeping.Asking.{act-Keeps}

-- A step that may be taken on a runner in this state.
pub record Fits (action : Verb) (a : State) : Type 0 where
  pub safe : aborts_a_job action a ≡ false
  pub gone : verb_eq action Verb.remove ≡ true → in_states a removable ≡ true

drained_stays :
    (action : Verb) (a b : State)
    → (destructive action && state_eq a drained) ≡ true
    → (verb_eq action Verb.remove ≡ true → in_states a removable ≡ true)
    → verb_eq action Verb.remove ≡ true
    → in_states b removable ≡ true
drained_stays action a b h g e = ground (arith, g e)

-- A spec that a lock passes on, and what it fits.
abbrev passed_on : Option Spec → List Spec
passed_on none = []
passed_on (some s) = s ∷ []

abbrev FitsPassed : Verb → Option Spec → Type 0
FitsPassed action none = Unit
FitsPassed action (some s) = Fits action s.actual_state

module _ (o : Outside) (l : Lawful o) where
  -- `_queue_cache_budget`
  pub queue_cache_budget-Keeps : {Γ : List Spec} (s : Spec) → Keeps Γ (queue_cache_budget o s)
  unfolding queue_cache_budget
  queue_cache_budget-Keeps s = Sound-next (Sound-weaken l.now) (λ now.
      Keeps-when (is_over_budget now (o.cache_budget s) s) (λ e.
        Sound-next
          (act-Keeps o l s.runner_id Verb.clear_cache
            (some (o.budget_key s.runner_id (o.cache_budget s).cache_at)))
          (λ id. report-Keeps (cache_budget s.runner_id))))

  passes_preflight-Keeps :
      {Γ : List Spec} (s : Spec) (op : Option Operation) (action : Verb)
      → Keeps Γ (passes_preflight o s op action)
  unfolding passes_preflight
  passes_preflight-Keeps s op action =
      Sound-if (is_verb_of Verb.recreate op && in_verbs action (Verb.deregister ∷ Verb.remove ∷ []))
        (λ e.
          Sound-try (Sound-weaken (l.validate_replacement s)) (λ u v. Keeps-pure true)
            (λ x.
              Sound-next (fail_step-Keeps o l s op x replacement_preflight)
                (λ u. Keeps-pure false)))
        (λ e. Keeps-pure true)

  look_again-Sound :
      {Γ : List Spec} (s : Spec) (action : Verb)
      → Holds Γ s
      → Fits action s.actual_state
      → Sound Γ (look_again o s action) passed_on (FitsPassed action)
  unfolding look_again
  look_again-Sound s action holds fits =
      Sound-if (destructive action && state_eq s.actual_state drained)
        (λ e. Sound-next (do_observe-Keeps o l s false holds) (λ u.
          Sound-bind (look-Sound s.runner_id) (λ r own.
            Sound-if (aborts_a_job action r.actual_state)
              (λ h. Sound-next (hold-Keeps r Held.took_a_job) (λ v. Sound-pure none (λ w k. tt) tt))
              (λ h.
                Sound-pure (some r) (λ w k. (k.0, tt))
                  (record {
                    safe = h;
                    gone = drained_stays action s.actual_state r.actual_state e fits.gone;
                  })))))
        (λ e. Sound-pure (some s) (λ w k. (holds w k, tt)) fits)

  quiet_enough-Keeps :
      {Γ : List Spec} (s : Spec) (op : Option Operation) (action : Verb) (quiet : Bool)
      → Keeps Γ (quiet_enough o s op action quiet)
  quiet_enough-Keeps s op action true = Keeps-pure true
  quiet_enough-Keeps s op action false =
      Sound-try
        (Sound-next (attempt_step-Keeps o l op action) (λ u.
          call-Keeps Verb.drain s (harmless Verb.drain s.actual_state refl)
            (Sound-weaken (l.drain s))))
        (λ finished u.
          Sound-next (hold-Keeps s Held.may_still_run)
            (λ v. Sound-next (report-Keeps (quiesced s.runner_id)) (λ x. Keeps-pure false)))
        (λ e. Sound-next (fail_step-Keeps o l s op e quiesce_before) (λ u. Keeps-pure false))

  is_quiescent-Keeps :
      {Γ : List Spec} (s : Spec) (op : Option Operation) (action : Verb)
      → Keeps Γ (is_quiescent o s op action)
  unfolding is_quiescent
  is_quiescent-Keeps s op action =
      Sound-option o.quiescent (λ e. Keeps-pure true)
        (λ q e.
          Sound-if (destructive action || verb_eq action Verb.clear_cache)
            (λ h.
              Sound-next (Sound-weaken (l.quiescent q e s))
                (λ quiet. quiet_enough-Keeps s op action quiet))
            (λ h. Keeps-pure true))

  after_observe-Keeps :
      {Γ : List Spec} (s : Spec) (op : Option Operation) → Keeps Γ (after_observe o s op)
  after_observe-Keeps s none =
      Sound-bind (look-Sound s.runner_id) (λ r own. queue_cache_budget-Keeps r)
  after_observe-Keeps s (some op) = Keeps-pure tt

  take-Keeps :
      {Γ : List Spec} (v : Verb) (s : Spec) (op : Option Operation)
      → Holds Γ s
      → Fits v s.actual_state
      → Keeps Γ (take o v s op)
  unfolding take
  take-Keeps Verb.provision s op holds fits = do_provision-Keeps o l s op holds
  take-Keeps Verb.register s op holds fits = do_register-Keeps o l s op holds
  take-Keeps Verb.start s op holds fits = do_start-Keeps o l s op holds
  take-Keeps Verb.stop s op holds fits = do_stop-Keeps o l s op holds fits.safe
  take-Keeps Verb.drain s op holds fits = do_drain-Keeps o l s op holds
  take-Keeps Verb.cancel_drain s op holds fits = do_cancel_drain-Keeps o l s op holds
  take-Keeps Verb.withdraw s op holds fits = do_withdraw-Keeps o l s op holds
  take-Keeps Verb.deregister s op holds fits = do_deregister-Keeps o l s op holds fits.safe
  take-Keeps Verb.remove s op holds fits = do_remove-Keeps o l s op holds (fits.gone refl)
  take-Keeps Verb.repair s op holds fits = do_repair-Keeps o l s op holds
  take-Keeps Verb.clear_cache s op holds fits = do_clear_cache-Keeps o l s op
  take-Keeps Verb.observe s op holds fits =
      Sound-next (do_observe-Keeps o l s false holds) (λ u. after_observe-Keeps s op)
  take-Keeps _ s op holds fits = Sound-raise no_row

  accept-Keeps :
      {Γ : List Spec} (s : Spec) (op : Option Operation) (action : Verb)
      → Holds Γ s
      → Fits action s.actual_state
      → Keeps Γ (accept o s op action)
  accept-Keeps s op action holds fits =
      Sound-next
        (Sound-if (needs_healthy_worker action) (λ e. worker_accepts-Keeps o l s)
          (λ e. Keeps-pure true))
        (λ accepted.
          Sound-if (not accepted) (λ e. hold-Keeps s Held.worker_not_healthy)
            (λ e.
              Sound-next (is_quiescent-Keeps s op action)
                (λ quiet. Keeps-when quiet (λ h. take-Keeps action s op holds fits))))

  accept_seen-Keeps :
      (Γ : List Spec) (again : Option Spec) (op : Option Operation) (action : Verb)
      → FitsPassed action again
      → Keeps (passed_on again ++ Γ) (accept_seen o again op action)
  accept_seen-Keeps Γ none op action f = Keeps-pure tt
  accept_seen-Keeps Γ (some r) op action f = accept-Keeps r op action (λ w k. k.0) f

  pub carry_out-Keeps :
      {Γ : List Spec} (s : Spec) (op : Option Operation) (action : Verb)
      → Holds Γ s
      → (verb_eq action Verb.remove ≡ true → in_states s.actual_state removable ≡ true)
      → Keeps Γ (carry_out o s op action)
  unfolding carry_out
  carry_out-Keeps {Γ} s op action holds gone =
      Sound-next (passes_preflight-Keeps s op action) (λ fits. Keeps-when fits (λ e.
        Sound-if (aborts_a_job action s.actual_state) (λ h. hold-Keeps s Held.would_abort)
          (λ h.
            Sound-bind (look_again-Sound s action holds (record { safe = h; gone = gone }))
              (λ again f. accept_seen-Keeps Γ again op action f))))
