-- ===== src/Control/Keeping/Deciding.antt =====
-- `Evolves` for one step of one runner, `_step` of dashboard/control/reconciler.py.
use nomercy_github_runner.Prelude.{
  ℕ, ◌≡◌, refl, true, not, Option, none, some, List, [], ◌∷◌, ◌++◌, if◌then◌else◌, ◌&&◌, ◌||◌,
  is_some, arith,
}
use nomercy_github_runner.States.Names.{State, Verb, state_eq, verb_eq, in_states}
use nomercy_github_runner.Specs.{Spec}
use nomercy_github_runner.Operations.Table.{Operation, Progress, no_progress}
use nomercy_github_runner.Reconciler.Decide.{View, Phase, decide, serving}
use nomercy_github_runner.Control.World.{◌>>=◌, ◌>>◌, Held, pure}
use nomercy_github_runner.Control.Outside.{Outside}
use nomercy_github_runner.Control.Lawful.{Lawful}
use nomercy_github_runner.Control.Rules.{
  Sound, Keeps, Sound-next, Sound-bind, Sound-if, Sound-option, Sound-pure, Sound-try, Sound-weaken,
  Sound-untold, Keeps-pure, Keeps-when, Holds, AnyResult,
}
use nomercy_github_runner.Control.Leaves.{look-Sound, fail_op-Keeps}
use nomercy_github_runner.Control.Transitions.{move-Sound}
use nomercy_github_runner.Control.Moves.{unchanged, clear_operation}
use nomercy_github_runner.Control.Stores.{look_op, look}
use nomercy_github_runner.Control.Step.{
  view_of, verb_of, drop_finished, is_interrupted, resume_recreate, has_turn, progress_of_step,
  follow_seen, is_seen_idle, confirm_idle, confirmed, is_held_back, decided, step_on, step_with,
  step_resumed, step, is_over, recreate_resume, clear_skipped,
}
use nomercy_github_runner.Control.Keeping.Moving.{
  hold-Keeps, operation_of-Keeps, progress_op-Keeps, look_op-Keeps, clear_operation-Keeps,
  fail_step-Keeps, close_if_fulfilled-Keeps,
}
use nomercy_github_runner.Control.Keeping.Turning.{recreate_turn-Keeps, cache_turn-Keeps}
use nomercy_github_runner.Control.Keeping.Asking.{act-Keeps}
use nomercy_github_runner.Control.Keeping.Removing.{removable}
use nomercy_github_runner.Control.Keeping.Carrying.{queue_cache_budget-Keeps, carry_out-Keeps}

-- `decide` asks to remove a unit only of a runner that failed or is being removed.
decide_removes :
    (s : View) (verb : Option Verb) (done : List Phase) (action : Verb)
    → decide s verb done ≡ some action
    → verb_eq action Verb.remove ≡ true
    → in_states s.actual removable ≡ true
unfolding decide
decide_removes s verb done action h e = ground arith

abbrev ready : Option Spec → List Spec
ready none = []
ready (some s) = s ∷ []

abbrev resumed : Option (Spec × Option Operation) → List Spec
resumed none = []
resumed (some p) = p.0 ∷ []

module _ (o : Outside) (l : Lawful o) where
  finished_or-Sound :
      {Γ : List Spec} (s : Spec) (i : ℕ)
      → Holds Γ s
      → Sound Γ
          (look_op i >>= λ finished.
            if is_over finished then (clear_operation o s >> look s.runner_id) else pure s)
          (λ r. r ∷ [])
          AnyResult
  finished_or-Sound s i holds = Sound-next (look_op-Keeps i) (λ finished.
      Sound-if (is_over finished)
        (λ e. Sound-next (clear_operation-Keeps o l s) (λ u. Sound-untold (look-Sound s.runner_id)))
        (λ e. Sound-pure s (λ w k. (holds w k, tt)) tt))

  drop_finished-Sound :
      {Γ : List Spec} (s : Spec) (op : Option Operation)
      → Holds Γ s
      → Sound Γ (drop_finished o s op) (λ r. r ∷ []) AnyResult
  unfolding drop_finished
  drop_finished-Sound s (some op) holds = Sound-pure s (λ w k. (holds w k, tt)) tt
  drop_finished-Sound s none holds =
      Sound-option s.current_operation (λ e. Sound-pure s (λ w k. (holds w k, tt)) tt)
        (λ i e. finished_or-Sound s i holds)

  resume_recreate-Sound :
      {Γ : List Spec} (s : Spec) → Sound Γ (resume_recreate o s) resumed AnyResult
  unfolding resume_recreate
  resume_recreate-Sound s =
      Sound-if (is_some s.last_error)
        (λ e. Sound-next (hold-Keeps s Held.failed_recreate) (λ u. Sound-pure none (λ w k. tt) tt))
        (λ e.
          Sound-try (act-Keeps o l s.runner_id Verb.recreate none)
            (λ id u. Sound-bind (look-Sound s.runner_id) (λ fresh own.
              Sound-next (operation_of-Keeps fresh)
                (λ op. Sound-pure (some (fresh, op)) (λ w k. (k.0, tt)) tt)))
            (λ x.
              Sound-next (fail_step-Keeps o l s none x recreate_resume)
                (λ u. Sound-pure none (λ w k. tt) tt)))

  has_turn-Keeps : {Γ : List Spec} (s : Spec) (op : Option Operation) → Keeps Γ (has_turn o s op)
  has_turn-Keeps s none = Keeps-pure true
  has_turn-Keeps s (some op) =
      Sound-if (verb_eq op.verb Verb.recreate) (λ e. recreate_turn-Keeps o l s op)
        (λ e.
          Sound-if (verb_eq op.verb Verb.clear_cache) (λ h. cache_turn-Keeps s op)
            (λ h. Keeps-pure true))

  progress_of_step-Keeps : {Γ : List Spec} (op : Option Operation) → Keeps Γ (progress_of_step o op)
  progress_of_step-Keeps none = Keeps-pure no_progress
  progress_of_step-Keeps (some op) = progress_op-Keeps op.operation_id

  follow_seen-Sound :
      {Γ : List Spec} (s : Spec) (seen : Option State)
      → Holds Γ s
      → Sound Γ (follow_seen o s seen) (λ r. r ∷ []) AnyResult
  follow_seen-Sound s none holds = Sound-pure s (λ w k. (holds w k, tt)) tt
  follow_seen-Sound s (some seen) holds =
      Sound-if (in_states seen serving && not (state_eq seen s.actual_state))
        (λ e. Sound-untold (move-Sound s seen unchanged (λ r. (refl, refl)) holds))
        (λ e. Sound-pure s (λ w k. (holds w k, tt)) tt)

  confirm_idle-Sound :
      {Γ : List Spec} (s : Spec) (op : Operation)
      → Holds Γ s
      → Sound Γ (confirm_idle o s op) ready AnyResult
  unfolding confirm_idle
  confirm_idle-Sound s op holds =
      Sound-next
        (Sound-try (Sound-weaken (l.observe_fresh s)) (λ seen u. Keeps-pure seen)
          (λ e. Keeps-pure none))
        (λ seen. Sound-bind (follow_seen-Sound s seen holds) (λ r u.
          Sound-if (is_seen_idle o seen || r.drain_first)
            (λ e. Sound-pure (some r) (λ w k. (k.0, tt)) tt)
            (λ e. Sound-next (Sound-weaken l.now) (λ now.
              Sound-next (fail_op-Keeps now op.operation_id clear_skipped) (λ v.
                Sound-next (clear_operation-Keeps o l r) (λ x.
                  Sound-next (hold-Keeps r Held.not_confirmed_idle)
                    (λ y. Sound-pure none (λ w k. tt) tt)))))))

  confirmed-Sound :
      {Γ : List Spec} (s : Spec) (op : Option Operation)
      → Holds Γ s
      → Sound Γ (confirmed o s op) ready AnyResult
  confirmed-Sound s none holds = Sound-pure (some s) (λ w k. (holds w k, tt)) tt
  confirmed-Sound s (some op) holds =
      Sound-if (verb_eq op.verb Verb.clear_cache && in_states s.actual_state serving)
        (λ e. confirm_idle-Sound s op holds) (λ e. Sound-pure (some s) (λ w k. (holds w k, tt)) tt)

  decided-Keeps :
      {Γ : List Spec} (s : Spec) (op : Option Operation) (p : Progress)
      → Holds Γ s
      → Keeps Γ (decided o s op p)
  decided-Keeps s op p holds =
      Sound-option (decide (view_of s) (verb_of op) p.done) (λ e. queue_cache_budget-Keeps o l s)
        (λ action e.
          carry_out-Keeps o l s op action holds
            (decide_removes (view_of s) (verb_of op) p.done action e))

  step_on-Keeps :
      {Γ : List Spec} (s : Spec) (op : Option Operation) → Holds Γ s → Keeps Γ (step_on o s op)
  unfolding step_on
  step_on-Keeps {Γ} s op holds = Sound-next (progress_of_step-Keeps op) (λ p.
      Sound-if (is_held_back o p s) (λ e. hold-Keeps s Held.rollback)
        (λ e. Sound-bind (confirmed-Sound s op holds) (λ found u. on_ready p found)))
    where
      on_ready :
          (p : Progress) (found : Option Spec)
          → Keeps (ready found ++ Γ) (elim found [ none ↦ pure tt | some r ↦ decided o r op p ])
      on_ready p none = Keeps-pure tt
      on_ready p (some r) = decided-Keeps r op p (λ w k. k.0)

  step_with-Keeps :
      {Γ : List Spec} (s : Spec) (op : Option Operation) → Holds Γ s → Keeps Γ (step_with o s op)
  unfolding step_with
  step_with-Keeps s op holds = Sound-next (has_turn-Keeps s op) (λ turn. Keeps-when turn (λ e.
      Sound-next (close_if_fulfilled-Keeps o l s op) (λ over.
        Sound-if over
          (λ h. Sound-bind (look-Sound s.runner_id) (λ r own. step_on-Keeps r none (λ w k. k.0)))
          (λ h. step_on-Keeps s op holds))))

  resumed-Keeps :
      (Γ : List Spec) (found : Option (Spec × Option Operation))
      → Keeps (resumed found ++ Γ) (step_resumed o found)
  resumed-Keeps Γ none = Keeps-pure tt
  resumed-Keeps Γ (some p) = step_with-Keeps p.0 p.1 (λ w k. k.0)

  -- `_step`
  pub step-Keeps : {Γ : List Spec} (s : Spec) → Holds Γ s → Keeps Γ (step o s)
  unfolding step
  step-Keeps {Γ} s holds = Sound-next (operation_of-Keeps s) (λ op.
      Sound-bind (drop_finished-Sound s op holds) (λ r u.
        Sound-if (is_interrupted o r op)
          (λ e. Sound-bind (resume_recreate-Sound r) (λ found v. resumed-Keeps (r ∷ Γ) found))
          (λ e. step_with-Keeps r op (λ w k. k.0))))
