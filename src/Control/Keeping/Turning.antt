-- ===== src/Control/Keeping/Turning.antt =====
-- `Evolves` for the turns of the recreates and of the cache clears.
use nomercy_github_runner.Prelude.{
  ℕ, true, false, not, Option, none, some, List, [], ◌∷◌, any, if◌then◌else◌, ◌&&◌, ◌||◌,
}
use nomercy_github_runner.States.Names.{Verb, verb_eq, in_states}
use nomercy_github_runner.Specs.{Spec}
use nomercy_github_runner.Operations.Table.{Operation, op_eq, running}
use nomercy_github_runner.Reconciler.Decide.{desired_eq, serving, Desired}
use nomercy_github_runner.Control.World.{◌>>◌, pure, Held, failure, pure, ◌>>=◌}
use nomercy_github_runner.Control.Outside.{Outside}
use nomercy_github_runner.Control.Lawful.{Lawful}
use nomercy_github_runner.Control.Rules.{
  Keeps, Sound-next, Sound-if, Sound-try, Sound-weaken, Keeps-pure,
}
use nomercy_github_runner.Control.Leaves.{report-Keeps, fail_op-Keeps, defer_op-Keeps}
use nomercy_github_runner.Control.Stores.{defer_op}
use nomercy_github_runner.Control.Moves.{hold}
use nomercy_github_runner.Control.Turns.{
  is_pending, is_first, unavailable, add_recreate, active_recreates, refuse_recreate,
  begin_recreate, recreate_turn, take_recreate_turn, queued_clears, take_cache_turn, cache_turn,
}
use nomercy_github_runner.Control.Keeping.Moving.{
  hold-Keeps, operation_of-Keeps, siblings_of-Keeps, clear_operation-Keeps, halt_recreates-Keeps,
}

module _ {Γ : List Spec} where
  held-Keeps : {A : Type 0} (s : Spec) (why : Held) (a : A) → Keeps Γ (hold s why >> pure a)
  held-Keeps s why a = Sound-next (hold-Keeps s why) (λ u. Keeps-pure a)

module _ (o : Outside) (l : Lawful o) where
  deferred-Keeps :
      {Γ : List Spec} {A : Type 0} (s : Spec) (op : Operation) (why : Held) (a : A)
      → Keeps Γ (do now ← o.now; defer_op now op.operation_id; hold s why; pure a)
  deferred-Keeps s op why a =
      Sound-next (Sound-weaken l.now)
        (λ now. Sound-next (defer_op-Keeps now op.operation_id) (λ u. held-Keeps s why a))

  active_recreates-Keeps :
      {Γ : List Spec} (s : Spec) (op : Operation) (siblings : List Spec) (active : List Operation)
      → Keeps Γ (active_recreates o s op siblings active)
  unfolding active_recreates
  active_recreates-Keeps s op [] active = Keeps-pure (some active)
  active_recreates-Keeps s op (sibling ∷ siblings) active =
      Sound-next (operation_of-Keeps sibling) (λ other.
        Sound-if (unavailable o s op other sibling)
          (λ e. deferred-Keeps s op Held.sibling_unavailable none)
          (λ e. active_recreates-Keeps s op siblings (add_recreate other active)))

  refuse_recreate-Keeps :
      {Γ : List Spec} (s : Spec) (op : Operation) (text : ℕ) → Keeps Γ (refuse_recreate o s op text)
  refuse_recreate-Keeps s op text = Sound-next (Sound-weaken l.now) (λ now.
      Sound-next (fail_op-Keeps now op.operation_id text) (λ u.
        Sound-next (clear_operation-Keeps o l s) (λ v.
          Sound-next (halt_recreates-Keeps o l s text)
            (λ x. Sound-next (report-Keeps (failure s.runner_id text)) (λ y. Keeps-pure false)))))

  begin_recreate-Keeps :
      {Γ : List Spec} (s : Spec) (op : Operation) (active : List Operation)
      → Keeps Γ (begin_recreate o s op active)
  begin_recreate-Keeps s op active =
      Sound-if (any (λ other. op_eq other.state running) active)
        (λ e. deferred-Keeps s op Held.replacement_in_progress false)
        (λ e.
          Sound-if (not (is_first op active)) (λ h. held-Keeps s Held.recreate_queued false)
            (λ h.
              Sound-try (Sound-weaken (l.validate_replacement s)) (λ u v. Keeps-pure true)
                (λ x. refuse_recreate-Keeps s op (o.text_of x))))

  recreating-Keeps :
      {Γ : List Spec} (s : Spec) (op : Operation) (found : Option (List Operation))
      → Keeps Γ (take_recreate_turn o s op found)
  recreating-Keeps s op none = Keeps-pure false
  recreating-Keeps s op (some active) =
      Sound-if (is_pending op) (λ e. begin_recreate-Keeps s op active) (λ e. Keeps-pure true)

  -- `_recreate_turn`
  pub recreate_turn-Keeps :
      {Γ : List Spec} (s : Spec) (op : Operation) → Keeps Γ (recreate_turn o s op)
  unfolding recreate_turn
  recreate_turn-Keeps s op = Sound-next (siblings_of-Keeps s) (λ siblings.
      Sound-next (active_recreates-Keeps s op siblings []) (λ found. recreating-Keeps s op found))

module _ {Γ : List Spec} where
  queued_on-Keeps :
      (s : Spec) (siblings : List Spec) (queued : List Operation) (other : Option Operation)
      → ((q : List Operation) → Keeps Γ (queued_clears s siblings q))
      → Keeps Γ (elim other [
        | none ↦ queued_clears s siblings queued
        | some op ↦
            if not (verb_eq op.verb Verb.clear_cache)
            then queued_clears s siblings queued
            else if op_eq op.state running
            then (hold s Held.clearing >> pure none)
            else queued_clears s siblings (if is_pending op then op ∷ queued else queued)
      ])
  queued_on-Keeps s siblings queued none rest = rest queued
  queued_on-Keeps s siblings queued (some op) rest =
      Sound-if (not (verb_eq op.verb Verb.clear_cache)) (λ e. rest queued)
        (λ e.
          Sound-if (op_eq op.state running) (λ h. held-Keeps s Held.clearing none)
            (λ h. rest (if is_pending op then op ∷ queued else queued)))

  queued_clears-Keeps :
      (s : Spec) (siblings : List Spec) (queued : List Operation)
      → Keeps Γ (queued_clears s siblings queued)
  unfolding queued_clears
  queued_clears-Keeps s [] queued = Keeps-pure (some queued)
  queued_clears-Keeps s (sibling ∷ siblings) queued =
      Sound-if
        (not (in_states sibling.actual_state serving)
          && desired_eq sibling.desired_state Desired.running)
        (λ e. held-Keeps s Held.out_of_service none)
        (λ e. Sound-next (operation_of-Keeps sibling) (λ other.
          queued_on-Keeps s siblings queued other (λ q. queued_clears-Keeps s siblings q)))

  take_cache_turn-Keeps :
      (s : Spec) (op : Operation) (queued : Option (List Operation))
      → Keeps Γ (take_cache_turn s op queued)
  take_cache_turn-Keeps s op none = Keeps-pure false
  take_cache_turn-Keeps s op (some queued) =
      Sound-if (is_first op queued) (λ e. Keeps-pure true)
        (λ e. held-Keeps s Held.cache_queued false)

  -- `_cache_turn`
  pub cache_turn-Keeps : (s : Spec) (op : Operation) → Keeps Γ (cache_turn s op)
  unfolding cache_turn
  cache_turn-Keeps s op =
      Sound-if (not (is_pending op) || not (in_states s.actual_state serving))
        (λ e. Keeps-pure true)
        (λ e. Sound-next (siblings_of-Keeps s) (λ siblings.
          Sound-next (queued_clears-Keeps s siblings [])
            (λ queued. take_cache_turn-Keeps s op queued)))
