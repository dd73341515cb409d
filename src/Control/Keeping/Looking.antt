-- ===== src/Control/Keeping/Looking.antt =====
-- `Evolves` for a look at a runner: `_do_observe` and `_record_forge`.
use nomercy_github_runner.Prelude.{ℕ, refl, Bool, false, not, Option, none, some, List, ◌&&◌}
use nomercy_github_runner.States.Names.{State, state_eq}
use nomercy_github_runner.States.Edges.{is_observed}
use nomercy_github_runner.Specs.{Spec, ForgeWord, seen_after, get_spec}
use nomercy_github_runner.Control.World.{Held, observed, pure}
use nomercy_github_runner.Control.Outside.{Outside, Reading}
use nomercy_github_runner.Control.Lawful.{Lawful}
use nomercy_github_runner.Control.Rules.{
  Keeps, Sound-next, Sound-if, Sound-try, Sound-weaken, Keeps-pure, Keeps-when, Holds, Sound-option,
}
use nomercy_github_runner.Control.Leaves.{gets-Keeps, report-Keeps}
use nomercy_github_runner.Control.Fences.{rewrite_rows-Keeps, move_observed-Keeps}
use nomercy_github_runner.Control.Observe.{
  said, labelled, same_identity, write_word, write_labels, write_reading, write_sampled, same_event,
  is_empty, record_forge, is_overtaken, overtaken, moment_of, take_observation, observe_news,
  do_observe,
}
use nomercy_github_runner.Control.Keeping.Moving.{hold-Keeps}

module _ {Γ : List Spec} where
  write_said-Keeps :
      (s : Spec) (stamp : ℕ) (word : ForgeWord) → Keeps Γ (write_word s stamp (some word))
  write_said-Keeps s stamp ForgeWord.unanswered =
      rewrite_rows-Keeps (λ r. same_identity s r && not (seen_after r.forge_seen_at stamp))
        (said ForgeWord.unanswered stamp) (λ x. (refl, refl, refl))
  write_said-Keeps s stamp ForgeWord.says_idle =
      rewrite_rows-Keeps (λ r. same_identity s r && not (seen_after r.forge_seen_at stamp))
        (said ForgeWord.says_idle stamp) (λ x. (refl, refl, refl))
  write_said-Keeps s stamp ForgeWord.says_busy =
      rewrite_rows-Keeps (λ r. same_identity s r && not (seen_after r.forge_seen_at stamp))
        (said ForgeWord.says_busy stamp) (λ x. (refl, refl, refl))
  write_said-Keeps s stamp ForgeWord.says_offline =
      rewrite_rows-Keeps (λ r. same_identity s r && not (seen_after r.forge_seen_at stamp))
        (said ForgeWord.says_offline stamp) (λ x. (refl, refl, refl))

  write_word-Keeps :
      (s : Spec) (stamp : ℕ) (word : Option ForgeWord) → Keeps Γ (write_word s stamp word)
  write_word-Keeps s stamp none = Keeps-pure tt
  write_word-Keeps s stamp (some word) = write_said-Keeps s stamp word

  write_labels-Keeps :
      (s : Spec) (stamp : ℕ) (labels : Option (Option ℕ)) → Keeps Γ (write_labels s stamp labels)
  write_labels-Keeps s stamp none = Keeps-pure tt
  write_labels-Keeps s stamp (some none) = Keeps-pure tt
  write_labels-Keeps s stamp (some (some names)) =
      rewrite_rows-Keeps (λ r. same_identity s r && not (seen_after r.forge_labels_at stamp))
        (labelled names stamp) (λ x. (refl, refl, refl))

  write_reading-Keeps : (s : Spec) (stamp : ℕ) (r : Reading) → Keeps Γ (write_reading s stamp r)
  write_reading-Keeps s stamp r =
      Sound-next (write_word-Keeps s stamp r.word) (λ u. write_labels-Keeps s stamp r.labels)

  write_sampled-Keeps : (s : Spec) (stamp : ℕ) (r : Reading) → Keeps Γ (write_sampled s stamp r)
  write_sampled-Keeps s stamp r =
      Sound-next (gets-Keeps (λ w. get_spec s.runner_id w.specs))
        (λ current. Keeps-when (same_event s current) (λ e. write_reading-Keeps s stamp r))

  write_stamped-Keeps :
      (s : Spec) (now : ℕ) (r : Reading) (sampled : Option (Option ℕ))
      → Keeps Γ (elim sampled [
        | none ↦ write_reading s now r
        | some none ↦ pure tt
        | some (some stamp) ↦ write_sampled s stamp r
      ])
  write_stamped-Keeps s now r none = write_reading-Keeps s now r
  write_stamped-Keeps s now r (some none) = Keeps-pure tt
  write_stamped-Keeps s now r (some (some stamp)) = write_sampled-Keeps s stamp r

module _ (o : Outside) (l : Lawful o) where
  pub record_forge-Keeps : {Γ : List Spec} (s : Spec) → Keeps Γ (record_forge o s)
  unfolding record_forge
  record_forge-Keeps s = Sound-next (Sound-weaken (l.forge_reading s.runner_id)) (λ r.
      Sound-next (Sound-weaken l.now) (λ now.
        Sound-if (is_empty r) (λ e. Keeps-pure tt) (λ e. write_stamped-Keeps s now r r.sampled)))

  moment_of-Keeps : {Γ : List Spec} (captured : Option ℕ) → Keeps Γ (moment_of o captured)
  moment_of-Keeps none = Sound-weaken l.now
  moment_of-Keeps (some captured) = Keeps-pure captured

  take_observation-Keeps :
      {Γ : List Spec} (s : Spec) (seen : State) (captured : Option ℕ)
      → Holds Γ s
      → Keeps Γ (take_observation o s seen captured)
  unfolding take_observation
  take_observation-Keeps s seen captured holds =
      Sound-if (is_observed s.actual_state seen)
        (λ e. Sound-next (moment_of-Keeps captured) (λ at.
          Sound-next (move_observed-Keeps s seen at holds) (λ moved.
            Sound-option moved (λ h. hold-Keeps s Held.changed_before_commit)
              (λ r h. report-Keeps (observed s.runner_id seen)))))
        (λ e. hold-Keeps s Held.ignored_observation)

  is_overtaken-Keeps :
      {Γ : List Spec} (s : Spec) (captured : Option ℕ) → Keeps Γ (is_overtaken o s captured)
  is_overtaken-Keeps s none = Keeps-pure false
  is_overtaken-Keeps s (some captured) =
      gets-Keeps (λ w. overtaken s captured (get_spec s.runner_id w.specs))

  observe_news-Keeps :
      {Γ : List Spec} (s : Spec) (seen : Option State) (captured : Option ℕ)
      → Holds Γ s
      → Keeps Γ (observe_news o s seen captured)
  observe_news-Keeps s none captured holds = Keeps-pure tt
  observe_news-Keeps s (some seen) captured holds =
      Sound-next (is_overtaken-Keeps s captured) (λ late. Keeps-when (not late) (λ e.
        Keeps-when (not (state_eq seen s.actual_state))
          (λ h. take_observation-Keeps s seen captured holds)))

  -- `_do_observe`
  pub do_observe-Keeps :
      {Γ : List Spec} (s : Spec) (fresh : Bool) → Holds Γ s → Keeps Γ (do_observe o s fresh)
  unfolding do_observe
  do_observe-Keeps s fresh holds =
      Sound-try
        (Sound-if fresh (λ e. Sound-weaken (l.observe_fresh s)) (λ e. Sound-weaken (l.observe s)))
        (λ seen u. Sound-next (Sound-weaken (l.captured s.runner_id)) (λ captured.
          Sound-next (record_forge-Keeps s) (λ v. observe_news-Keeps s seen captured holds)))
        (λ e. Sound-next (Sound-weaken (l.captured s.runner_id)) (λ c. record_forge-Keeps s))
