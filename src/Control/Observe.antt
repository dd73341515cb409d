-- ===== src/Control/Observe.antt =====
-- `_do_observe` and `_record_forge` of dashboard/control/reconciler.py.
use nomercy_github_runner.Prelude.{
  ℕ, Bool, true, false, not, Option, none, some, map, is_some, ◌&&◌, ◌||◌, if◌then◌else◌, ◌==◌,
}
use nomercy_github_runner.States.Names.{State, state_eq}
use nomercy_github_runner.States.Edges.{is_observed}
use nomercy_github_runner.Specs.{Spec, Specs, ForgeWord, option_eq, seen_after, get_spec, is_runner}
use nomercy_github_runner.Control.World.{
  Action, Done, Held, pure, gets, ◌>>◌, try_else, when, report_line, observed, ◌>>=◌,
}
use nomercy_github_runner.Control.Stores.{rewrite_rows}
use nomercy_github_runner.Control.Outside.{Outside, Reading}
use nomercy_github_runner.Control.Moves.{move_observed, hold}

abbrev pub said : ForgeWord → ℕ → Spec → Spec
said ForgeWord.unanswered stamp s = record s { forge_state = some ForgeWord.unanswered }
said word stamp s = record s { forge_state = some word; forge_seen_at = some stamp }

abbrev pub labelled : ℕ → ℕ → Spec → Spec
labelled names stamp s = record s { forge_labels = some names; forge_labels_at = some stamp }

-- The fence of the statements: the runner, its provider and its registration.
abbrev pub same_identity : Spec → Spec → Bool
same_identity s r =
    is_runner s.runner_id r
    && (r.provider == s.provider
        && (option_eq r.registration_id s.registration_id
            && option_eq r.registration_uuid s.registration_uuid))

abbrev pub fenced : (Spec → Bool) → (Spec → Spec) → Specs → Specs
fenced test f specs = map (λ (r : Spec). if test r then f r else r) specs

abbrev pub write_word : Spec → ℕ → Option ForgeWord → Action Done
write_word s stamp none = pure tt
write_word s stamp (some word) =
    rewrite_rows
      (fenced (λ r. same_identity s r && not (seen_after r.forge_seen_at stamp)) (said word stamp))

abbrev pub write_labels : Spec → ℕ → Option (Option ℕ) → Action Done
write_labels s stamp (some (some names)) = rewrite_rows (
    fenced (λ r. same_identity s r && not (seen_after r.forge_labels_at stamp))
      (labelled names stamp))
write_labels s stamp _ = pure tt

-- Whether the row still shows the job event that it showed when the spec was read.
abbrev pub same_event : Spec → Option Spec → Bool
same_event s none = false
same_event s (some r) = option_eq r.forge_event s.forge_event

abbrev pub write_reading : Spec → ℕ → Reading → Action Done
write_reading s stamp r = write_word s stamp r.word >> write_labels s stamp r.labels

-- A reading that an observer made is dropped when a job event came after the spec was read.
abbrev pub write_sampled : Spec → ℕ → Reading → Action Done
write_sampled s stamp r = do
  current ← gets (λ w. get_spec s.runner_id w.specs)
  when (same_event s current) (write_reading s stamp r)

abbrev pub is_empty : Reading → Bool
is_empty r = not (is_some r.word) && not (is_some r.labels)

-- Whether a newer reading, another registration or another job event overtook the observation.
abbrev pub overtaken : Spec → ℕ → Option Spec → Bool
overtaken s captured none = true
overtaken s captured (some r) =
    not (option_eq r.registration_id s.registration_id)
    || (not (option_eq r.registration_uuid s.registration_uuid)
        || (seen_after r.forge_seen_at captured || not (option_eq r.forge_event s.forge_event)))

module _ (o : Outside) where
  -- `_record_forge`
  unfoldable pub record_forge : Spec → Action Done
  record_forge s = do
    r ← o.forge_reading s.runner_id
    now ← o.now
    if is_empty r then pure tt else (elim r.sampled [
      | none ↦ write_reading s now r
      | some none ↦ pure tt
      | some (some stamp) ↦ write_sampled s stamp r
    ])

  abbrev pub is_overtaken : Spec → Option ℕ → Action Bool
  is_overtaken s none = pure false
  is_overtaken s (some captured) = gets (λ w. overtaken s captured (get_spec s.runner_id w.specs))

  abbrev pub moment_of : Option ℕ → Action ℕ
  moment_of none = o.now
  moment_of (some captured) = pure captured

  -- An observation that is news: only an observed edge is taken.
  unfoldable pub take_observation : Spec → State → Option ℕ → Action Done
  take_observation s seen captured =
      if is_observed s.actual_state seen
      then (do
        at ← moment_of captured
        moved ← move_observed s seen at
        elim moved [
          | none ↦ hold s Held.changed_before_commit
          | some r ↦ report_line (observed s.runner_id seen)
        ])
      else hold s Held.ignored_observation

  abbrev pub observe_news : Spec → Option State → Option ℕ → Action Done
  observe_news s none captured = pure tt
  observe_news s (some seen) captured = do
    late ← is_overtaken s captured
    when (not late) (when (not (state_eq seen s.actual_state)) (take_observation s seen captured))

  -- `_do_observe`: the forge's reading is recorded also when the look raises.
  unfoldable pub do_observe : Spec → Bool → Action Done
  unfolding take_observation record_forge
  do_observe s fresh =
      try_else (if fresh then o.observe_fresh s else o.observe s)
        (λ seen. do captured ← o.captured s.runner_id; record_forge s; observe_news s seen captured)
        (λ e. o.captured s.runner_id >> record_forge s)
