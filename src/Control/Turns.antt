-- ===== src/Control/Turns.antt =====
-- Whose turn it is: `_recreate_turn`, `_cache_turn` and `_queue_cache_budget` of
-- dashboard/control/reconciler.py.
use nomercy_github_runner.Prelude.{
  ℕ, ◌-◌, Bool, true, false, not, Option, none, some, List, [], ◌∷◌, ltb, leb, any, ◌&&◌, ◌||◌,
  if◌then◌else◌, ◌==◌,
}
use nomercy_github_runner.States.Names.{State, Verb, verb_eq, in_states, state_eq}
use nomercy_github_runner.Specs.{Spec}
use nomercy_github_runner.Operations.Table.{Operation, op_eq, pending, running}
use nomercy_github_runner.Reconciler.Decide.{Desired, desired_eq, serving}
use nomercy_github_runner.Control.World.{
  Action, Held, pure, ◌>>◌, try_else, report_line, failure, ◌>>=◌,
}
use nomercy_github_runner.Control.Stores.{operation_of, siblings_of, defer_op, fail_op}
use nomercy_github_runner.Control.Outside.{Outside, CacheBudget}
use nomercy_github_runner.Control.Moves.{halt_recreates, clear_operation, hold}

abbrev pub is_pending : Operation → Bool
is_pending op = op_eq op.state pending

abbrev pub is_verb_of : Verb → Option Operation → Bool
is_verb_of v none = false
is_verb_of v (some op) = verb_eq op.verb v

-- A recreate that has not begun.
abbrev pub waits : Option Operation → Bool
waits none = false
waits (some op) = verb_eq op.verb Verb.recreate && is_pending op

-- The order of (requested_at, operation_id)
abbrev pub asked_earlier : Operation → Operation → Bool
asked_earlier a b =
    ltb a.requested_at b.requested_at
    || (a.requested_at == b.requested_at && ltb a.operation_id b.operation_id)

abbrev earlier_of : Operation → Operation → Operation
earlier_of b a = if asked_earlier b a then b else a

unfoldable pub first_asked : Operation → List Operation → Operation
first_asked a [] = a
first_asked a (b ∷ ops) = first_asked (earlier_of b a) ops

abbrev pub is_first : Operation → List Operation → Bool
is_first op others = (first_asked op others).operation_id == op.operation_id

abbrev pub add_recreate : Option Operation → List Operation → List Operation
add_recreate none active = active
add_recreate (some op) active = if verb_eq op.verb Verb.recreate then op ∷ active else active

module _ (o : Outside) where
  abbrev pub unavailable : Spec → Operation → Option Operation → Spec → Bool
  unavailable s op other sibling =
      not (in_states sibling.actual_state serving) && (not (waits other) && is_pending op)

  -- The loop over the siblings: their recreates, or none where one of them is unavailable.
  unfoldable pub active_recreates :
      Spec → Operation → List Spec → List Operation → Action (Option (List Operation))
  active_recreates s op [] active = pure (some active)
  active_recreates s op (sibling ∷ siblings) active = do
    other ← operation_of sibling
    if unavailable s op other sibling
        then (do
          now ← o.now
          defer_op now op.operation_id
          hold s Held.sibling_unavailable
          pure none)
        else active_recreates s op siblings (add_recreate other active)

  abbrev pub refuse_recreate : Spec → Operation → ℕ → Action Bool
  refuse_recreate s op text = do
    now ← o.now
    fail_op now op.operation_id text
    clear_operation o s
    halt_recreates o s text
    report_line (failure s.runner_id text)
    pure false

  -- A recreate that has not begun, when every sibling is available.
  abbrev pub begin_recreate : Spec → Operation → List Operation → Action Bool
  begin_recreate s op active =
      if any (λ other. op_eq other.state running) active
      then (do
        now ← o.now
        defer_op now op.operation_id
        hold s Held.replacement_in_progress
        pure false)
      else if not (is_first op active)
      then (hold s Held.recreate_queued >> pure false)
      else try_else (o.validate_replacement s) (λ u. pure true)
          (λ e. refuse_recreate s op (o.text_of e))

  abbrev pub take_recreate_turn : Spec → Operation → Option (List Operation) → Action Bool
  take_recreate_turn s op none = pure false
  take_recreate_turn s op (some active) =
      if is_pending op then begin_recreate s op active else pure true

  -- `_recreate_turn`
  unfoldable pub recreate_turn : Spec → Operation → Action Bool
  unfolding active_recreates
  recreate_turn s op = do
    siblings ← siblings_of s
    found ← active_recreates s op siblings []
    take_recreate_turn s op found

-- The loop of `_cache_turn`: the clears that wait, or why this one has to.
unfoldable pub queued_clears : Spec → List Spec → List Operation → Action (Option (List Operation))
queued_clears s [] queued = pure (some queued)
queued_clears s (sibling ∷ siblings) queued =
    if not (in_states sibling.actual_state serving)
      && desired_eq sibling.desired_state Desired.running
    then (hold s Held.out_of_service >> pure none)
    else (do
      other ← operation_of sibling
      elim other [
        | none ↦ queued_clears s siblings queued
        | some op ↦
            if not (verb_eq op.verb Verb.clear_cache)
            then queued_clears s siblings queued
            else if op_eq op.state running
            then (hold s Held.clearing >> pure none)
            else queued_clears s siblings (if is_pending op then op ∷ queued else queued)
      ])

abbrev pub take_cache_turn : Spec → Operation → Option (List Operation) → Action Bool
take_cache_turn s op none = pure false
take_cache_turn s op (some queued) =
    if is_first op queued then pure true else (hold s Held.cache_queued >> pure false)

-- `_cache_turn`
unfoldable pub cache_turn : Spec → Operation → Action Bool
unfolding queued_clears
cache_turn s op =
    if not (is_pending op) || not (in_states s.actual_state serving) then pure true else (do
      siblings ← siblings_of s
      queued ← queued_clears s siblings []
      take_cache_turn s op queued)

-- What is over the limit: integers, both of them, and a limit above zero.
abbrev over_budget : Option ℕ → Option ℕ → Bool
over_budget (some maximum) (some used) = ltb 0 maximum && ltb maximum used
over_budget _ _ = false

abbrev is_recent : ℕ → Option ℕ → Bool
is_recent now none = false
is_recent now (some at) = leb at now && leb (now - at) 90

-- The tests of `_queue_cache_budget`.
unfoldable pub is_over_budget : ℕ → CacheBudget → Spec → Bool
is_over_budget now b s =
    b.native
    && (state_eq s.actual_state State.idle
        && (desired_eq s.desired_state Desired.running
            && ((elim s.current_operation [ none ↦ true | some i ↦ false ])
                && (b.enabled
                    && (over_budget b.max_bytes b.cache_bytes && is_recent now b.cache_at)))))
