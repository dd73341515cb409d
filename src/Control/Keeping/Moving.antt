-- ===== src/Control/Keeping/Moving.antt =====
-- `Evolves` for the methods that the steps share: `_fail`, `_halt_recreates`, `_finish` and others.
use nomercy_github_runner.Prelude.{
  ℕ, refl, Bool, true, false, Option, none, some, List, [], ◌∷◌, is_some,
}
use nomercy_github_runner.States.Names.{Verb, failed}
use nomercy_github_runner.States.Edges.{can}
use nomercy_github_runner.Specs.{Spec}
use nomercy_github_runner.Operations.Table.{Operation, attempted}
use nomercy_github_runner.Reconciler.Decide.{Phase}
use nomercy_github_runner.Reconciler.Steps.{closing, Closing}
use nomercy_github_runner.Control.World.{
  Error, Line, pure, ◌>>=◌, ◌>>◌, when, report_line, Held, Failure, failure,
}
use nomercy_github_runner.Control.Stores.{
  operation_of, siblings_of, progress_op, look_op, fail_op, succeed_op,
}
use nomercy_github_runner.Control.Outside.{Outside}
use nomercy_github_runner.Control.Rules.{
  Keeps, Sound-bind, Sound-next, Sound-if, Sound-option, Sound-try, Sound-weaken, Sound-raise,
  Keeps-pure, Keeps-when,
}
use nomercy_github_runner.Control.Leaves.{
  look-Sound, update_row-Keeps, fail_op-Keeps, attempt_op-Keeps, succeed_op-Keeps, merge_op-Keeps,
  delete_row-Keeps, gets-Keeps, report-Keeps,
}
use nomercy_github_runner.Control.Transitions.{move-Sound}
use nomercy_github_runner.Control.Moves.{
  halted, clear_operation, halt_all, halt_recreates, is_waiting_recreate, fail_operation,
  hold_progress, hold_rollback, fail_held, fail_through, fail_step, failure_of, failing,
  attempt_step, finish, close_as, close_if_fulfilled, worker_accepts, advance, no_operation,
  with_error, with_phase, hold,
}
use nomercy_github_runner.Control.Lawful.{Lawful}

module _ {Γ : List Spec} where
  pub operation_of-Keeps : (s : Spec) → Keeps Γ (operation_of s)
  unfolding operation_of
  operation_of-Keeps s = gets-Keeps _

  pub siblings_of-Keeps : (s : Spec) → Keeps Γ (siblings_of s)
  unfolding siblings_of
  siblings_of-Keeps s = gets-Keeps _

  pub progress_op-Keeps : (i : ℕ) → Keeps Γ (progress_op i)
  unfolding progress_op
  progress_op-Keeps i = gets-Keeps _

  pub look_op-Keeps : (i : ℕ) → Keeps Γ (look_op i)
  unfolding look_op
  look_op-Keeps i = gets-Keeps _

  pub hold-Keeps : (s : Spec) (why : Held) → Keeps Γ (hold s why)
  hold-Keeps s why = report-Keeps _

  pub advance-Keeps : (op : Option Operation) (phase : Phase) → Keeps Γ (advance op phase)
  unfolding advance
  advance-Keeps none phase = Keeps-pure tt
  advance-Keeps (some op) phase = merge_op-Keeps op.operation_id (with_phase phase)

module _ (o : Outside) (l : Lawful o) where
  pub clear_operation-Keeps : {Γ : List Spec} (s : Spec) → Keeps Γ (clear_operation o s)
  unfolding clear_operation
  clear_operation-Keeps s = Sound-bind (look-Sound s.runner_id) (λ fresh own.
      Sound-next (update_row-Keeps s.runner_id fresh.spec_version no_operation (λ r. (refl, refl)))
        (λ b. Keeps-pure tt))

  -- The look at the clock before an operation is closed as failed.
  pub fail_now-Keeps : {Γ : List Spec} (i text : ℕ) → Keeps Γ (o.now >>= λ now. fail_op now i text)
  fail_now-Keeps i text = Sound-next (Sound-weaken l.now) (λ now. fail_op-Keeps now i text)

  halt_one-Keeps :
      {Γ : List Spec} (text : ℕ) (s : Spec) (op : Option Operation)
      → Keeps Γ (elim op [
        | none ↦ pure tt
        | some other ↦ when (is_waiting_recreate o (some other)) (do
          now ← o.now
          fail_op now other.operation_id text
          clear_operation o s
          report_line (failure s.runner_id text))
      ])
  halt_one-Keeps text s none = Keeps-pure tt
  halt_one-Keeps text s (some other) = Keeps-when (is_waiting_recreate o (some other)) (λ e.
      Sound-next (Sound-weaken l.now) (λ now.
        Sound-next (fail_op-Keeps now other.operation_id text)
          (λ u. Sound-next (clear_operation-Keeps s) (λ v. report-Keeps _))))

  halt_all-Keeps :
      {Γ : List Spec} (text : ℕ) (siblings : List Spec) → Keeps Γ (halt_all o text siblings)
  unfolding halt_all
  halt_all-Keeps text [] = Keeps-pure tt
  halt_all-Keeps text (s ∷ siblings) =
      Sound-next (operation_of-Keeps s)
        (λ op. Sound-next (halt_one-Keeps text s op) (λ u. halt_all-Keeps text siblings))

  pub halt_recreates-Keeps :
      {Γ : List Spec} (s : Spec) (text : ℕ) → Keeps Γ (halt_recreates o s text)
  unfolding halt_recreates
  halt_recreates-Keeps s text =
      Sound-next (siblings_of-Keeps s)
        (λ siblings. halt_all-Keeps (o.prefixed halted text) siblings)

  fail_operation-Keeps :
      {Γ : List Spec} (s : Spec) (op : Option Operation) (text : ℕ)
      → Keeps Γ (fail_operation o s op text)
  fail_operation-Keeps s none text = Keeps-pure tt
  fail_operation-Keeps s (some op) text = Sound-next (Sound-weaken l.now) (λ now.
      Sound-next (fail_op-Keeps now op.operation_id text)
        (λ u. Keeps-when _ (λ e. halt_recreates-Keeps s text)))

  hold_progress-Keeps :
      {Γ : List Spec} (op : Option Operation) (preflight : Bool)
      → Keeps Γ (hold_progress o op preflight)
  hold_progress-Keeps none preflight = Keeps-pure tt
  hold_progress-Keeps (some op) preflight = merge_op-Keeps op.operation_id (hold_rollback preflight)

  fail_held-Keeps :
      {Γ : List Spec} (s : Spec) (op : Option Operation) (text : ℕ) (preflight : Bool)
      → Keeps Γ (fail_held o s op text preflight)
  unfolding fail_held
  fail_held-Keeps s op text preflight = Sound-bind (look-Sound s.runner_id) (λ current own.
      Sound-next
        (update_row-Keeps current.runner_id current.spec_version (with_error text)
          (λ r. (refl, refl)))
        (λ b. Sound-next (hold_progress-Keeps op preflight) (λ u. hold-Keeps s Held.rollback_held)))

  fail_through-Keeps :
      {Γ : List Spec} (s : Spec) (op : Option Operation) (text : ℕ) (f : Failure)
      → Keeps Γ (fail_through o s op text f)
  unfolding fail_through
  fail_through-Keeps s op text f = Sound-bind (look-Sound s.runner_id) (λ spec own.
      Sound-next
        (Sound-if (can (some spec.actual_state) failed)
          (λ e.
            Sound-bind
              (move-Sound spec failed (failing text (is_some op) f) (λ r. (refl, refl))
                (λ w k. k.0))
              (λ r there. Keeps-pure true))
          (λ e.
            update_row-Keeps spec.runner_id spec.spec_version (failing text (is_some op) f)
              (λ r. (refl, refl))))
        (λ b.
          Sound-next (fail_operation-Keeps spec op text)
            (λ u. report-Keeps (failure s.runner_id text))))

  -- `_fail` keeps what `Evolves` says.
  pub fail_step-Keeps :
      {Γ : List Spec} (s : Spec) (op : Option Operation) (e : Error) (step : ℕ)
      → Keeps Γ (fail_step o s op e step)
  unfolding fail_step
  fail_step-Keeps s op e step =
      Sound-if (failure_of e).rollback_held
        (λ h. fail_held-Keeps s op _ (failure_of e).retry_preflight)
        (λ h. fail_through-Keeps s op _ (failure_of e))

  pub attempt_step-Keeps :
      {Γ : List Spec} (op : Option Operation) (v : Verb) → Keeps Γ (attempt_step o op v)
  unfolding attempt_step
  attempt_step-Keeps none v = Keeps-pure tt
  attempt_step-Keeps (some op) v =
      Sound-next (Sound-weaken l.now) (λ now. attempt_op-Keeps now op.operation_id (attempted v))

  pub succeed_now-Keeps :
      {Γ : List Spec} (i : ℕ) (r : Option ℕ) (line : Line)
      → Keeps Γ (o.now >>= λ now. succeed_op now i r >> report_line line)
  succeed_now-Keeps i r line =
      Sound-next (Sound-weaken l.now)
        (λ now. Sound-next (succeed_op-Keeps now i r) (λ u. report-Keeps line))

  -- `_finish`
  pub finish-Keeps : {Γ : List Spec} (s : Spec) (op : Option Operation) → Keeps Γ (finish o s op)
  unfolding finish
  finish-Keeps s none =
      Sound-next (Sound-weaken l.now)
        (λ now. Sound-next (delete_row-Keeps now s.runner_id) (λ b. Keeps-pure tt))
  finish-Keeps s (some op) = Sound-next (Sound-weaken l.now) (λ now.
      Sound-next (delete_row-Keeps now s.runner_id) (λ b. succeed_now-Keeps op.operation_id none _))

  close_as-Keeps :
      {Γ : List Spec} (c : Closing) (s : Spec) (op : Operation) (now : ℕ)
      → Keeps Γ (close_as o c s op now)
  close_as-Keeps Closing.left_open s op now = Keeps-pure false
  close_as-Keeps Closing.raises s op now = Sound-raise _
  close_as-Keeps Closing.fails s op now = Sound-next (fail_op-Keeps now op.operation_id _) (λ u.
      Sound-next (Keeps-when _ (λ e. clear_operation-Keeps s))
        (λ v. Sound-next (report-Keeps _) (λ x. Keeps-pure true)))
  close_as-Keeps Closing.succeeds s op now =
      Sound-next (succeed_op-Keeps now op.operation_id none) (λ u.
        Sound-next (Keeps-when _ (λ e. clear_operation-Keeps s))
          (λ v. Sound-next (report-Keeps _) (λ x. Keeps-pure true)))

  pub close_if_fulfilled-Keeps :
      {Γ : List Spec} (s : Spec) (op : Option Operation) → Keeps Γ (close_if_fulfilled o s op)
  unfolding close_if_fulfilled
  close_if_fulfilled-Keeps s none = Keeps-pure false
  close_if_fulfilled-Keeps s (some op) = Sound-next (progress_op-Keeps op.operation_id) (λ p.
      Sound-next (Sound-weaken l.now)
        (λ now. close_as-Keeps (closing op.verb s.actual_state p.done) s op now))

  pub worker_accepts-Keeps : {Γ : List Spec} (s : Spec) → Keeps Γ (worker_accepts o s)
  unfolding worker_accepts
  worker_accepts-Keeps s =
      Sound-option s.host_id (λ e. Keeps-pure true)
        (λ host e.
          Sound-try (Sound-weaken (l.accepts host)) (λ b u. Keeps-pure b) (λ x. Keeps-pure false))
