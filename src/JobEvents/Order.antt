-- ===== src/JobEvents/Order.antt =====
-- Which of two events is the later one, and which is shown: `_rank`, `_same_execution` and
-- `_display_newer` (dashboard/control/job_events.py).
use nomercy_github_runner.Prelude.{
  ℕ, ◌+◌, Bool, true, false, not, ◌&&◌, ◌||◌, Option, none, some, [], ◌∷◌, ltb, leb, ◌==◌,
  if◌then◌else◌,
}
use nomercy_github_runner.Text.{is_digits, int_of}
use nomercy_github_runner.JobEvents.Event.{
  Event, Text, has_text, is_finished, is_forge, is_worker, same_bool, starts_with, text_eq, text_or,
  value_eq,
}

-- `_rank`, a tuple
pub record Rank : Type 0 where
  pub at : ℕ
  pub number : ℕ
  pub ended : Bool

abbrev job_number : Text → ℕ
job_number s = if is_digits s then int_of s else 0

abbrev pub rank_of : Event → Rank
rank_of e = record { at = e.at; number = job_number (text_or e.job_id []); ended = is_finished e }

unfoldable pub rank_lt : Rank → Rank → Bool
rank_lt a b =
    ltb a.at b.at
    || (a.at == b.at
        && (ltb a.number b.number || (a.number == b.number && (not a.ended && b.ended))))

-- _rank(a) >= _rank(b)
abbrev pub ranks_from : Event → Event → Bool
ranks_from a b = not (rank_lt (rank_of a) (rank_of b))

abbrev is_hook : Event → Bool
is_hook e = starts_with (b'h' ∷ b'o' ∷ b'o' ∷ b'k' ∷ b':' ∷ []) (text_or e.job_id [])

abbrev attempt_of : Event → Text
attempt_of e = text_or e.run_attempt (b'1' ∷ [])

-- `_same_execution`
unfoldable pub same_execution : Event → Event → Bool
same_execution left right =
    if not (has_text left.run_id) || not (value_eq left.run_id right.run_id)
    then false
    else if not (text_eq (attempt_of left) (attempt_of right))
    then false
    else if has_text left.job_id
        && (has_text right.job_id && same_bool (is_hook left) (is_hook right))
    then value_eq left.job_id right.job_id
    else if is_finished left && is_finished right
    then true
    else has_text left.job && value_eq left.job right.job

-- timedelta(seconds=30)
abbrev clock_skew : ℕ
clock_skew = 30000000

abbrev within_worker_clock : Event → ℕ → Bool
within_worker_clock item received = leb item.at (received + clock_skew)

abbrev has_job_context : Event → Bool
has_job_context item = has_text item.run_id && has_text item.job

abbrev received_or : Option ℕ → ℕ → ℕ
received_or none received = received
received_or (some at) received = at

-- A forge's event against a display that is no forge's.
abbrev outlives : Event → Event → ℕ → Option ℕ → Bool
outlives event current received current_received =
    not (same_execution event current)
    && (not (is_finished current)
        && (has_job_context current
            && (within_worker_clock current (received_or current_received received)
                && rank_lt (rank_of event) (rank_of current))))

abbrev over_current : Event → Event → ℕ → Option ℕ → Bool
over_current event current received current_received =
    if is_worker current && not (has_job_context current)
    then true
    else if is_forge current && is_worker event
    then (if same_execution event current && is_finished current
        then false
        else ranks_from event current)
    else if is_forge event && not (is_forge current)
    then not (outlives event current received current_received)
    else if same_execution event current && (is_finished current && not (is_finished event))
    then false
    else ranks_from event current

-- `_display_newer`
unfoldable pub display_newer : Event → Option Event → ℕ → Option ℕ → Bool
display_newer event current received current_received =
    if is_worker event && (not (has_job_context event) || not (within_worker_clock event received))
    then false
    else elim current [
      | none ↦ true
      | some shown ↦ over_current event shown received current_received
    ]
