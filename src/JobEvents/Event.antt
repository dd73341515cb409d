-- ===== src/JobEvents/Event.antt =====
-- The event of a job, as `validate` returns it (dashboard/control/job_events.py).
use nomercy_github_runner.Prelude.{
  ℕ, Bool, true, false, not, ◌&&◌, Option, none, some, List, [], ◌∷◌, ◌==◌,
}

abbrev pub Text : Type 0
Text = List ℕ

unfoldable pub text_eq : Text → Text → Bool
text_eq [] [] = true
text_eq (c ∷ s) (d ∷ t) = let rest = text_eq s t in c == d && rest
text_eq _ _ = false

unfoldable pub value_eq : Option Text → Option Text → Bool
unfolding text_eq
value_eq none none = true
value_eq (some s) (some t) = text_eq s t
value_eq _ _ = false

-- Whether a value is true in Python: neither None nor empty.
abbrev pub has_text : Option Text → Bool
has_text none = false
has_text (some []) = false
has_text (some (c ∷ s)) = true

-- `value or default`
abbrev pub text_or : Option Text → Text → Text
text_or none d = d
text_or (some []) d = d
text_or (some (c ∷ s)) d = c ∷ s

abbrev pub starts_with : Text → Text → Bool
starts_with [] s = true
starts_with (c ∷ p) [] = false
starts_with (c ∷ p) (d ∷ s) = let rest = starts_with p s in c == d && rest

pub data JobState : Type 0 where
  started finished : JobState

-- The source that `apply` writes; a display stored before there were sources has none.
pub data Source : Type 0 where
  worker forge unmarked : Source

pub record Event : Type 0 where
  pub event_id : ℕ
  pub runner_id : ℕ
  pub job : Option Text
  pub repo : Option Text
  pub commit : Option Text
  pub run_id : Option Text
  pub run_attempt : Option Text
  pub job_id : Option Text
  pub state : JobState
  pub at : ℕ
  pub result : Option Text
  pub source : Source

abbrev pub is_finished : Event → Bool
is_finished e = elim e.state [ started ↦ false | finished ↦ true ]

abbrev pub is_forge : Event → Bool
is_forge e = elim e.source [ forge ↦ true | _ ↦ false ]

abbrev pub is_worker : Event → Bool
is_worker e = elim e.source [ worker ↦ true | _ ↦ false ]

abbrev pub same_bool : Bool → Bool → Bool
same_bool true b = b
same_bool false b = not b

-- Equality of the payloads, the JSON texts of two events with sorted keys.
unfoldable pub event_eq : Event → Event → Bool
event_eq a b =
    a.event_id == b.event_id
    && (a.runner_id == b.runner_id
        && (a.at == b.at
            && (same_bool (is_finished a) (is_finished b)
                && (same_bool (is_forge a) (is_forge b)
                    && (same_bool (is_worker a) (is_worker b)
                        && (value_eq a.job b.job
                            && (value_eq a.repo b.repo
                                && (value_eq a.commit b.commit
                                    && (value_eq a.run_id b.run_id
                                        && (value_eq a.run_attempt b.run_attempt
                                            && (value_eq a.job_id b.job_id
                                                && value_eq a.result b.result)))))))))))
