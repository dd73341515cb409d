-- ===== src/Reconciler/Decide/Convergence.antt =====
-- Repeating the decided step of an undisturbed runner leads where it was asked to.
use nomercy_github_runner.Prelude.{
  ℕ, Bool, true, false, ◌≡◌, ◌≢◌, refl, Option, none, some, List, [], ◌∷◌, arith, Finite, every,
  every_at, all, implies, implies_elim, not, is_some, ◌&&◌, ◌||◌, &&_parts,
}
use nomercy_github_runner.States.Names.{State, Verb, failed, in_states, in_verbs, planned, unknown}
use nomercy_github_runner.States.Edges.{can}
use nomercy_github_runner.States.Asking.{allows, fleet_verbs, ok, raised, reads}
use nomercy_github_runner.States.Values.{State-finite, Verb-finite}
use nomercy_github_runner.Reconciler.Decide.{View, Desired, serving}
use nomercy_github_runner.Reconciler.Steps.{Life, Closing, pass_over, passes, desired_by_verb}

abbrev desired_values : List Desired
desired_values = Desired.running ∷ Desired.stopped ∷ Desired.drained ∷ Desired.absent ∷ []

desired_covered : (p : Desired → Bool) → all p desired_values ≡ true → (d : Desired) → p d ≡ true
desired_covered p h Desired.running = ground arith
desired_covered p h _ = ground arith

bools_covered : (p : Bool → Bool) → all p (true ∷ false ∷ []) ≡ true → (b : Bool) → p b ≡ true
bools_covered p h true = ground arith
bools_covered p h false = ground arith

instance abbrev Desired-finite : Finite Desired
Desired-finite = record { values = desired_values; covers = desired_covered }

instance abbrev Bool-finite : Finite Bool
Bool-finite = record { values = true ∷ false ∷ []; covers = bools_covered }

abbrev pub view_of : State → Desired → Bool → Bool → View
view_of s d err first = record { actual = s; desired = d; has_error = err; drain_first = first }

-- A runner with no operation open.
abbrev pub resting : State → Desired → Bool → Bool → Life
resting s d err first = record {
  view = view_of s d err first;
  verb = none;
  done = [];
  outcome = Closing.left_open;
}

-- A runner of which a verb was just asked.
abbrev pub asked : Verb → State → Desired → Bool → Bool → Life
asked v s d err first = record (resting s (desired_by_verb v d) err first) { verb = some v }

-- An undisturbed runner (every call of the executor succeeds, nothing holds a step, no job comes or
-- goes) that is meant to be absent and has no operation open is absent after five passes, whatever
-- state of the machine it starts in and whatever error it carries; every move on the way is put to
-- the machine, and one that it refused would leave the runner where it is.
pub passes-absent :
    (s : State) (err first : Bool)
    → s ≢ unknown
    → (passes 5 (resting s Desired.absent err first)).view.actual ≡ State.absent
unfolding passes pass_over allows can
passes-absent planned err first h = refl
passes-absent unknown err first h = absurd (h refl)
passes-absent _ err first h = refl

abbrev pub gone_or_failed : List State
gone_or_failed = State.absent ∷ failed ∷ unknown ∷ []

abbrev runs_after : ℕ → State → Bool → Bool
runs_after n s first =
    implies (not (in_states s gone_or_failed))
      (in_states (passes n (resting s Desired.running false first)).view.actual serving)

running_table : every {A = State} (λ s. every {A = Bool} (λ first. runs_after 4 s first)) ≡ true
unfolding passes pass_over allows can desired_by_verb
running_table = refl

-- An undisturbed runner (every call of the executor succeeds, nothing holds a step, no job comes or
-- goes) that is meant to run, has no operation open and carries no error is serving after four
-- passes, unless it is gone or failed; every move on the way is put to the machine.
pub passes-running :
    (s : State) (first : Bool)
    → not (in_states s gone_or_failed) ≡ true
    → in_states (passes 4 (resting s Desired.running false first)).view.actual serving ≡ true
passes-running s first h =
    let at_s = every_at (λ t. every {A = Bool} (λ b. runs_after 4 t b)) running_table s in
    implies_elim _ _ (every_at (runs_after 4 s) at_s first) h

abbrev pub allowed : Verb → State → Bool
allowed v s = elim (allows v (some s)) [ ok b ↦ b | raised e ↦ false ]

abbrev succeeded : Closing → Bool
succeeded Closing.succeeds = true
succeeded _ = false

-- A read or a fleet verb is never the operation of a runner (`_act` refuses them).
abbrev pub acts_on_a_runner : Verb → State → Bool
acts_on_a_runner v s = allowed v s && not (in_verbs v reads || in_verbs v fleet_verbs)

abbrev closed_after : ℕ → Verb → State → Desired → Bool → Bool → Bool
closed_after n v s d err first =
    implies (acts_on_a_runner v s)
      (let r = passes n (asked v s d err first) in succeeded r.outcome && not (is_some r.verb))

-- The same at every truth value, and at every desired state.
abbrev closed_plain : ℕ → Verb → State → Desired → Bool
closed_plain n v s d =
    every {A = Bool} (λ err. every {A = Bool} (λ first. closed_after n v s d err first))

abbrev closed_desired : ℕ → Verb → State → Bool
closed_desired n v s = every {A = Desired} (closed_plain n v s)

closing_table : every {A = Verb} (λ v. every {A = State} (λ s. closed_desired 11 v s)) ≡ true
unfolding passes pass_over allows can desired_by_verb
closing_table = refl

closed_at :
    (v : Verb) (s : State) (d : Desired) (err first : Bool) → closed_after 11 v s d err first ≡ true
closed_at v s d err first =
    let at_v = every_at (λ w. every {A = State} (λ t. closed_desired 11 w t)) closing_table v in
    let at_s = every_at (closed_desired 11 v) at_v s in
    let at_d = every_at (closed_plain 11 v s) at_s d in
    let at_err = every_at (λ e. every {A = Bool} (λ b. closed_after 11 v s d e b)) at_d err in
    every_at (closed_after 11 v s d err) at_err first

succeeded-eq : (c : Closing) → succeeded c ≡ true → c ≡ Closing.succeeds
succeeded-eq c h = ground arith

none_of : {A : Type 0} (o : Option A) → not (is_some o) ≡ true → o ≡ none
none_of o h = ground arith

-- A verb that the machine allows, asked of an undisturbed runner in any state, has its operation
-- closed as succeeded after eleven passes, whatever was desired before, and none stays open.
-- Undisturbed: every call of the executor succeeds, no hold, turn, preflight or worker check stops
-- a step, and no job comes or goes. Every move on the way is put to the machine.
pub asked_succeeds :
    (v : Verb) (s : State) (d : Desired) (err first : Bool)
    → acts_on_a_runner v s ≡ true
    → ((passes 11 (asked v s d err first)).outcome ≡ Closing.succeeds)
      × ((passes 11 (asked v s d err first)).verb ≡ none)
asked_succeeds v s d err first h =
    let both = implies_elim _ _ (closed_at v s d err first) h in
    let parts = &&_parts _ _ both in (succeeded-eq _ parts.0, none_of _ parts.1)
