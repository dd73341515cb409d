-- ===== src/Control/World.antt =====
-- The world that the control loop acts on, and actions: what a method of the reconciler or of the
-- service does to it (dashboard/control/reconciler.py, service.py). An exception leaves the world
-- as it was written so far.
use nomercy_github_runner.Prelude.{ℕ, Bool, Option, none, some, List, ◌∷◌, if◌then◌else◌}
use nomercy_github_runner.States.Names.{State, Verb}
use nomercy_github_runner.States.Asking.{StateError}
use nomercy_github_runner.Specs.{Spec, Specs, SpecError}
use nomercy_github_runner.Operations.Table.{Table}

-- A call of the executor: the step, and the state of the runner that the step was handed, before
-- the transitional state that it writes.
pub record Call : Type 0 where
  pub step : Verb
  pub runner_id : ℕ
  pub state : State

-- Why the report holds a step.
pub data Held : Type 0 where
  failed_recreate rollback not_confirmed_idle would_abort took_a_job worker_not_healthy : Held
  may_still_run sibling_unavailable replacement_in_progress recreate_queued : Held
  out_of_service clearing cache_queued not_placed ignored_observation changed_before_commit : Held
  rollback_held changed_mid_pass : Held

-- A line of the report: a step held, an action done, an error with its text.
pub data Line : Type 0 where
  held : ℕ → Held → Line
  did : Verb → ℕ → Line
  closed : ℕ → Verb → Line
  swept : ℕ → Line
  quiesced : ℕ → Line
  observed : ℕ → State → Line
  cache_budget : ℕ → Line
  failure : ℕ → ℕ → Line
  planned : ℕ → ℕ → Line
  scaled_down : ℕ → ℕ → Line
  converged : ℕ → Line
  maintenance : Line
  lease_lost : Line

-- A write that changed the state of a runner. The source keeps no such record: it is the model's,
-- for what is said of the writes.
pub record Moved : Type 0 where
  pub runner_id : ℕ
  pub frm : State
  pub to : State

-- A row of the audit of requests.
pub record Audited : Type 0 where
  pub verb : Verb
  pub runner_id : ℕ
  pub accepted : Bool

pub record World : Type 0 where
  pub specs : Specs
  pub table : Table
  pub calls : List Call
  pub moves : List Moved
  pub report : List Line
  pub audit : List Audited

-- What the executor or the service raises: its text, and the attributes that `_fail` reads.
pub record Failure : Type 0 where
  pub text : ℕ
  pub rollback_held : Bool
  pub retry_preflight : Bool
  pub removed_unit : Bool
  pub deregistered : Bool

-- Why the service refuses a request, or why it is none.
pub data Refusal : Type 0 where
  unknown_verb is_read acts_on_a_fleet would_abort not_possible in_flight key_reused : Refusal
  unknown_runner : Refusal

-- The exceptions: those of the stores and of the machine, a look into a row that is not there, and
-- any other.
pub data Error : Type 0 where
  of_spec : SpecError → Error
  of_state : StateError → Error
  unknown_operation : Error
  no_row : Error
  integrity_error : Error
  refused : Refusal → Error
  failed_with : Failure → Error

pub data Result (A : Type 0) : Type 0 where
  ok : A → Result A
  raised : Error → Result A

abbrev pub Action : Type 0 → Type 0
Action A = World → Result A × World

abbrev pub Done : Type 0
Done = Unit {0}

module _ {A : Type 0} where
  abbrev pub pure : A → Action A
  pure a w = (ok a, w)

  abbrev pub raise : Error → Action A
  raise e w = (raised e, w)

  abbrev pub or_raise : Error → Option A → Action A
  or_raise e none = raise e
  or_raise e (some a) = pure a

  abbrev pub gets : (World → A) → Action A
  gets f w = (ok (f w), w)

infixl 5 ◌>>=◌ ◌>>◌
abbrev pub ◌>>=◌ : {A B : Type 0} → Action A → (A → Action B) → Action B
◌>>=◌ m f w = let (r, w') = m w in elim r [ ok a ↦ f a w' | raised e ↦ raise e w' ]

abbrev pub ◌>>◌ : {A B : Type 0} → Action A → Action B → Action B
m >> k = m >>= λ _. k

-- try: m, else: f, except: g
abbrev pub try_else : {A B : Type 0} → Action A → (A → Action B) → (Error → Action B) → Action B
try_else m f g w = let (r, w') = m w in elim r [ ok a ↦ f a w' | raised e ↦ g e w' ]

abbrev pub modify : (World → World) → Action Done
modify f w = (ok tt, f w)

abbrev pub when : Bool → Action Done → Action Done
when b m = if b then m else pure tt

abbrev pub report_line : Line → Action Done
report_line l = modify (λ w. record w { report = l ∷ w.report })

-- The call is on record before it is made.
abbrev pub record_call : Verb → Spec → Action Done
record_call v s = modify (λ w. record w {
  calls = record { step = v; runner_id = s.runner_id; state = s.actual_state } ∷ w.calls;
})
