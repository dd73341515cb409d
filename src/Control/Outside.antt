-- ===== src/Control/Outside.antt =====
-- What the loop calls and does not hold: the executor (the Protocol `Executor` of
-- dashboard/control/reconciler.py), the parts of the service that work out a runner's settings, the
-- inventory, the clock and the minting of identifiers. Each is an action, so that it may also stand
-- for what other processes do to the stores meanwhile.
use nomercy_github_runner.Prelude.{ℕ, Bool, Option, List}
use nomercy_github_runner.States.Names.{State}
use nomercy_github_runner.Specs.{Spec, ForgeWord}
use nomercy_github_runner.Reconciler.Capacity.{Fleet}
use nomercy_github_runner.Control.World.{Action, Done, Error}

-- The answer of `provision`, and of `register`, with the labels that drifted.
pub record Built : Type 0 where
  pub exec_unit_ref : Option ℕ
  pub host_id : Option ℕ

pub record Registered : Type 0 where
  pub registration_id : Option ℕ
  pub registration_uuid : Option ℕ
  pub drift : Option ℕ

-- The answer of `abandon`: what its compensations undid, and how that reads.
pub record Undone : Type 0 where
  pub removed_unit : Bool
  pub deregistered : Bool
  pub text : ℕ

-- What the executor has read of the forge for a runner and hands out once: a word, the labels, and
-- the moment of the reading where an observer made it (`some none` for one that has none yet).
pub record Reading : Type 0 where
  pub word : Option ForgeWord
  pub labels : Option (Option ℕ)
  pub sampled : Option (Option ℕ)

-- The columns cache_policy, platform and telemetry of a row, as the cache budget reads them: the
-- limit and the use where they are integers, and the moment of the reading where it is one.
pub record CacheBudget : Type 0 where
  pub native : Bool
  pub enabled : Bool
  pub max_bytes : Option ℕ
  pub cache_bytes : Option ℕ
  pub cache_at : Option ℕ

pub record Outside : Type 0 where
  pub observe : Spec → Action (Option State)
  pub observe_fresh : Spec → Action (Option State)
  pub placement : Option (Spec → Action (Option ℕ))
  pub provision : Spec → (ℕ → Action Bool) → Action Built
  pub register : Spec → (Option ℕ → Option ℕ → Action Bool) → Action Registered
  pub abandon : Spec → Action Undone
  pub start : Spec → Action Done
  pub stop : Spec → Action Done
  pub drain : Spec → Action Bool
  pub cancel_drain : Spec → Action Done
  pub deregister : Spec → Action Done
  pub remove : Spec → Bool → Action Done
  pub clear_cache : Spec → Action (Option ℕ)
  pub quiescent : Option (Spec → Action Bool)
  pub captured : ℕ → Action (Option ℕ)
  pub forge_reading : ℕ → Action Reading
  pub effective_settings : Spec → Action ℕ
  pub replacement_settings : Spec → Action ℕ
  pub validate_replacement : Spec → Action Done
  pub forget_adoption : Spec → Action Done
  pub cache_budget : Spec → CacheBudget
  -- The key of a cache clear that the budget asks for: the runner and the moment of the reading.
  pub budget_key : ℕ → Option ℕ → ℕ
  pub accepts : ℕ → Action Bool
  pub invalidate_cache : ℕ → Action Done
  -- Whether the platform is in maintenance, and whether the lease was lost meanwhile.
  pub maintenance : Action Bool
  pub lease_lost : Action Bool
  pub fleets : Action (List Fleet)
  pub plan : ℕ → ℕ → Action Done
  pub now : Action ℕ
  pub new_id : Action ℕ
  -- The text of an exception, and of one with the words before it.
  pub text_of : Error → ℕ
  pub prefixed : ℕ → ℕ → ℕ
