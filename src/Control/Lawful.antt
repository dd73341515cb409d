-- ===== src/Control/Lawful.antt =====
-- What the loop relies on in the rest of the system: the executor writes no row of its own, except
-- through the callback that it is given, and what other processes do meanwhile to the rows is what
-- every writer of the state does: a row stays, its version does not go back, its state changes with
-- its version but for idle and busy, and what is added to the record of moves are edges of the
-- machine.
use nomercy_github_runner.Prelude.{ℕ, ◌≡◌, Bool, Option, some, List, []}
use nomercy_github_runner.Specs.{Spec}
use nomercy_github_runner.Control.World.{Action}
use nomercy_github_runner.Control.Outside.{Outside}
use nomercy_github_runner.Control.Rules.{Keeps}

pub record Lawful (o : Outside) : Type 0 where
  pub observe : (s : Spec) → Keeps [] (o.observe s)
  pub observe_fresh : (s : Spec) → Keeps [] (o.observe_fresh s)
  pub placement :
      (p : Spec → Action (Option ℕ)) → o.placement ≡ some p → (s : Spec) → Keeps [] (p s)
  pub provision :
      (Γ : List Spec) (s : Spec) (write : ℕ → Action Bool)
      → ((host : ℕ) → Keeps Γ (write host))
      → Keeps Γ (o.provision s write)
  pub register :
      (Γ : List Spec) (s : Spec) (write : Option ℕ → Option ℕ → Action Bool)
      → ((rid uuid : Option ℕ) → Keeps Γ (write rid uuid))
      → Keeps Γ (o.register s write)
  pub abandon : (s : Spec) → Keeps [] (o.abandon s)
  pub start : (s : Spec) → Keeps [] (o.start s)
  pub stop : (s : Spec) → Keeps [] (o.stop s)
  pub drain : (s : Spec) → Keeps [] (o.drain s)
  pub cancel_drain : (s : Spec) → Keeps [] (o.cancel_drain s)
  pub deregister : (s : Spec) → Keeps [] (o.deregister s)
  pub remove : (s : Spec) (keep_storage : Bool) → Keeps [] (o.remove s keep_storage)
  pub clear_cache : (s : Spec) → Keeps [] (o.clear_cache s)
  pub quiescent : (q : Spec → Action Bool) → o.quiescent ≡ some q → (s : Spec) → Keeps [] (q s)
  pub captured : (i : ℕ) → Keeps [] (o.captured i)
  pub forge_reading : (i : ℕ) → Keeps [] (o.forge_reading i)
  pub effective_settings : (s : Spec) → Keeps [] (o.effective_settings s)
  pub replacement_settings : (s : Spec) → Keeps [] (o.replacement_settings s)
  pub validate_replacement : (s : Spec) → Keeps [] (o.validate_replacement s)
  pub forget_adoption : (s : Spec) → Keeps [] (o.forget_adoption s)
  pub accepts : (host : ℕ) → Keeps [] (o.accepts host)
  pub invalidate_cache : (i : ℕ) → Keeps [] (o.invalidate_cache i)
  pub maintenance : Keeps [] o.maintenance
  pub lease_lost : Keeps [] o.lease_lost
  pub fleets : Keeps [] o.fleets
  pub plan : (fleet missing : ℕ) → Keeps [] (o.plan fleet missing)
  pub now : Keeps [] o.now
  pub new_id : Keeps [] o.new_id
