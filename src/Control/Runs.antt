-- ===== src/Control/Runs.antt =====
-- Passes of the loop and requests in any order.
use nomercy_github_runner.Prelude.{ℕ, ◌≤◌, ◌≡◌, Option, some, [], true}
use nomercy_github_runner.States.Names.{Verb}
use nomercy_github_runner.Specs.{Spec, get_spec}
use nomercy_github_runner.Reconciler.Decide.{Desired}
use nomercy_github_runner.Control.World.{World}
use nomercy_github_runner.Control.Outside.{Outside}
use nomercy_github_runner.Control.Lawful.{Lawful}
use nomercy_github_runner.Control.Evolves.{
  Evolves, Evolves-self, Evolves-trans, near, AllMoves, AllSafe, ids, distinct,
}
use nomercy_github_runner.Control.Request.{act, set_desired}
use nomercy_github_runner.Control.Pass.{pass_once}
use nomercy_github_runner.Control.Keeping.Asking.{act-Keeps, set_desired-Keeps}
use nomercy_github_runner.Control.Keeping.Passing.{pass_once-Evolves}

-- What the control plane did between two worlds.
pub data Turns (o : Outside) : World → World → Type 0 where
  rest : {w : World} → Turns o w w
  passed : {v w : World} → Turns o v w → Turns o v (pass_once o w).1
  asked :
      {v w : World} (i : ℕ) (verb : Verb) (key : Option ℕ)
      → Turns o v w
      → Turns o v (act o i verb key w).1
  wanted :
      {v w : World} (i : ℕ) (d : Desired) (key : Option ℕ)
      → Turns o v w
      → Turns o v (set_desired o i d key w).1

turns-Evolves :
    (o : Outside) (v w : World)
    → Lawful o
    → Turns o v w
    → distinct (ids v.specs) ≡ true
    → Evolves v w
turns-Evolves o v w l rest d = Evolves-self w
turns-Evolves o v w l (passed {w = u} t) d =
    let e = turns-Evolves o v u l t d in Evolves-trans e (pass_once-Evolves o l u (e.keys d))
turns-Evolves o v w l (asked {w = u} i verb key t) d =
    Evolves-trans (turns-Evolves o v u l t d) ((act-Keeps o l {Γ = []} i verb key).runs u tt).0
turns-Evolves o v w l (wanted {w = u} i desired key t) d =
    Evolves-trans (turns-Evolves o v u l t d)
      ((set_desired-Keeps o l {Γ = []} i desired key).runs u tt).0

-- Whatever passes and requests come after each other, and whatever the executor answers or raises
-- in them, every write on record that changes a runner's state goes along one edge of the machine,
-- where the row's idle or busy may stand for the other of them: if this was so of the writes on
-- record before, it is so of those after. A runner that has a row keeps it, its version does not go
-- back, and as long as the version is the same so is the state, idle and busy taken as one. Asked
-- of the rest of the system: what it does to the rows and adds to the record keeps all of this, and
-- no two rows have one key.
pub turns_follow_machine :
    (o : Outside) (v w : World) (i : ℕ) (s : Spec)
    → Lawful o
    → distinct (ids v.specs) ≡ true
    → Turns o v w
    → AllMoves v.moves
    → get_spec i v.specs ≡ some s
    → AllMoves w.moves
      × ((s' : Spec) × (get_spec i w.specs ≡ some s')
          × (s.spec_version ≤ s'.spec_version)
          × (s'.spec_version ≡ s.spec_version → near s.actual_state s'.actual_state ≡ true))
turns_follow_machine o v w i s l d t legal found =
    let e = turns-Evolves o v w l t d in
    let (s', there, f) = e.rows i s found in (e.moves legal, (s', there, f.version, f.unbumped))

-- In the same passes and requests, the executor is never asked to stop, deregister or remove a
-- runner whose row showed it busy or draining when the step began: if no call on record was such a
-- one before, none is after.
pub turns_abort_nothing :
    (o : Outside) (v w : World)
    → Lawful o
    → distinct (ids v.specs) ≡ true
    → Turns o v w
    → AllSafe v.calls
    → AllSafe w.calls
turns_abort_nothing o v w l d t safe = (turns-Evolves o v w l t d).safe safe
