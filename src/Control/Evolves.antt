-- ===== src/Control/Evolves.antt =====
-- How the world may change: what is asked of the actions of the loop, and of the changes that other
-- processes make.
use nomercy_github_runner.Prelude.{
  ℕ, ◌≤◌, ◌≡◌, refl, subst, Bool, true, false, not, ◌&&◌, ◌||◌, some, List, [], ◌∷◌, any, All,
  arith, ◌⊎◌, inl, inr, ◌==◌, map,
}
use nomercy_github_runner.States.Names.{State, state_eq, in_states}
use nomercy_github_runner.States.Edges.{can, aborts_a_job}
use nomercy_github_runner.Specs.{Spec, Specs, get_spec}
use nomercy_github_runner.Reconciler.Decide.{serving}
use nomercy_github_runner.Control.World.{World, Call, Moved}

-- The same state, or idle and busy, which the forge's events exchange outside the versions.
abbrev pub near : State → State → Bool
near a b = state_eq a b || (in_states a serving && in_states b serving)

-- One edge of the machine, with idle and busy taken as one where it starts: the forge's events may
-- have exchanged them since the writer read the row.
abbrev pub one_step : State → State → Bool
one_step a b = can (some a) b || (in_states a serving && any (λ c. can (some c) b) serving)

-- Each write on record that changed a state went along one edge.
abbrev pub AllMoves : List Moved → Type 0
AllMoves = All (λ m. one_step m.frm m.to ≡ true)

-- A row and the same row later.
pub record Follows (s s' : Spec) : Type 0 where
  pub version : s.spec_version ≤ s'.spec_version
  pub unbumped : s'.spec_version ≡ s.spec_version → near s.actual_state s'.actual_state ≡ true

-- A row and the same row after one statement.
abbrev pub Takes : Spec → Spec → Type 0
Takes s s' =
    Follows s s'
    × ((state_eq s.actual_state s'.actual_state || one_step s.actual_state s'.actual_state) ≡ true)

-- No call of the executor ended the work of a runner that the step saw at work.
abbrev pub AllSafe : List Call → Type 0
AllSafe = All (λ c. aborts_a_job c.step c.state ≡ false)

-- The key of the table of specs: no two rows have one.
abbrev pub ids : Specs → List ℕ
ids = map (λ (s : Spec). s.runner_id)

unfoldable pub distinct : List ℕ → Bool
distinct [] = true
distinct (i ∷ l) = not (any (λ j. i == j) l) && distinct l

pub record Evolves (w w' : World) : Type 0 where
  pub rows :
      (i : ℕ) (s : Spec)
      → get_spec i w.specs ≡ some s
      → (s' : Spec) × (get_spec i w'.specs ≡ some s') × Follows s s'
  pub safe : AllSafe w.calls → AllSafe w'.calls
  pub moves : AllMoves w.moves → AllMoves w'.moves
  pub keys : distinct (ids w.specs) ≡ true → distinct (ids w'.specs) ≡ true

-- What is known of a spec that was read: its row is there, at the version or a later one.
pub record IsKnown (w : World) (s : Spec) : Type 0 where
  pub row : Spec
  pub found : get_spec s.runner_id w.specs ≡ some row
  pub version : s.spec_version ≤ row.spec_version
  pub unbumped : row.spec_version ≡ s.spec_version → near s.actual_state row.actual_state ≡ true

pub near_self : (a : State) → near a a ≡ true
near_self a = ground arith

near_trans : (a b c : State) → near a b ≡ true → near b c ≡ true → near a c ≡ true
near_trans a b c h g = ground arith

pub Follows-self : (s : Spec) → Follows s s
Follows-self s = record { version = omega arith; unbumped = λ e. near_self s.actual_state }

pub Follows-trans : (s t u : Spec) → Follows s t → Follows t u → Follows s u
Follows-trans s t u f g = record {
  version = omega (arith, f.version, g.version);
  unbumped = λ e.
      near_trans s.actual_state t.actual_state u.actual_state
        (f.unbumped (omega (arith, f.version, g.version)))
        (g.unbumped (omega (arith, f.version, g.version)));
}

pub Takes-self : (s : Spec) → Takes s s
Takes-self s = (Follows-self s, ground arith)

pub Evolves-self : (w : World) → Evolves w w
Evolves-self w = record {
  rows = λ i s e. (s, e, Follows-self s);
  safe = λ a. a;
  moves = λ m. m;
  keys = λ d. d;
}

pub Evolves-trans : {u v w : World} → Evolves u v → Evolves v w → Evolves u w
Evolves-trans e f = record {
  rows = λ i s h.
      let (t, ht, st) = e.rows i s h in
      let (r, hr, tr) = f.rows i t ht in (r, hr, Follows-trans s t r st tr);
  safe = λ a. f.safe (e.safe a);
  moves = λ m. f.moves (e.moves m);
  keys = λ d. f.keys (e.keys d);
}

-- What is known stays known.
pub IsKnown-later : {w w' : World} {s : Spec} → IsKnown w s → Evolves w w' → IsKnown w' s
IsKnown-later {s} k e =
    let (r, found, f) = e.rows s.runner_id k.row k.found in
    record {
      row = r;
      found = found;
      version = omega (arith, k.version, f.version);
      unbumped = λ h.
          near_trans s.actual_state k.row.actual_state r.actual_state
            (k.unbumped (omega (arith, k.version, f.version)))
            (f.unbumped (omega (arith, k.version, f.version)));
    }

near-cases :
    (a b : State)
    → near a b ≡ true
    → (a ≡ b) ⊎ ((in_states b serving ≡ true) × (in_states a serving ≡ true))
near-cases a b h = ground arith

any-serving :
    (a c : State)
    → in_states a serving ≡ true
    → can (some a) c ≡ true
    → any (λ d. can (some d) c) serving ≡ true
any-serving a c h e = ground arith

-- An edge from a state is one step from each near one.
pub near-one_step : (a b c : State) → near a b ≡ true → can (some a) c ≡ true → one_step b c ≡ true
near-one_step a b c h e = elim (near-cases a b h) [
  | inl same ↦ rw (subst (λ x. can (some x) c ≡ true) same e) refl
  | inr (here, there) ↦ ground (arith, here, any-serving a c there e)
]
