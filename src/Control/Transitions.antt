-- ===== src/Control/Transitions.antt =====
-- `Evolves` for a transition, and what is then known of its spec.
use nomercy_github_runner.Prelude.{
  ℕ, ◌≡◌, refl, sym, ap, ◌∙◌, subst, Bool, true, false, Option, none, some, List, [], ◌∷◌, any,
  arith, ◌⊎◌, inl, inr, Bool-cases, find_first, ==_iff, if◌then◌else◌,
}
use mathlib.Core.Option.{some_inj}
use nomercy_github_runner.States.Names.{State, in_states}
use nomercy_github_runner.States.Edges.{can, is_edge, transitions}
use nomercy_github_runner.States.Asking.{check}
use nomercy_github_runner.Specs.{
  Spec, Specs, Written, get_spec, update, at_version, bumped, matches, explain,
}
use nomercy_github_runner.Specs.Versions.{update_written, KeepsId}
use nomercy_github_runner.Reconciler.Decide.{serving}
use nomercy_github_runner.Control.World.{World, Result, ◌>>◌}
use nomercy_github_runner.Control.Stores.{look, update_row, after_write, rewritten}
use nomercy_github_runner.Control.Evolves.{
  Evolves, Evolves-self, Takes, IsKnown, near, near_self, near-one_step,
}
use nomercy_github_runner.Control.Rules.{
  Sound, Knows, After, nothing, Sound-bind, Sound-raise, Holds,
}
use nomercy_github_runner.Control.Leaves.{
  KeepsState, AllFollow, AllFollow-if, follow_update, get_spec-id, specs_Evolves, update-AllFollow,
}
use nomercy_github_runner.Control.Moves.{move, arrived, or_illegal}

-- A runner's own transition, from the state in which it was read.
pub move-Takes :
    (s r : Spec) (to : State) (extra : Spec → Spec)
    → KeepsState extra
    → can (some s.actual_state) to ≡ true
    → near s.actual_state r.actual_state ≡ true
    → Takes r (bumped (arrived to extra) r)
move-Takes s r to extra keeps edge close =
    let state : (arrived to extra r).actual_state ≡ to =
      (keeps (record r {
        actual_state = to;
        last_error = if in_states to serving then none else r.last_error;
      })).1 in
    (
      record { version = omega arith; unbumped = λ h. absurd (omega arith) },
      rw state (ground (arith, near-one_step s.actual_state r.actual_state to close edge)),
    )

move_AllFollow :
    (w : World) (s : Spec) (to : State) (extra : Spec → Spec)
    → KeepsState extra
    → IsKnown w s
    → can (some s.actual_state) to ≡ true
    → AllFollow w.specs (update s.runner_id s.spec_version (arrived to extra) w.specs).1
unfolding update
move_AllFollow w s to extra keeps k edge =
    AllFollow-if (matches s.runner_id (at_version s.spec_version) (get_spec s.runner_id w.specs)) _
      _ w.specs _
      (λ m.
        follow_update s.runner_id (at_version s.spec_version) (bumped (arrived to extra)) w.specs
          (λ r.
            (keeps (record r {
              actual_state = to;
              last_error = if in_states to serving then none else r.last_error;
            })).0)
          (λ r found at.
            let same : k.row ≡ r = some_inj.0 (sym k.found ∙ found) in
            let version : k.row.spec_version ≡ s.spec_version =
              ap (λ (x : Spec). x.spec_version) same
              ∙ (==_iff r.spec_version s.spec_version).0 at in
            move-Takes s r to extra keeps edge
              (subst (λ x. near s.actual_state x.actual_state ≡ true) same (k.unbumped version))))

abbrev decides : Written → Bool
decides (Written.version v) = true
decides (Written.raised e) = true
decides _ = false

explain-decides : (i v : ℕ) (o : Option Spec) → decides (explain i v o) ≡ true
explain-decides i v none = refl
explain-decides i v (some s) = refl

-- `update` writes or raises.
update-decides :
    (i v : ℕ) (change : Spec → Spec) (specs specs' : Specs) (u : Written)
    → update i v change specs ≡ (u, specs')
    → decides u ≡ true
unfolding update
update-decides i v change specs specs' u h =
    elim (Bool-cases (matches i (at_version v) (get_spec i specs))) [
      | inl m ↦ ground arith
      | inr m ↦ ground (arith, explain-decides i v (get_spec i specs))
    ]

find-any {ℓ} :
    {A : Type ℓ} (p : A → Bool) (l : List A)
    → (find_first p l ≡ none) ⊎ ((a : A) × (find_first p l ≡ some a) × (any p l ≡ true))
find-any p [] = inl refl
find-any p (a ∷ l) = elim (Bool-cases (p a)) [
  | inl e ↦ inr (a, rw e refl, rw e refl)
  | inr e ↦ elim (find-any p l) [ inl n ↦ inl (rw e n) | inr (b, f, h) ↦ inr (b, rw e f, rw e h) ]
]

looked_up :
    (i : ℕ) (F : Spec → Type 0) (w : World) (specs : Specs) (r : Spec)
    → Evolves w (rewritten specs w)
    → get_spec i specs ≡ some r
    → F r
    → (let o : Result Spec × World = look i (rewritten specs w) in
        Evolves w o.1 × After (λ r. r ∷ []) F o.1 o.0)
unfolding look
looked_up i F w specs r ev found fact = rw found (
  ev,
  (
    (
      record {
        row = r;
        found = subst (λ j. get_spec j specs ≡ some r) (sym (get_spec-id i specs r found)) found;
        version = omega arith;
        unbumped = λ h. near_self r.actual_state;
      },
      tt,
    ),
    fact,
  ),
)

-- A write at the version that was read, and the look after it.
module _ (s : Spec) (change : Spec → Spec) (F : Spec → Type 0) where
  written_then_look :
      (w : World) (u : Written) (specs : Specs)
      → KeepsId change
      → ((r : Spec)
          → get_spec s.runner_id w.specs ≡ some r
          → r.spec_version ≡ s.spec_version
          → F (bumped change r))
      → update s.runner_id s.spec_version change w.specs ≡ (u, specs)
      → Evolves w (rewritten specs w)
      → (let o : Result Spec × World = (after_write u >> look s.runner_id) (rewritten specs w) in
          Evolves w o.1 × After (λ r. r ∷ []) F o.1 o.0)
  written_then_look w (Written.version v) specs same fact e ev =
      let (r, found, at, next, there) =
        update_written s.runner_id s.runner_id s.spec_version v change w.specs specs same e in
      looked_up s.runner_id F w specs (bumped change r) ev
        (there ∙ rw ((==_iff s.runner_id s.runner_id).1 refl) refl) (fact r found at)
  written_then_look w Written.written specs same fact e ev =
      absurd (cc (update-decides s.runner_id s.spec_version change w.specs specs Written.written e))
  written_then_look w Written.superseded specs same fact e ev =
      absurd
        (cc (update-decides s.runner_id s.spec_version change w.specs specs Written.superseded e))
  written_then_look w (Written.raised x) specs same fact e ev = (ev, tt)

module _ {Γ : List Spec} where
  -- The machine is asked, and a move that it does not have raises.
  pub legal-Sound :
      (a to : State)
      → Sound Γ (or_illegal (check (some a) to none)) nothing (λ u. can (some a) to ≡ true)
  unfolding check can
  legal-Sound a to = elim (find-any (is_edge (some a) to) transitions) [
    | inl e ↦ rw e (Sound-raise _)
    | inr (edge, e, h) ↦ rw e (record { runs = λ w k. (Evolves-self w, (tt, h)) })
  ]

  -- A write at the version that was read, and the look after it.
  module _ (s : Spec) (change : Spec → Spec) (F : Spec → Type 0) where
    written-Sound :
        KeepsId change
        → ((w : World)
            → Knows w Γ
            → AllFollow w.specs (update s.runner_id s.spec_version change w.specs).1)
        → ((w : World)
            → Knows w Γ
            → (r : Spec) → get_spec s.runner_id w.specs ≡ some r
            → r.spec_version ≡ s.spec_version
            → F (bumped change r))
        → Sound Γ (update_row s.runner_id s.spec_version change >> look s.runner_id) (λ r. r ∷ []) F
    unfolding update_row look
    written-Sound same follows fact = record {
      runs = λ w k.
          let after = update s.runner_id s.spec_version change w.specs in
          written_then_look s change F w after.0 after.1 same (fact w k) refl
            (specs_Evolves w after.1 (follows w k));
    }

  pub moved-Sound :
      (s : Spec) (to : State) (extra : Spec → Spec)
      → KeepsState extra
      → Holds Γ s
      → can (some s.actual_state) to ≡ true
      → Sound Γ
          (update_row s.runner_id s.spec_version (arrived to extra) >> look s.runner_id)
          (λ r. r ∷ [])
          (λ r. r.actual_state ≡ to)
  moved-Sound s to extra keeps holds edge =
      written-Sound s (arrived to extra) (λ r. r.actual_state ≡ to)
        (λ r.
          (keeps (record r {
            actual_state = to;
            last_error = if in_states to serving then none else r.last_error;
          })).0)
        (λ w k. move_AllFollow w s to extra keeps (holds w k) edge)
        (λ w k r found at.
          (keeps (record r {
            actual_state = to;
            last_error = if in_states to serving then none else r.last_error;
          })).1)

  -- The write of another column: the row is near the state that was read.
  pub kept-Sound :
      (s : Spec) (change : Spec → Spec)
      → KeepsState change
      → Holds Γ s
      → Sound Γ
          (update_row s.runner_id s.spec_version change >> look s.runner_id)
          (λ r. r ∷ [])
          (λ r. near s.actual_state r.actual_state ≡ true)
  kept-Sound s change keeps holds =
      written-Sound s change (λ r. near s.actual_state r.actual_state ≡ true) (λ r. (keeps r).0)
        (λ w k. update-AllFollow s.runner_id s.spec_version change w.specs keeps)
        (λ w k r found at.
          let known : IsKnown w s = holds w k in
          let same : known.row ≡ r = some_inj.0 (sym known.found ∙ found) in
          rw (keeps r).1 (
            subst (λ (x : Spec). near s.actual_state x.actual_state ≡ true) same
              (known.unbumped (ap (λ (x : Spec). x.spec_version) same ∙ at))))

  -- `_move` keeps what `Evolves` says, and brings the spec in the state that it moved to.
  pub move-Sound :
      (s : Spec) (to : State) (extra : Spec → Spec)
      → KeepsState extra
      → Holds Γ s
      → Sound Γ (move s to extra) (λ r. r ∷ []) (λ r. r.actual_state ≡ to)
  unfolding move
  move-Sound s to extra keeps holds =
      Sound-bind (legal-Sound s.actual_state to) (λ u edge. moved-Sound s to extra keeps holds edge)
