-- ===== src/Control/Fences.antt =====
-- `Evolves` for statements on the table of specs outside the versions, and for a transition that was
-- observed.
use nomercy_github_runner.Prelude.{
  ℕ, ◌≡◌, refl, sym, ap, ◌∙◌, subst, Bool, true, none, some, List, [], ◌∷◌, arith, inl, inr,
  Bool-cases, if◌then◌else◌, ==_iff,
}
use mathlib.Core.Option.{some_inj}
use nomercy_github_runner.States.Names.{State}
use nomercy_github_runner.States.Edges.{can}
use nomercy_github_runner.Specs.{
  Spec, Specs, get_spec, is_runner, update_observed, at_version, same_evidence, matches, bumped,
}
use nomercy_github_runner.Control.World.{World}
use nomercy_github_runner.Control.Stores.{rewrite_rows, observe_row, write}
use nomercy_github_runner.Control.Evolves.{Takes, Takes-self, near_self, IsKnown, near, ids}
use nomercy_github_runner.Control.Rules.{Keeps, Sound-bind, Sound-next, Sound-if, Keeps-pure, Holds}
use nomercy_github_runner.Control.Leaves.{
  AllFollow, follow_update, specs_Evolves, write-Evolves, look-Sound, action-Keeps, RowsFollow,
  AllFollow-self,
}
use nomercy_github_runner.Control.Transitions.{legal-Sound, move-Takes}
use nomercy_github_runner.Control.Moves.{move_observed, arrived}
use nomercy_github_runner.Control.Observe.{fenced}

-- A change of neither the state nor the identifier nor the version.
abbrev pub KeepsRow : (Spec → Spec) → Type 0
KeepsRow f =
    (s : Spec)
    → ((f s).runner_id ≡ s.runner_id)
      × ((f s).actual_state ≡ s.actual_state)
      × ((f s).spec_version ≡ s.spec_version)

fenced-Takes :
    (test : Spec → Bool) (f : Spec → Spec) (s : Spec)
    → KeepsRow f
    → Takes s (if test s then f s else s)
fenced-Takes test f s keeps = elim (Bool-cases (test s)) [
  | inl e ↦ rw e (
    record {
      version = omega (arith, (keeps s).2);
      unbumped = λ h. rw (keeps s).1 (near_self s.actual_state);
    },
    rw (keeps s).1 (ground arith),
  )
  | inr e ↦ rw e (Takes-self s)
]

fenced-id :
    (test : Spec → Bool) (f : Spec → Spec) (s : Spec)
    → KeepsRow f
    → (if test s then f s else s).runner_id ≡ s.runner_id
fenced-id test f s keeps = elim (Bool-cases (test s)) [
  | inl e ↦ rw e (keeps s).0
  | inr e ↦ rw e refl
]

fenced-RowsFollow :
    (test : Spec → Bool) (f : Spec → Spec) (specs : Specs)
    → KeepsRow f
    → RowsFollow specs (fenced test f specs)
unfolding get_spec
fenced-RowsFollow test f [] keeps i s h = absurd (cc h)
fenced-RowsFollow test f (r ∷ specs) keeps i s h = elim (Bool-cases (is_runner i r)) [
  | inl own ↦
      let same : r ≡ s = some_inj.0 (ground arith) in
      (
        (if test r then f r else r),
        rw (fenced-id test f r keeps) (rw own refl),
        subst (λ x. Takes x (if test r then f r else r)) same (fenced-Takes test f r keeps),
      )
  | inr other ↦
      let (t, found, step) = fenced-RowsFollow test f specs keeps i s (ground arith) in
      (t, rw (fenced-id test f r keeps) (rw other found), step)
]

fenced-ids :
    (test : Spec → Bool) (f : Spec → Spec) (specs : Specs)
    → KeepsRow f
    → ids (fenced test f specs) ≡ ids specs
fenced-ids test f [] keeps = refl
fenced-ids test f (r ∷ specs) keeps =
    rw (fenced-id test f r keeps, fenced-ids test f specs keeps) refl

pub fenced-AllFollow :
    (test : Spec → Bool) (f : Spec → Spec) (specs : Specs)
    → KeepsRow f
    → AllFollow specs (fenced test f specs)
fenced-AllFollow test f specs keeps =
    (fenced-ids test f specs keeps, fenced-RowsFollow test f specs keeps)

module _ {Γ : List Spec} where
  pub rewrite_rows-Keeps :
      (test : Spec → Bool) (f : Spec → Spec) → KeepsRow f → Keeps Γ (rewrite_rows (fenced test f))
  unfolding rewrite_rows
  rewrite_rows-Keeps test f keeps = record {
    runs = λ w k.
        (specs_Evolves w (fenced test f w.specs) (fenced-AllFollow test f w.specs keeps), (tt, tt));
  }

observed_AllFollow :
    (w : World) (s : Spec) (to : State) (captured : ℕ)
    → IsKnown w s
    → can (some s.actual_state) to ≡ true
    → AllFollow w.specs (update_observed s captured (arrived to (λ r. r)) w.specs).1
unfolding update_observed
observed_AllFollow w s to captured k edge =
    elim (Bool-cases
      (matches s.runner_id (at_version s.spec_version) (get_spec s.runner_id w.specs))) [
        | inr e ↦ rw e (AllFollow-self w.specs)
        | inl e ↦
            elim (Bool-cases
              (matches s.runner_id (same_evidence s captured) (get_spec s.runner_id w.specs))) [
                | inr d ↦ rw (e, d) (AllFollow-self w.specs)
                | inl d ↦
                    rw (e, d)
                      (follow_update s.runner_id (at_version s.spec_version)
                        (bumped (arrived to (λ r. r))) w.specs (λ r. refl)
                        (λ r found at.
                          let same : k.row ≡ r = some_inj.0 (sym k.found ∙ found) in
                          let version : k.row.spec_version ≡ s.spec_version =
                            ap (λ (x : Spec). x.spec_version) same
                            ∙ (==_iff r.spec_version s.spec_version).0 at in
                          move-Takes s r to (λ x. x) (λ x. (refl, refl)) edge
                            (subst (λ x. near s.actual_state x.actual_state ≡ true) same
                              (k.unbumped version))))
              ]
      ]

module _ {Γ : List Spec} where
  observe_row-Keeps :
      (s : Spec) (to : State) (captured : ℕ)
      → Holds Γ s
      → can (some s.actual_state) to ≡ true
      → Keeps Γ (observe_row s captured (arrived to (λ r. r)))
  unfolding observe_row
  observe_row-Keeps s to captured holds edge =
      action-Keeps (write (update_observed s captured (arrived to (λ r. r)))) (λ w k.
        write-Evolves (update_observed s captured (arrived to (λ r. r))) w
          (observed_AllFollow w s to captured (holds w k) edge))

  -- `_move` of an observation keeps what `Evolves` says.
  pub move_observed-Keeps :
      (s : Spec) (to : State) (captured : ℕ) → Holds Γ s → Keeps Γ (move_observed s to captured)
  unfolding move_observed
  move_observed-Keeps s to captured holds = Sound-bind (legal-Sound s.actual_state to) (λ u edge.
      Sound-next (observe_row-Keeps s to captured holds edge) (λ written.
        Sound-if written (λ e. Sound-bind (look-Sound s.runner_id) (λ r own. Keeps-pure (some r)))
          (λ e. Keeps-pure none)))
