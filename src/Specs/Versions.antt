-- ===== src/Specs/Versions.antt =====
-- Optimistic versions: of two writers that read one version, at most one writes.
use nomercy_github_runner.Prelude.{
  ℕ, ◌+◌, ◌≡◌, refl, Bool, true, false, not, Option, none, some, [], ◌∷◌, arith, find_first, ◌==◌,
  if◌then◌else◌, inl, inr, Bool-cases, Option-cases, ap, ◌∙◌, ==_iff, subst, &&_parts, not-true,
}
use nomercy_github_runner.States.Names.{state_eq}
use nomercy_github_runner.Specs.{
  Spec, Specs, is_runner, get_spec, version, raised, option_eq, seen_after, stale, update_where,
  at_version, bumped, update, update_observed, same_evidence, matches,
}

abbrev pub altered : (Spec → Bool) → (Spec → Spec) → Option Spec → Option Spec
altered test f none = none
altered test f (some s) = some (if test s then f s else s)

-- A statement that keeps identifiers is seen by a look at its own row and by no other.
pub find-update_where :
    (i j : ℕ) (test : Spec → Bool) (f : Spec → Spec) (specs : Specs)
    → ((s : Spec) → (f s).runner_id ≡ s.runner_id)
    → find_first (is_runner j) (update_where i test f specs) ≡ (
        if i == j
        then altered test f (find_first (is_runner j) specs)
        else find_first (is_runner j) specs)
find-update_where i j test f [] same = ground arith
find-update_where i j test f (s ∷ specs) same =
    ground (arith, find-update_where i j test f specs same, same s)

-- A change that keeps the identifier of its row.
abbrev pub KeepsId : (Spec → Spec) → Type 0
KeepsId change = (s : Spec) → (change s).runner_id ≡ s.runner_id

matches_at :
    (i v : ℕ) (o : Option Spec)
    → matches i (at_version v) o ≡ true
    → (s : Spec) × (o ≡ some s) × (s.spec_version ≡ v)
matches_at i v none h = cc
matches_at i v (some s) h = (s, refl, ground arith)

update_matched :
    (i v w : ℕ) (change : Spec → Spec) (specs specs' : Specs)
    → update i v change specs ≡ (version w, specs')
    → (matches i (at_version v) (get_spec i specs) ≡ true)
      × (w ≡ v + 1)
      × (specs' ≡ update_where i (at_version v) (bumped change) specs)
unfolding update
update_matched i v w change specs specs' h =
    elim (Bool-cases (matches i (at_version v) (get_spec i specs))) [
      | inl m ↦ (m, ground arith, ground arith)
      | inr m ↦ elim (Option-cases (get_spec i specs)) [
        | inl e ↦ absurd (ground arith)
        | inr (s, e) ↦ absurd (ground arith)
      ]
    ]

get-update_where :
    (i j v : ℕ) (change : Spec → Spec) (specs : Specs)
    → KeepsId change
    → get_spec j (update_where i (at_version v) (bumped change) specs) ≡ (
        if i == j
        then altered (at_version v) (bumped change) (get_spec j specs)
        else get_spec j specs)
unfolding get_spec
get-update_where i j v change specs same =
    find-update_where i j (at_version v) (bumped change) specs same

eq_self : (i : ℕ) → (i == i) ≡ true
eq_self i = ground arith

-- An update that is written was based on the row's version: the row then has the change at the
-- next version, and every other row is as it was.
pub update_written :
    (i j v w : ℕ) (change : Spec → Spec) (specs specs' : Specs)
    → KeepsId change
    → update i v change specs ≡ (version w, specs')
    → (s : Spec) × (get_spec i specs ≡ some s)
      × (s.spec_version ≡ v)
      × (w ≡ v + 1)
      × (get_spec j specs' ≡ (if i == j then some (bumped change s) else get_spec j specs))
update_written i j v w change specs specs' same h =
    let (m, next, after) = update_matched i v w change specs specs' h in
    let (s, found, at) = matches_at i v (get_spec i specs) m in
    (
      s,
      found,
      at,
      next,
      ap (get_spec j) after ∙ (elim (Bool-cases (i == j)) [
        | inl own ↦ rw own (
            let e : get_spec j specs ≡ some s =
              subst (λ k. get_spec k specs ≡ some s) ((==_iff i j).0 own) found in
            ground (arith, get-update_where i j v change specs same))
        | inr other ↦ rw other (ground (arith, get-update_where i j v change specs same))
      ]),
    )

-- Of two writers that read one version of a spec, the second is refused as stale once the first
-- has written: it is told the version that it expected and the one that the row has, and the
-- first one's change stays.
pub second_writer_is_stale :
    (i v w : ℕ) (change change' : Spec → Spec) (specs specs' : Specs)
    → KeepsId change
    → update i v change specs ≡ (version w, specs')
    → update i v change' specs' ≡ (raised (stale i v (v + 1)), specs')
unfolding update
second_writer_is_stale i v w change change' specs specs' same h =
    let (s, found, at, next, after) = update_written i i v w change specs specs' same h in
    ground (arith, after, eq_self i, found, at)

matches_evidence :
    (i captured : ℕ) (expected : Spec) (o : Option Spec)
    → matches i (same_evidence expected captured) o ≡ true
    → (s : Spec) × (o ≡ some s) × (same_evidence expected captured s ≡ true)
matches_evidence i captured expected none h = cc
matches_evidence i captured expected (some s) h = (s, refl, h)

-- The state, the forge's reading and the job event among the evidence.
evidence_parts :
    (expected : Spec) (captured : ℕ) (s : Spec)
    → same_evidence expected captured s ≡ true
    → (state_eq s.actual_state expected.actual_state ≡ true)
      × (seen_after s.forge_seen_at captured ≡ false)
      × (option_eq s.forge_event expected.forge_event ≡ true)
unfolding same_evidence
evidence_parts expected captured s h =
    let p1 = &&_parts (s.provider == expected.provider) _ h in
    let p2 = &&_parts (option_eq s.registration_id expected.registration_id) _ p1.1 in
    let p3 = &&_parts (option_eq s.registration_uuid expected.registration_uuid) _ p2.1 in
    let p4 = &&_parts (state_eq s.actual_state expected.actual_state) _ p3.1 in
    let p5 = &&_parts (not (seen_after s.forge_seen_at captured)) _ p4.1 in
    (p4.0, not-true _ p5.0, p5.1)

-- An observed transition that is committed found the row at the version that was read, in the
-- state that was read, with no newer reading of the forge and no other job event in between.
pub update_observed_fenced :
    (expected : Spec) (captured w : ℕ) (change : Spec → Spec) (specs specs' : Specs)
    → update_observed expected captured change specs ≡ (version w, specs')
    → (s : Spec) × (get_spec expected.runner_id specs ≡ some s)
      × (s.spec_version ≡ expected.spec_version)
      × (state_eq s.actual_state expected.actual_state ≡ true)
      × (seen_after s.forge_seen_at captured ≡ false)
      × (option_eq s.forge_event expected.forge_event ≡ true)
unfolding update_observed
update_observed_fenced expected captured w change specs specs' h =
    elim (Option-cases (get_spec expected.runner_id specs)) [
      | inl e ↦ absurd (ground arith)
      | inr (s, e) ↦
          let parts = evidence_parts expected captured s (ground arith) in
          (s, e, ground arith, parts.0, parts.1, parts.2)
    ]
