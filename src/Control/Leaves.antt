-- ===== src/Control/Leaves.antt =====
-- `Evolves` for the calls of the stores.
use nomercy_github_runner.Prelude.{
  ℕ, ◌≡◌, refl, sym, subst, Bool, true, false, Option, none, some, List, [], ◌∷◌, arith, inl, inr,
  Bool-cases, ◌==◌, ==_iff, if◌then◌else◌, Option-cases,
}
use nomercy_github_runner.States.Names.{Verb, state_eq}
use nomercy_github_runner.States.Edges.{aborts_a_job}
use nomercy_github_runner.Specs.{
  Spec, Specs, Written, get_spec, is_runner, update, soft_delete, update_where, at_version, bumped,
  matches, may_delete, deleted,
}
use nomercy_github_runner.Specs.Versions.{find-update_where, KeepsId}
use nomercy_github_runner.Operations.Table.{Table, Note, Progress, default_deadline_seconds}
use nomercy_github_runner.Operations.Open.{Request, Opened, open_op}
use nomercy_github_runner.Operations.Methods.{defer, merge_progress}
use nomercy_github_runner.Control.World.{
  World, Action, Result, ok, raised, Line, gets, report_line, record_call, or_raise, no_row, Moved,
}
use nomercy_github_runner.Control.Stores.{
  look, update_row, delete_row, on_table, attempt_op, succeed_op, fail_op, defer_op, merge_op,
  open_row, write, after_write, put_table, opened_as, rewritten, moves_at,
}
use nomercy_github_runner.Control.Evolves.{
  Evolves, Follows-self, Evolves-self, near_self, ids, Takes, Takes-self, AllMoves,
}
use nomercy_github_runner.Control.Rules.{Sound, Keeps, Knows, After, nothing, AnyResult}

pub get_spec-id : (i : ℕ) (specs : Specs) (s : Spec) → get_spec i specs ≡ some s → s.runner_id ≡ i
unfolding get_spec
get_spec-id i [] s h = cc
get_spec-id i (r ∷ specs) s h = elim (Bool-cases (is_runner i r)) [
  | inl e ↦ ground (arith, (==_iff r.runner_id i).0 e)
  | inr e ↦ get_spec-id i specs s (ground arith)
]

-- A change of other columns than the state and the identifier.
abbrev pub KeepsState : (Spec → Spec) → Type 0
KeepsState change =
    (s : Spec) → ((change s).runner_id ≡ s.runner_id) × ((change s).actual_state ≡ s.actual_state)

-- Rows that follow the rows of other specs, in a world that has no other calls.
abbrev pub RowsFollow : Specs → Specs → Type 0
RowsFollow specs specs' =
    (i : ℕ) (s : Spec)
    → get_spec i specs ≡ some s
    → (s' : Spec) × (get_spec i specs' ≡ some s') × Takes s s'

-- The same keys, and rows that follow.
abbrev pub AllFollow : Specs → Specs → Type 0
AllFollow specs specs' = (ids specs' ≡ ids specs) × RowsFollow specs specs'

ids-update_where :
    (i : ℕ) (test : Spec → Bool) (f : Spec → Spec) (specs : Specs)
    → KeepsId f
    → ids (update_where i test f specs) ≡ ids specs
ids-update_where i test f [] same = refl
ids-update_where i test f (s ∷ specs) same =
    ground (arith, ids-update_where i test f specs same, same s)

rows_update :
    (i : ℕ) (test : Spec → Bool) (f : Spec → Spec) (specs : Specs)
    → KeepsId f
    → ((s : Spec) → get_spec i specs ≡ some s → test s ≡ true → Takes s (f s))
    → RowsFollow specs (update_where i test f specs)
unfolding get_spec
rows_update i test f specs same step j s h =
    let looked = find-update_where i j test f specs same in
    elim (Bool-cases (i == j)) [
      | inr other ↦ (s, rw looked (rw other h), Takes-self s)
      | inl own ↦
          let at : i ≡ j = (==_iff i j).0 own in
          elim (Bool-cases (test s)) [
            | inr fails ↦ (s, rw looked (rw own (rw h (rw fails refl))), Takes-self s)
            | inl holds ↦ (
              f s,
              rw looked (rw own (rw h (rw holds refl))),
              step s (subst (λ k. get_spec k specs ≡ some s) (sym at) h) holds,
            )
          ]
    ]

pub follow_update :
    (i : ℕ) (test : Spec → Bool) (f : Spec → Spec) (specs : Specs)
    → KeepsId f
    → ((s : Spec) → get_spec i specs ≡ some s → test s ≡ true → Takes s (f s))
    → AllFollow specs (update_where i test f specs)
follow_update i test f specs same step =
    (ids-update_where i test f specs same, rows_update i test f specs same step)

-- The row at a version takes the next one.
follow_bumped :
    (change : Spec → Spec) (s : Spec)
    → ((change s).actual_state ≡ s.actual_state)
    → Takes s (bumped change s)
follow_bumped change s e =
    (record { version = omega arith; unbumped = λ h. absurd (omega arith) }, rw e (ground arith))

-- The states that a statement changed each took one edge.
AllMoves-later :
    (before after : Specs) (l : List ℕ) (rest : List Moved)
    → RowsFollow before after
    → AllMoves rest
    → AllMoves (moves_at before after l rest)
AllMoves-later before after [] rest h m = m
AllMoves-later before after (i ∷ l) rest h m =
    let later = AllMoves-later before after l rest h m in
    elim (Option-cases (get_spec i before)) [
      | inl e ↦ rw e later
      | inr (s, e) ↦
          let (t, found, takes) = h i s e in
          rw (e, found)
            (elim (Bool-cases (state_eq s.actual_state t.actual_state)) [
              | inl same ↦ rw same later
              | inr differs ↦ rw differs (ground (arith, takes.1, differs), later)
            ])
    ]

pub specs_Evolves :
    (w : World) (specs : Specs) → AllFollow w.specs specs → Evolves w (rewritten specs w)
specs_Evolves w specs h = record {
  rows = λ i s e. let (t, found, takes) = h.1 i s e in (t, found, takes.0);
  safe = λ a. a;
  moves = λ m. AllMoves-later w.specs specs (ids w.specs) w.moves h.1 m;
  keys = λ d. rw h.0 d;
}

pub AllFollow-self : (specs : Specs) → AllFollow specs specs
AllFollow-self specs = (refl, λ i s h. (s, h, Takes-self s))

written_world : (r : Written) (w : World) → (after_write r w).1 ≡ w
written_world (Written.raised e) w = refl
written_world _ w = refl

-- A write keeps what its statement keeps, also one that is refused.
pub write-Evolves :
    (f : Specs → Written × Specs) (w : World)
    → AllFollow w.specs (f w.specs).1
    → Evolves w (write f w).1
write-Evolves f w h =
    subst (λ v. Evolves w v) (sym (written_world (f w.specs).0 (rewritten (f w.specs).1 w)))
      (specs_Evolves w (f w.specs).1 h)

pub AllFollow-if :
    (b : Bool) (r q : Written) (specs specs' : Specs)
    → (b ≡ true → AllFollow specs specs')
    → AllFollow specs (if◌then◌else◌ {A = Written × Specs} b (r, specs') (q, specs)).1
AllFollow-if true r q specs specs' h = h refl
AllFollow-if false r q specs specs' h = AllFollow-self specs

pub update-AllFollow :
    (i v : ℕ) (change : Spec → Spec) (specs : Specs)
    → KeepsState change
    → AllFollow specs (update i v change specs).1
unfolding update
update-AllFollow i v change specs keeps =
    AllFollow-if (matches i (at_version v) (get_spec i specs)) _ _ specs _ (λ m.
      follow_update i (at_version v) (bumped change) specs (λ s. (keeps s).0)
        (λ s found at. follow_bumped change s (keeps s).1))

delete-AllFollow : (now i : ℕ) (specs : Specs) → AllFollow specs (soft_delete now i none specs).1
unfolding soft_delete
delete-AllFollow now i specs =
    AllFollow-if (matches i (may_delete none) (get_spec i specs)) _ _ specs _ (λ m.
      follow_update i (may_delete none) (bumped (deleted now)) specs (λ s. refl)
        (λ s found at. follow_bumped (deleted now) s refl))

opened_world : (o : Opened) (w : World) → (opened_as o w).1 ≡ w
opened_world (Opened.operation op created) w = refl
opened_world Opened.integrity_error w = refl

module _ {Γ : List Spec} where
  -- An action that writes and whose result says nothing.
  pub action-Keeps :
      {A : Type 0} (m : Action A) → ((w : World) → Knows w Γ → Evolves w (m w).1) → Keeps Γ m
  action-Keeps m h = record { runs = λ w k. (h w k, says_nothing (m w).0 (m w).1) }
    where
      says_nothing : {A : Type 0} (r : Result A) (w : World) → After nothing AnyResult w r
      says_nothing (ok a) w = (tt, tt)
      says_nothing (raised e) w = tt

  pub update_row-Keeps :
      (i v : ℕ) (change : Spec → Spec) → KeepsState change → Keeps Γ (update_row i v change)
  unfolding update_row
  update_row-Keeps i v change keeps =
      action-Keeps (write (update i v change))
        (λ w k. write-Evolves (update i v change) w (update-AllFollow i v change w.specs keeps))

  pub delete_row-Keeps : (now i : ℕ) → Keeps Γ (delete_row now i)
  unfolding delete_row
  delete_row-Keeps now i =
      action-Keeps (write (soft_delete now i none))
        (λ w k. write-Evolves (soft_delete now i none) w (delete-AllFollow now i w.specs))

  -- A look brings a spec that is known.
  pub look-Sound : (i : ℕ) → Sound Γ (look i) (λ s. s ∷ []) (λ s. s.runner_id ≡ i)
  unfolding look
  look-Sound i = record { runs = λ w k. looked w (get_spec i w.specs) refl }
    where
      looked :
          (w : World) (found : Option Spec)
          → get_spec i w.specs ≡ found
          → (let o : Result Spec × World = or_raise no_row found w in
              Evolves w o.1 × After (λ s. s ∷ []) (λ s. s.runner_id ≡ i) o.1 o.0)
      looked w none e = (Evolves-self w, tt)
      looked w (some s) e =
          let own = get_spec-id i w.specs s e in
          (
            Evolves-self w,
            (
              (
                record {
                  row = s;
                  found = subst (λ j. get_spec j w.specs ≡ some s) (sym own) e;
                  version = omega arith;
                  unbumped = λ h. near_self s.actual_state;
                },
                tt,
              ),
              own,
            ),
          )

  -- Changes of the table alone, of the report and of the audit.
  pub on_table-Keeps : (f : Table → Option Table) → Keeps Γ (on_table f)
  unfolding on_table
  on_table-Keeps f = action-Keeps (on_table f) (λ w k. put_Evolves w (f w.table))
    where
      put_Evolves : (w : World) (t : Option Table) → Evolves w (put_table t w).1
      put_Evolves w none = Evolves-self w
      put_Evolves w (some t) = record {
        rows = λ i s e. (s, e, Follows-self s);
        safe = λ a. a;
        moves = λ m. m;
        keys = λ d. d;
      }

  pub attempt_op-Keeps : (now i : ℕ) (note : Note) → Keeps Γ (attempt_op now i note)
  unfolding attempt_op
  attempt_op-Keeps now i note = on_table-Keeps _

  pub succeed_op-Keeps : (now i : ℕ) (r : Option ℕ) → Keeps Γ (succeed_op now i r)
  unfolding succeed_op
  succeed_op-Keeps now i r = on_table-Keeps _

  pub fail_op-Keeps : (now i e : ℕ) → Keeps Γ (fail_op now i e)
  unfolding fail_op
  fail_op-Keeps now i e = on_table-Keeps _

  pub defer_op-Keeps : (now i : ℕ) → Keeps Γ (defer_op now i)
  unfolding defer_op
  defer_op-Keeps now i = on_table-Keeps (λ t. some (defer now i default_deadline_seconds t))

  pub merge_op-Keeps : (i : ℕ) (f : Progress → Progress) → Keeps Γ (merge_op i f)
  unfolding merge_op
  merge_op-Keeps i f = on_table-Keeps (λ t. some (merge_progress i f t))

  pub open_row-Keeps : (new_id now : ℕ) (r : Request) → Keeps Γ (open_row new_id now r)
  unfolding open_row
  open_row-Keeps new_id now r = action-Keeps (open_row new_id now r) (λ w k.
      let (opened, t) = open_op (λ (u : Table). u) new_id now r w.table in
      subst (λ v. Evolves w v) (sym (opened_world opened (record w { table = t })))
        (record {
          rows = λ i s e. (s, e, Follows-self s);
          safe = λ a. a;
          moves = λ m. m;
          keys = λ d. d;
        }))

  pub gets-Keeps : {A : Type 0} (f : World → A) → Keeps Γ (gets f)
  gets-Keeps f = record { runs = λ w k. (Evolves-self w, (tt, tt)) }

  pub report-Keeps : (l : Line) → Keeps Γ (report_line l)
  report-Keeps l = record {
    runs = λ w k. (
      record {
        rows = λ i s e. (s, e, Follows-self s);
        safe = λ a. a;
        moves = λ m. m;
        keys = λ d. d;
      },
      (tt, tt),
    );
  }

  -- A call is recorded of a step that does not end the work of a runner at work.
  pub record_call-Keeps :
      (v : Verb) (s : Spec) → aborts_a_job v s.actual_state ≡ false → Keeps Γ (record_call v s)
  record_call-Keeps v s safe = record {
    runs = λ w k. (
      record {
        rows = λ i r e. (r, e, Follows-self r);
        safe = λ a. (safe, a);
        moves = λ m. m;
        keys = λ d. d;
      },
      (tt, tt),
    );
  }
