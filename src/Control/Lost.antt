-- ===== src/Control/Lost.antt =====
-- A request that comes after the row was read and before another writer's version is written.
use nomercy_github_runner.Prelude.{
  ℕ, ◌≡◌, refl, ap, Bool, true, false, some, List, [], ◌∷◌, map, ◌==◌, arith, inl, inr,
  Option-cases,
}
use nomercy_github_runner.States.Names.{Verb, State, verb_eq, state_eq}
use nomercy_github_runner.Specs.{Spec, Specs, SpecError, Written, get_spec, update}
use nomercy_github_runner.Operations.Table.{Operation, Table, by_key}
use nomercy_github_runner.Operations.Open.{Opened, open_op}
use nomercy_github_runner.Operations.Keys.{open_op-by_key}
use nomercy_github_runner.Control.World.{World, Moved, Result, of_spec, raised, ok}
use nomercy_github_runner.Control.Stores.{open_row, update_row, moves_at}
use nomercy_github_runner.Control.Outside.{Outside}
use nomercy_github_runner.Control.Request.{request, schedule, asked_for}

state_eq_self : (a : State) → state_eq a a ≡ true
state_eq_self a = ground arith

-- A statement that changes no row adds nothing to the record of moves.
moves_at_self :
    (specs : Specs) (l : List ℕ) (rest : List Moved) → moves_at specs specs l rest ≡ rest
moves_at_self specs [] rest = refl
moves_at_self specs (i ∷ l) rest = elim (Option-cases (get_spec i specs)) [
  | inl e ↦ rw e (moves_at_self specs l rest)
  | inr (s, e) ↦ rw (e, state_eq_self s.actual_state) (moves_at_self specs l rest)
]

update-stale :
    (i v : ℕ) (change : Spec → Spec) (specs : Specs) (r : Spec)
    → get_spec i specs ≡ some r
    → (r.spec_version == v) ≡ false
    → update i v change specs ≡ (Written.raised (SpecError.stale i v r.spec_version), specs)
unfolding update
update-stale i v change specs r found moved = ground arith

abbrev refused_with : ℕ → ℕ → ℕ → World → List Moved → Result Bool × World
refused_with i v at w m = (raised (of_spec (SpecError.stale i v at)), record w { moves = m })

update_row-stale :
    (i v : ℕ) (change : Spec → Spec) (w : World) (r : Spec)
    → get_spec i w.specs ≡ some r
    → (r.spec_version == v) ≡ false
    → update_row i v change w ≡ (raised (of_spec (SpecError.stale i v r.spec_version)), w)
unfolding update_row
update_row-stale i v change w r found moved =
    let log : moves_at w.specs w.specs (map (λ (s : Spec). s.runner_id) w.specs) w.moves ≡ w.moves =
      moves_at_self w.specs (map (λ (s : Spec). s.runner_id) w.specs) w.moves in
    rw (update-stale i v change w.specs r found moved) (ap (refused_with i v r.spec_version w) log)

-- A request for any verb but recreate that is scheduled from a row that has another version
-- meanwhile raises StaleSpec and writes no row, but the operation that it opened stays: the same key
-- then finds that operation, for which no row was written.
pub schedule_stale :
    (o : Outside) (w : World) (s r : Spec) (v : Verb) (key new_id now : ℕ) (op : Operation)
    (t : Table)
    → verb_eq v Verb.recreate ≡ false
    → o.new_id w ≡ (ok new_id, w)
    → o.now w ≡ (ok now, w)
    → open_op (λ x. x) new_id now (request v s.runner_id (some key)) w.table
      ≡ (Opened.operation op true, t)
    → get_spec s.runner_id w.specs ≡ some r
    → (r.spec_version == s.spec_version) ≡ false
    → (schedule o s v (some key) w ≡ (
      raised (of_spec (SpecError.stale s.runner_id s.spec_version r.spec_version)),
      record w { table = t },
    ))
      × (by_key key t ≡ some op)
unfolding schedule open_row
schedule_stale o w s r v key new_id now op t other minted clock opens found moved = (
  ground (
    arith,
    update_row-stale s.runner_id s.spec_version (asked_for v op.operation_id)
        (record w { table = t }) r found moved,
  ),
  open_op-by_key (λ x. x) new_id now key (request v s.runner_id (some key)) w.table t op true refl
      opens,
)
