-- ===== src/Control/Answers.antt =====
-- How `act` answers (dashboard/control/service.py).
use nomercy_github_runner.Prelude.{
  ℕ, ◌≡◌, refl, ap, Bool, true, false, not, Option, none, some, ◌∷◌, ◌&&◌, arith, if◌then◌else◌,
  ◌∙◌,
}
use nomercy_github_runner.States.Names.{Verb, in_verbs, verb_eq}
use nomercy_github_runner.States.Edges.{aborts_a_job}
use nomercy_github_runner.States.Asking.{Checked, reads, fleet_verbs, allows}
use nomercy_github_runner.Specs.{Spec, get_spec, update, matches, at_version}
use nomercy_github_runner.Operations.Table.{Operation, Table, by_key, get, is_closed}
use nomercy_github_runner.Operations.Open.{Opened, Request, open_op, opened}
use nomercy_github_runner.Operations.Keys.{open_op-by_key}
use nomercy_github_runner.Control.World.{◌>>◌, World, Refusal, refused, raised, ok, ◌>>◌}
use nomercy_github_runner.Control.Stores.{operation_of, update_row, rewritten, open_row}
use nomercy_github_runner.Control.Outside.{Outside}
use nomercy_github_runner.Control.Request.{
  schedule, is_verb, drains_first, find_repeat, admit, act_on, act, request, asked_for,
}

-- A verb that `act` takes.
abbrev pub is_askable : Verb → Bool
is_askable v = is_verb v && (not (in_verbs v reads) && not (in_verbs v fleet_verbs))

-- The operation that a key opened before.
abbrev pub found_by : Option ℕ → Table → Option Operation
found_by none t = none
found_by (some key) t = by_key key t

-- Whether an operation of the runner is open.
abbrev pub is_in_flight : Spec → Table → Bool
is_in_flight s t = elim s.current_operation [
  | none ↦ false
  | some i ↦ elim (get i t) [ none ↦ false | some op ↦ not (is_closed op.state) ]
]

-- Why a runner cannot be asked for a verb, where the machine allows it or not.
abbrev pub why_refused : Spec → Verb → Bool → Table → Option Refusal
why_refused s v possible t =
    if aborts_a_job v s.actual_state
    then some Refusal.would_abort
    else if not possible && not (drains_first s v)
    then some Refusal.not_possible
    else if is_in_flight s t
    then some Refusal.in_flight
    else none

abbrev pub with_audit : Verb → ℕ → Bool → World → World
with_audit v i accepted w = record w {
  audit = record { verb = v; runner_id = i; accepted = accepted } ∷ w.audit;
}

-- The tests before the runner is looked at.
past_verb :
    (o : Outside) (w : World) (i : ℕ) (v : Verb) (key : Option ℕ) (s : Spec)
    → is_askable v ≡ true
    → get_spec i w.specs ≡ some s
    → found_by key w.table ≡ none
    → act_on o i v key w ≡ (admit s v >> schedule o s v key) w
unfolding act_on find_repeat
past_verb o w i v none s askable found unused = ground arith
past_verb o w i v (some key) s askable found unused = ground arith

-- The tests on the runner's state.
admit_refused :
    (w : World) (s : Spec) (v : Verb) (possible : Bool) (why : Refusal)
    → allows v (some s.actual_state) ≡ Checked.ok possible
    → why_refused s v possible w.table ≡ some why
    → admit s v w ≡ (raised (refused why), w)
unfolding admit operation_of
admit_refused w s v possible why allowed h = ground arith

audited :
    (o : Outside) (w : World) (i : ℕ) (v : Verb) (key : Option ℕ) (why : Refusal)
    → act_on o i v key w ≡ (raised (refused why), w)
    → act o i v key w ≡ (raised (refused why), with_audit v i false w)
unfolding act
audited o w i v key why h = ground arith

stopped :
    (o : Outside) (w : World) (s : Spec) (v : Verb) (key : Option ℕ) (why : Refusal)
    → admit s v w ≡ (raised (refused why), w)
    → (admit s v >> schedule o s v key) w ≡ (raised (refused why), w)
stopped o w s v key why h = ground arith

-- A request for a verb that can be asked for, of a runner that exists and with a key not used
-- before, is refused for the first reason that holds: that it would end a job, that the machine
-- does not allow it, that an operation is open. A refused request writes no row and opens no
-- operation: only the audit says that it was there.
pub act_refused :
    (o : Outside) (w : World) (i : ℕ) (v : Verb) (key : Option ℕ) (s : Spec) (possible : Bool)
    (why : Refusal)
    → is_askable v ≡ true
    → get_spec i w.specs ≡ some s
    → found_by key w.table ≡ none
    → allows v (some s.actual_state) ≡ Checked.ok possible
    → why_refused s v possible w.table ≡ some why
    → act o i v key w ≡ (raised (refused why), with_audit v i false w)
act_refused o w i v key s possible why askable found unused allowed h = audited o w i v key why (
    past_verb o w i v key s askable found unused
    ∙ stopped o w s v key why (admit_refused w s v possible why allowed h))

-- The operation that `open` creates is the request's.
opened-eq :
    (new_id now : ℕ) (r : Request) (t t' : Table) (op : Operation)
    → open_op (λ x. x) new_id now r t ≡ (Opened.operation op true, t')
    → op ≡ opened new_id now r
unfolding open_op
opened-eq new_id now r t t' op h = ground arith

-- A row that has its version takes the write.
update_row-ok :
    (i v : ℕ) (change : Spec → Spec) (w : World) (s : Spec)
    → get_spec i w.specs ≡ some s
    → s.spec_version ≡ v
    → update_row i v change w ≡ (ok true, rewritten (update i v change w.specs).1 w)
unfolding update_row update
update_row-ok i v change w s found at =
    let test : matches i (at_version v) (get_spec i w.specs) ≡ true = rw found (ground arith) in
    rw test refl

scheduled :
    (o : Outside) (w : World) (s : Spec) (v : Verb) (key new_id now : ℕ) (op : Operation)
    (t : Table)
    → verb_eq v Verb.recreate ≡ false
    → o.new_id w ≡ (ok new_id, w)
    → o.now w ≡ (ok now, w)
    → open_op (λ x. x) new_id now (request v s.runner_id (some key)) w.table
      ≡ (Opened.operation op true, t)
    → get_spec s.runner_id w.specs ≡ some s
    → schedule o s v (some key) w ≡ (
      ok op.operation_id,
      rewritten
          (update s.runner_id s.spec_version (asked_for v op.operation_id) w.specs).1
          (record w { table = t }),
    )
unfolding schedule open_row
scheduled o w s v key new_id now op t other minted clock opens found = ground (
  arith,
  update_row-ok s.runner_id s.spec_version (asked_for v op.operation_id) (record w { table = t }) s
      found refl,
)

repeat_answered :
    (o : Outside) (w : World) (i : ℕ) (v : Verb) (key : ℕ) (s : Spec) (op : Operation)
    → is_askable v ≡ true
    → get_spec i w.specs ≡ some s
    → by_key key w.table ≡ some op
    → op.verb ≡ v
    → op.runner_id ≡ some i
    → act o i v (some key) w ≡ (ok op.operation_id, with_audit v i true w)
unfolding act act_on find_repeat
repeat_answered o w i v key s op askable found at verb runner = ground arith

admitted_then :
    (o : Outside) (w w' : World) (s : Spec) (v : Verb) (key : Option ℕ) (id : ℕ)
    → admit s v w ≡ (ok tt, w)
    → schedule o s v key w ≡ (ok id, w')
    → (admit s v >> schedule o s v key) w ≡ (ok id, w')
admitted_then o w w' s v key id h done = ground arith

answered :
    (o : Outside) (w w' : World) (i : ℕ) (v : Verb) (key : Option ℕ) (id : ℕ)
    → act_on o i v key w ≡ (ok id, w')
    → act o i v key w ≡ (ok id, with_audit v i true w')
unfolding act
answered o w w' i v key id h = ground arith

first_answered :
    (o : Outside) (w w' : World) (i : ℕ) (v : Verb) (key id : ℕ) (s : Spec)
    → is_askable v ≡ true
    → get_spec i w.specs ≡ some s
    → by_key key w.table ≡ none
    → admit s v w ≡ (ok tt, w)
    → schedule o s v (some key) w ≡ (ok id, w')
    → act o i v (some key) w ≡ (ok id, with_audit v i true w')
first_answered o w w' i v key id s askable found unused admitted done =
    answered o w w' i v (some key) id (
      past_verb o w i v (some key) s askable found unused
      ∙ admitted_then o w w' s v (some key) id admitted done)

-- A request for a verb but recreate, with a key not used before, that passes the tests on the
-- runner and whose operation is opened: the row is written with that operation, the audit has the
-- request as accepted, and the answer is the operation. The same request with the same key, in
-- whatever world has the operations as the first one left them, whatever became of the runner and
-- of anything else meanwhile, is answered with the same operation: it opens none and writes no row,
-- and only the audit has it.
pub act_repeated :
    (o : Outside) (w u : World) (v : Verb) (key new_id now : ℕ) (s r : Spec) (op : Operation)
    (t : Table)
    → is_askable v ≡ true
    → verb_eq v Verb.recreate ≡ false
    → get_spec s.runner_id w.specs ≡ some s
    → by_key key w.table ≡ none
    → admit s v w ≡ (ok tt, w)
    → o.new_id w ≡ (ok new_id, w)
    → o.now w ≡ (ok now, w)
    → open_op (λ x. x) new_id now (request v s.runner_id (some key)) w.table
      ≡ (Opened.operation op true, t)
    → get_spec s.runner_id u.specs ≡ some r
    → u.table ≡ t
    → (act o s.runner_id v (some key) w ≡ (
      ok op.operation_id,
      with_audit v s.runner_id true (
          rewritten
            (update s.runner_id s.spec_version (asked_for v op.operation_id) w.specs).1
            (record w { table = t })),
    ))
      × (act o s.runner_id v (some key) u ≡ (ok op.operation_id, with_audit v s.runner_id true u))
act_repeated o w u v key new_id now s r op t askable other found unused admitted minted clock opens
      there same =
    let asked = request v s.runner_id (some key) in
    let own : op ≡ opened new_id now asked = opened-eq new_id now asked w.table t op opens in
    let at : by_key key u.table ≡ some op =
      ap (by_key key) same
      ∙ open_op-by_key (λ x. x) new_id now key asked w.table t op true refl opens in
    (
      first_answered o w _ s.runner_id v key op.operation_id s askable found unused admitted
          (scheduled o w s v key new_id now op t other minted clock opens found),
      repeat_answered o u s.runner_id v key r op askable there at
          (ap (λ (x : Operation). x.verb) own) (ap (λ (x : Operation). x.runner_id) own),
    )
