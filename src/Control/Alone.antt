-- ===== src/Control/Alone.antt =====
-- When a recreate of a fleet begins (`_recreate_turn` of dashboard/control/reconciler.py).
use nomercy_github_runner.Prelude.{
  ℕ, ◌≡◌, refl, sym, ap, ◌∙◌, subst, &&_parts, Bool, true, false, not, Option, none, some, List, [],
  ◌∷◌, all, any, ◌&&◌, ◌||◌, ◌==◌, arith, inl, inr, Bool-cases, if◌then◌else◌,
}
use nomercy_github_runner.States.Names.{verb_eq, in_states, recreate}
use nomercy_github_runner.Specs.{Spec}
use nomercy_github_runner.Operations.Table.{Operation, op_eq, running}
use nomercy_github_runner.Reconciler.Decide.{serving}
use nomercy_github_runner.Control.World.{
  World, Action, Result, ok, raised, raise, pure, try_else, ◌>>=◌, ◌>>◌, Held,
}
use nomercy_github_runner.Control.Stores.{
  operation_of, siblings_of, siblings_in, open_of, defer_op, on_table,
}
use nomercy_github_runner.Control.Outside.{Outside}
use nomercy_github_runner.Control.Moves.{hold}
use nomercy_github_runner.Control.Turns.{
  is_pending, waits, asked_earlier, first_asked, is_first, add_recreate, unavailable,
  active_recreates, begin_recreate, recreate_turn, take_recreate_turn, refuse_recreate,
}

-- A test of the recreate of a runner, where it has one.
abbrev pub of_recreate : (Operation → Bool) → Option Operation → Bool
of_recreate p none = true
of_recreate p (some op) = not (verb_eq op.verb recreate) || p op

all_added :
    (p : Operation → Bool) (other : Option Operation) (acc : List Operation)
    → (all p (add_recreate other acc)) ≡ (of_recreate p other && all p acc)
all_added p none acc = refl
all_added p (some op) acc = ground arith

-- A deferral answers none.
deferred_none :
    (o : Outside) (s : Spec) (op : Operation) (why : Held) (act : List Operation) (r : Result ℕ)
    (w : World)
    → (let x : Result (Option (List Operation)) × World = elim r [
      | ok now ↦ (defer_op now op.operation_id >> hold s why >> pure none) w
      | raised e ↦ raise e w
    ] in
        x.0 ≡ ok (some act))
    → ⊥
unfolding defer_op on_table
deferred_none o s op why act (ok now) w h = cc h
deferred_none o s op why act (raised e) w h = cc h

swap_parts : (a b c : Bool) → (a && (b && c)) ≡ ((b && a) && c)
swap_parts a b c = ground arith

both_true : (a b : Bool) → a ≡ true → b ≡ true → (a && b) ≡ true
both_true a b e h = ground arith

abbrev active_in : Result (Option (List Operation)) → List Operation
active_in (ok (some act)) = act
active_in _ = []

module _ (o : Outside) (s : Spec) (op : Operation) where
  not_held :
      (held_back : Bool) (l : List Spec) (acc act : List Operation) (w : World)
      → ((if held_back
            then (do
              now ← o.now
              defer_op now op.operation_id
              hold s Held.sibling_unavailable
              pure none)
            else active_recreates o s op l acc)
          w).0
        ≡ ok (some act)
      → (held_back ≡ false) × ((active_recreates o s op l acc w).0 ≡ ok (some act))
  unfolding defer_op
  not_held true l acc act w h =
      absurd (deferred_none o s op Held.sibling_unavailable act (o.now w).0 (o.now w).1 h)
  not_held false l acc act w h = (refl, h)

  -- A loop that is not held back goes on with the recreate of the runner.
  goes_on :
      (x : Spec) (l : List Spec) (acc act : List Operation) (w : World)
      → (active_recreates o s op (x ∷ l) acc w).0 ≡ ok (some act)
      → (unavailable o s op (open_of w.table x) x ≡ false)
        × ((active_recreates o s op l (add_recreate (open_of w.table x) acc) w).0 ≡ ok (some act))
  unfolding active_recreates operation_of
  goes_on x l acc act w h =
      not_held (unavailable o s op (open_of w.table x) x) l (add_recreate (open_of w.table x) acc)
        act w h

  -- The recreates that the loop found pass a test that the siblings' pass, and the other way round.
  found_by_all :
      (p : Operation → Bool) (l : List Spec) (acc act : List Operation) (w : World)
      → (active_recreates o s op l acc w).0 ≡ ok (some act)
      → all p act ≡ (all (λ x. of_recreate p (open_of w.table x)) l && all p acc)
  unfolding active_recreates
  found_by_all p [] acc act w h = ap (λ r. all p (active_in r)) (sym h)
  found_by_all p (x ∷ l) acc act w h =
      let (e, rest) = goes_on x l acc act w h in
      found_by_all p l (add_recreate (open_of w.table x) acc) act w rest
      ∙ ap (λ y. all (λ z. of_recreate p (open_of w.table z)) l && y)
          (all_added p (open_of w.table x) acc)
      ∙ swap_parts (all (λ z. of_recreate p (open_of w.table z)) l)
          (of_recreate p (open_of w.table x)) (all p acc)

  all_available :
      (l : List Spec) (acc act : List Operation) (w : World)
      → (active_recreates o s op l acc w).0 ≡ ok (some act)
      → all (λ x. not (unavailable o s op (open_of w.table x) x)) l ≡ true
  all_available [] acc act w h = refl
  all_available (x ∷ l) acc act w h =
      let (e, rest) = goes_on x l acc act w h in
      both_true (not (unavailable o s op (open_of w.table x) x)) _ (ap not e)
        (all_available l (add_recreate (open_of w.table x) acc) act w rest)

first_of :
    (p : Operation → Bool) (a : Operation) (ops : List Operation)
    → all p (a ∷ ops) ≡ true
    → p (first_asked a ops) ≡ true
unfolding first_asked
first_of p a [] h = ground arith
first_of p a (b ∷ ops) h = elim (Bool-cases (asked_earlier b a)) [
  | inl e ↦ rw e (first_of p b ops (ground arith))
  | inr e ↦ rw e (first_of p a ops (ground arith))
]

abbrev is_other : Operation → Operation → Bool
is_other a b = not (b.operation_id == a.operation_id)

not_later :
    (t : Bool) (a b : Operation) (ops : List Operation)
    → all (is_other a) (b ∷ ops) ≡ true
    → ((first_asked (if t then b else a) ops).operation_id == a.operation_id) ≡ true
    → (t ≡ false) × (is_first a ops ≡ true)
not_later true a b ops h k = absurd (cc (first_of (is_other a) b ops h))
not_later false a b ops h k = (refl, k)

-- Where the first of all is the operation itself, none was asked earlier.
none_earlier :
    (a : Operation) (ops : List Operation)
    → all (is_other a) ops ≡ true
    → is_first a ops ≡ true
    → all (λ b. not (asked_earlier b a)) ops ≡ true
unfolding first_asked
none_earlier a [] h k = refl
none_earlier a (b ∷ ops) h k =
    let (e, rest) = not_later (asked_earlier b a) a b ops h k in
    both_true (not (asked_earlier b a)) _ (ap not e) (none_earlier a ops (ground arith) rest)

module _ (o : Outside) (s : Spec) (op : Operation) where
  deferred_false :
      (why : Held) (r : Result ℕ) (w : World)
      → (let x : Result Bool × World = elim r [
        | ok now ↦ (defer_op now op.operation_id >> hold s why >> pure false) w
        | raised e ↦ raise e w
      ] in
          x.0 ≡ ok true)
      → ⊥
  unfolding defer_op on_table
  deferred_false why (ok now) w h = cc h
  deferred_false why (raised e) w h = cc h

  -- A recreate that begins is the first, and none is running.
  begins :
      (running_one first : Bool) (m : Action Bool) (w : World)
      → ((if running_one
            then (do
              now ← o.now
              defer_op now op.operation_id
              hold s Held.replacement_in_progress
              pure false)
            else if not first
            then (hold s Held.recreate_queued >> pure false)
            else m)
          w).0
        ≡ ok true
      → (running_one ≡ false) × (first ≡ true)
  unfolding defer_op
  begins true first m w h =
      absurd (deferred_false Held.replacement_in_progress (o.now w).0 (o.now w).1 h)
  begins false false m w h = absurd (cc h)
  begins false true m w h = (refl, refl)

  turned :
      (r : Result (Option (List Operation))) (w : World)
      → is_pending op ≡ true
      → (let x : Result Bool × World = elim r [
        | ok found ↦ take_recreate_turn o s op found w
        | raised e ↦ raise e w
      ] in
          x.0 ≡ ok true)
      → (act : List Operation) × (r ≡ ok (some act))
        × (any (λ b. op_eq b.state running) act ≡ false)
        × (is_first op act ≡ true)
  turned (ok none) w p h = absurd (cc h)
  turned (ok (some act)) w p h =
      let (none_runs, first) =
        begins (any (λ b. op_eq b.state running) act) (is_first op act)
          (try_else (o.validate_replacement s) (λ u. pure true)
            (λ e. refuse_recreate o s op (o.text_of e)))
          w
          (subst
            (λ (b : Bool). ((if b then begin_recreate o s op act else pure true) w).0 ≡ ok true) p
            h) in
      (act, refl, none_runs, first)
  turned (raised e) w p h = absurd (cc h)

  no_one_out :
      (w : World) (l : List Spec)
      → is_pending op ≡ true
      → all (λ x. not (unavailable o s op (open_of w.table x) x)) l ≡ true
      → all (λ x. in_states x.actual_state serving || waits (open_of w.table x)) l ≡ true
  no_one_out w [] p h = refl
  no_one_out w (x ∷ l) p h =
      let (own, rest) = &&_parts _ _ h in
      both_true _ _
        (serves (in_states x.actual_state serving) (waits (open_of w.table x)) (is_pending op) p
          own)
        (no_one_out w l p rest)
    where
      serves : (a b c : Bool) → c ≡ true → not (not a && (not b && c)) ≡ true → (a || b) ≡ true
      serves a b c e f = ground arith

not-any :
    (p : Operation → Bool) (l : List Operation) → any p l ≡ false → all (λ b. not (p b)) l ≡ true
not-any p [] h = refl
not-any p (b ∷ l) h = ground (arith, not-any p l)

-- A recreate that was not begun begins only where every other runner of the fleet serves or waits
-- for its own recreate, none of their recreates is running, and none was asked for earlier; asked
-- is that no other runner points at the same operation.
pub recreate_turn_alone :
    (o : Outside) (s : Spec) (op : Operation) (w : World)
    → is_pending op ≡ true
    → all (λ x. of_recreate (is_other op) (open_of w.table x)) (siblings_in s w) ≡ true
    → (recreate_turn o s op w).0 ≡ ok true
    → (all (λ x. in_states x.actual_state serving || waits (open_of w.table x)) (siblings_in s w)
        ≡ true)
      × (all
            (λ x. of_recreate (λ b. not (op_eq b.state running)) (open_of w.table x))
            (siblings_in s w)
          ≡ true)
      × (all
            (λ x. of_recreate (λ b. not (asked_earlier b op)) (open_of w.table x))
            (siblings_in s w)
          ≡ true)
unfolding recreate_turn siblings_of
recreate_turn_alone o s op w p others h =
    let l = siblings_in s w in
    let r = active_recreates o s op l [] w in
    let (act, found, none_runs, first) = turned o s op r.0 r.1 p h in
    let by_all : (q : Operation → Bool)
        → all q act ≡ (all (λ x. of_recreate q (open_of w.table x)) l && true) =
      λ q. found_by_all o s op q l [] act w found in
    (
      no_one_out o s op w l p (all_available o s op l [] act w found),
      (&&_parts _ _ (
          sym (by_all (λ b. not (op_eq b.state running)))
          ∙ not-any (λ b. op_eq b.state running) act none_runs)).0,
      (&&_parts _ _ (
          sym (by_all (λ b. not (asked_earlier b op)))
          ∙ none_earlier op act (by_all (is_other op) ∙ both_true _ true others refl) first)).0,
    )
