-- ===== src/Operations/Keys.antt =====
-- Idempotency: a key has one operation, whoever asks and whatever happens in between.
use nomercy_github_runner.Prelude.{
  ℕ, ◌≤◌, ◌≡◌, refl, Bool, true, false, none, some, List, [], ◌∷◌, arith, any, find_first, ◌==◌,
  inl, inr, Option-cases, count_if, count_if-append,
}
use nomercy_github_runner.Operations.Table.{Operation, Table, by_key, clashes, has_key, insert}
use nomercy_github_runner.Operations.Open.{Request, open_op, opened, operation}
use nomercy_github_runner.Operations.Methods.{update_rows}
use nomercy_github_runner.Operations.Actions.{or_same}
use nomercy_github_runner.Operations.Rows.{find-append}

-- No two rows have one key.
abbrev pub HasUniqueKeys : Table → Type 0
HasUniqueKeys t = (k : ℕ) → count_if (has_key k) t.rows ≤ 1

count-update_rows :
    (k i : ℕ) (f : Operation → Operation) (rows : List Operation)
    → ((op : Operation) → (f op).idempotency_key ≡ op.idempotency_key)
    → count_if (has_key k) (update_rows i f rows) ≡ count_if (has_key k) rows
count-update_rows k i f [] same = refl
count-update_rows k i f (op ∷ rows) same =
    ground (arith, count-update_rows k i f rows same, same op)

no_clash_no_key :
    (op : Operation) (k : ℕ) (rows : List Operation)
    → any (clashes op) rows ≡ false
    → has_key k op ≡ true
    → count_if (has_key k) rows ≡ 0
no_clash_no_key op k [] h e = refl
no_clash_no_key op k (o ∷ rows) h e = ground (arith, no_clash_no_key op k rows)

insert-HasUniqueKeys :
    (op : Operation) (t : Table) → HasUniqueKeys t → HasUniqueKeys (or_same t (insert op t))
unfolding insert
insert-HasUniqueKeys op t h k =
    ground (arith, h k, no_clash_no_key op k t.rows, count_if-append (has_key k) t.rows (op ∷ []))

-- `open` keeps the keys unique, if what others do meanwhile does.
pub open_op-HasUniqueKeys :
    (others : Table → Table) (new_id now : ℕ) (r : Request) (t : Table)
    → HasUniqueKeys t
    → HasUniqueKeys (others t)
    → HasUniqueKeys (open_op others new_id now r t).1
unfolding open_op
open_op-HasUniqueKeys others new_id now r t h g k =
    ground (arith, h k, g k, insert-HasUniqueKeys (opened new_id now r) (others t) g k)

found_by_key :
    (k : ℕ) (op : Operation) (rows : List Operation)
    → any (clashes op) rows ≡ false
    → has_key k op ≡ true
    → find_first (has_key k) rows ≡ none
found_by_key k op [] h e = refl
found_by_key k op (o ∷ rows) h e = ground (arith, found_by_key k op rows)

inserted_by_key :
    (k : ℕ) (op : Operation) (t t' : Table)
    → insert op t ≡ some t'
    → has_key k op ≡ true
    → by_key k t' ≡ some op
unfolding insert by_key
inserted_by_key k op t t' h e =
    ground (arith, found_by_key k op t.rows, find-append (has_key k) t.rows op)

key_self : (k : ℕ) → (k == k) ≡ true
key_self k = ground arith

-- What `open` returns for a key is what the table then has under that key.
pub open_op-by_key :
    (others : Table → Table) (new_id now k : ℕ) (r : Request) (t t' : Table) (op : Operation)
    (created : Bool)
    → r.key ≡ some k
    → open_op others new_id now r t ≡ (operation op created, t')
    → by_key k t' ≡ some op
unfolding open_op
open_op-by_key others new_id now k r t t' op created e h =
    elim (Option-cases (insert (opened new_id now r) (others t))) [
      | inl nothing ↦ ground arith
      | inr (t'', i) ↦ ground (
        arith,
        inserted_by_key k (opened new_id now r) (others t) t'' i (ground (arith, key_self k)),
      )
    ]

-- A caller that did not hear the answer and asks again with its key gets the operation that the
-- first call returned, created or not; nothing is written, whatever the repeat says and whatever
-- others did between its look and its write.
pub open_again :
    (others others' : Table → Table) (new_id new_id' now later k : ℕ) (r r' : Request)
    (t t' : Table) (op : Operation) (created : Bool)
    → r.key ≡ some k
    → r'.key ≡ some k
    → open_op others new_id now r t ≡ (operation op created, t')
    → open_op others' new_id' later r' t' ≡ (operation op false, t')
unfolding open_op
open_again others others' new_id new_id' now later k r r' t t' op created e e' h =
    ground (arith, open_op-by_key others new_id now k r t t' op created e h)
