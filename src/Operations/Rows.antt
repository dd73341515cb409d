-- ===== src/Operations/Rows.antt =====
-- What a look finds after an UPDATE and after an INSERT.
use nomercy_github_runner.Prelude.{
  ℕ, ◌≡◌, refl, Bool, false, Option, none, some, List, [], ◌∷◌, ◌++◌, arith, any, find_first, ◌==◌,
  if◌then◌else◌,
}
use nomercy_github_runner.Operations.Table.{Operation, Table, clashes, get, has_id}
use nomercy_github_runner.Operations.Methods.{update_row, update_rows}

abbrev pub mapped : (Operation → Operation) → Option Operation → Option Operation
mapped f none = none
mapped f (some op) = some (f op)

-- An update that keeps identifiers is seen by a look at its own row and by no other.
pub find-update_rows :
    (i j : ℕ) (f : Operation → Operation) (rows : List Operation)
    → ((op : Operation) → (f op).operation_id ≡ op.operation_id)
    → find_first (has_id j) (update_rows i f rows)
      ≡ (if i == j then mapped f (find_first (has_id j) rows) else find_first (has_id j) rows)
find-update_rows i j f [] same = ground arith
find-update_rows i j f (op ∷ rows) same = ground (arith, find-update_rows i j f rows same, same op)

pub get-update_row :
    (i j : ℕ) (f : Operation → Operation) (t : Table)
    → ((op : Operation) → (f op).operation_id ≡ op.operation_id)
    → get j (update_row i f t) ≡ (if i == j then mapped f (get j t) else get j t)
unfolding get
get-update_row i j f t same = find-update_rows i j f t.rows same

-- What a look finds has the identifier that was looked for.
pub find_has_id :
    (i : ℕ) (rows : List Operation) {op : Operation}
    → find_first (has_id i) rows ≡ some op
    → op.operation_id ≡ i
find_has_id i [] h = cc
find_has_id i (o ∷ rows) {op} h = ground (arith, find_has_id i rows {op = op})

pub find-append :
    (p : Operation → Bool) (rows : List Operation) (op : Operation)
    → find_first p (rows ++ op ∷ [])
      ≡ (elim (find_first p rows) [ some o ↦ some o | none ↦ if p op then some op else none ])
find-append p [] op = ground arith
find-append p (o ∷ rows) op = ground (arith, find-append p rows op)

-- A row that clashes with none has an identifier that no row has.
pub new_id_absent :
    (op : Operation) (rows : List Operation)
    → any (clashes op) rows ≡ false
    → find_first (has_id op.operation_id) rows ≡ none
new_id_absent op [] h = refl
new_id_absent op (o ∷ rows) h = ground (arith, new_id_absent op rows)
