-- ===== src/JobEvents/Pages.antt =====
-- Reading the events in pages.
use nomercy_github_runner.Prelude.{
  ℕ, zero, suc, ◌+◌, ◌≤◌, ◌<◌, ◌≡◌, refl, sym, ap, ◌∙◌, false, List, [], ◌∷◌, ◌++◌, keep, take,
  drop, sort_by, insert_by, arith, ltb, inl, inr, Bool-cases, ltb→lt, subst,
}
use nomercy_github_runner.JobEvents.Event.{Event}
use nomercy_github_runner.JobEvents.Tables.{JobRow, Database}
use nomercy_github_runner.JobEvents.Apply.{apply, after, new_row, by_sequence}
use nomercy_github_runner.JobEvents.Fences.{apply-cases}

-- The sequence numbers go up, from above `low` to `high`.
abbrev pub IsIncreasing : ℕ → List JobRow → ℕ → Type 0
IsIncreasing low [] high = low ≤ high
IsIncreasing low (r ∷ rows) high = (low < r.sequence) × IsIncreasing r.sequence rows high

append-IsIncreasing :
    (low high : ℕ) (rows : List JobRow) (row : JobRow)
    → row.sequence ≡ suc high
    → IsIncreasing low rows high
    → IsIncreasing low (rows ++ row ∷ []) (suc high)
append-IsIncreasing low high [] row e h = (omega arith, omega arith)
append-IsIncreasing low high (r ∷ rows) row e h =
    (h.0, append-IsIncreasing r.sequence high rows row e h.1)

-- The rows of the events stay in the order of their sequence numbers, none above the last one
-- given, whatever event is applied.
apply-IsIncreasing :
    (received stamped host : ℕ) (event : Event) (db : Database)
    → IsIncreasing 0 db.rows db.last_sequence
    → (let db' = (apply received stamped host event db).1 in
        IsIncreasing 0 db'.rows db'.last_sequence)
apply-IsIncreasing received stamped host event db h =
    elim (apply-cases received stamped host event db) [
      | inl same ↦ rw same h
      | inr (row, found, left) ↦ rw left (
          append-IsIncreasing 0 db.last_sequence db.rows (new_row received host event row db) refl
            h)
    ]

above : ℕ → List JobRow → List JobRow
above s rows = keep (λ r. ltb s r.sequence) rows

abbrev pub last_of : ℕ → List JobRow → ℕ
last_of s [] = s
last_of s (r ∷ rows) = last_of r.sequence rows

module _ (high : ℕ) where
  lower-IsIncreasing :
      (low low' : ℕ) (rows : List JobRow)
      → low' ≤ low
      → IsIncreasing low rows high
      → IsIncreasing low' rows high
  lower-IsIncreasing low low' [] h i = omega arith
  lower-IsIncreasing low low' (r ∷ rows) h i = (omega (arith, i.0), i.1)

  above-all :
      (s low : ℕ) (rows : List JobRow) → s ≤ low → IsIncreasing low rows high → above s rows ≡ rows
  unfolding above
  above-all s low [] h i = refl
  above-all s low (r ∷ rows) h i =
      ground (arith, i.0, above-all s r.sequence rows (omega (arith, i.0)) i.1)

  above-IsIncreasing :
      (s low : ℕ) (rows : List JobRow)
      → IsIncreasing low rows high
      → IsIncreasing low (above s rows) high
  unfolding above
  above-IsIncreasing s low [] i = i
  above-IsIncreasing s low (r ∷ rows) i = elim (Bool-cases (ltb s r.sequence)) [
    | inl e ↦ rw e (i.0, above-IsIncreasing s r.sequence rows i.1)
    | inr e ↦ rw e (
        lower-IsIncreasing r.sequence low (above s rows) (omega (arith, i.0))
          (above-IsIncreasing s r.sequence rows i.1))
  ]

  insert-first :
      (r : JobRow) (rows : List JobRow)
      → IsIncreasing r.sequence rows high
      → insert_by by_sequence r rows ≡ r ∷ rows
  unfolding insert_by
  insert-first r [] i = refl
  insert-first r (b ∷ rows) i = ground (arith, i.0)

  sort-IsIncreasing :
      (low : ℕ) (rows : List JobRow) → IsIncreasing low rows high → sort_by by_sequence rows ≡ rows
  unfolding sort_by
  sort-IsIncreasing low [] i = refl
  sort-IsIncreasing low (r ∷ rows) i =
      rw (sort-IsIncreasing r.sequence rows i.1) (insert-first r rows i.1)

  last_of-le :
      (low : ℕ) (n : ℕ) (rows : List JobRow)
      → IsIncreasing low rows high
      → low ≤ last_of low (take n rows)
  last_of-le low zero rows i = omega arith
  last_of-le low (suc n) [] i = omega arith
  last_of-le low (suc n) (r ∷ rows) i = omega (arith, i.0, last_of-le r.sequence n rows i.1)

  above-last :
      (low n : ℕ) (rows : List JobRow)
      → IsIncreasing low rows high
      → above (last_of low (take n rows)) rows ≡ drop n rows
  unfolding above
  above-last low zero rows i = above-all low low rows (omega arith) i
  above-last low (suc n) [] i = refl
  above-last low (suc n) (r ∷ rows) i =
      ground (arith, last_of-le r.sequence n rows i.1, above-last r.sequence n rows i.1)

  above-skip :
      (t : ℕ) (r : JobRow) (rows : List JobRow)
      → ltb t r.sequence ≡ false
      → above t (r ∷ rows) ≡ above t rows
  unfolding above
  above-skip t r rows h = rw h refl

  last-above : (s t n : ℕ) (rows : List JobRow) → s ≤ t → s ≤ last_of t (take n (above s rows))
  unfolding above
  last-above s t zero rows h = h
  last-above s t (suc n) [] h = h
  last-above s t (suc n) (r ∷ rows) h = elim (Bool-cases (ltb s r.sequence)) [
    | inl e ↦ rw e (last-above s r.sequence n rows (ground arith))
    | inr e ↦ rw e (last-above s t (suc n) rows h)
  ]

  next_page :
      (s low n : ℕ) (rows : List JobRow)
      → IsIncreasing low rows high
      → above (last_of s (take n (above s rows))) rows ≡ drop n (above s rows)
  unfolding above
  next_page s low zero [] i = refl
  next_page s low (suc n) [] i = refl
  next_page s low n (r ∷ rows) i = elim (Bool-cases (ltb s r.sequence)) [
    | inl e ↦
        let from_s : IsIncreasing s (r ∷ rows) high = (ltb→lt s r.sequence e, i.1) in
        subst (λ rs. above (last_of s (take n rs)) (r ∷ rows) ≡ drop n rs)
          (sym (above-all s s (r ∷ rows) (omega arith) from_s)) (above-last s n (r ∷ rows) from_s)
    | inr e ↦
        subst (λ rs. above (last_of s (take n rs)) (r ∷ rows) ≡ drop n rs)
          (sym (above-skip s r rows e))
          (above-skip (last_of s (take n (above s rows))) r rows
              (ground (arith, last-above s s n rows (omega arith)))
            ∙ next_page s r.sequence n rows i.1)
  ]

abbrev no_rows : List JobRow
no_rows = []

take-nil : (n : ℕ) → take n no_rows ≡ no_rows
take-nil zero = refl
take-nil (suc n) = refl

take-drop : (m n : ℕ) (rows : List JobRow) → take m rows ++ take n (drop m rows) ≡ take (m + n) rows
take-drop zero n rows = ap (λ k. take k rows) (omega arith)
take-drop (suc m) n [] = take-nil n ∙ sym (take-nil (suc m + n))
take-drop (suc m) n (r ∷ rows) =
    let e : suc (m + n) ≡ suc m + n = omega arith in
    ap (λ rs. r ∷ rs) (take-drop m n rows) ∙ ap (λ k. take k (r ∷ rows)) e

-- A page read from a sequence number, and the next one read from the last number of that page, are
-- together the one page of both lengths: no event is lost or read twice between them.
pub after_pages :
    (s m n : ℕ) (db : Database)
    → IsIncreasing 0 db.rows db.last_sequence
    → after s m db ++ after (last_of s (after s m db)) n db ≡ after s (m + n) db
unfolding after above
after_pages s m n db i =
    let ordered = λ (t : ℕ).
      sort-IsIncreasing db.last_sequence 0 (above t db.rows)
        (above-IsIncreasing db.last_sequence t 0 db.rows i) in
    rw (ordered s) (
      rw (ordered (last_of s (take m (above s db.rows))))
        (rw (next_page db.last_sequence s 0 m db.rows i) (take-drop m n (above s db.rows))))
