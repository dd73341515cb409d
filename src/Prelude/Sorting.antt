-- ===== src/Prelude/Sorting.antt =====
-- Python's `sorted` by a key, which is stable, as insertion by a Boolean order, with what its result
-- keeps and how it is ordered.

use mathlib.Core.Path.{◌≡◌, refl}
use mathlib.Core.Logic.{inl, inr}
use mathlib.Core.Bool.{Bool, true, false, ◌&&◌}
use mathlib.Core.List.{List, [], ◌∷◌, ◌++◌}
use native.Mathlib.Omega.{arith}
use nomercy_github_runner.Prelude.Tests.{if◌then◌else◌, Bool-cases}
use nomercy_github_runner.Prelude.Lists.{All, count_if, keep}

module _ {ℓ} {A : Type ℓ} (before : A → A → Bool) where
  unfoldable pub insert_by : A → List A → List A
  insert_by a [] = a ∷ []
  insert_by a (b ∷ bs) = let rest = insert_by a bs in if before b a then b ∷ rest else a ∷ b ∷ bs

  unfoldable pub sort_by : List A → List A
  unfolding insert_by
  sort_by [] = []
  sort_by (a ∷ as') = insert_by a (sort_by as')

  -- No later element goes before an earlier one.
  abbrev pub IsSorted : List A → Type 0
  IsSorted [] = Unit
  IsSorted (a ∷ as') = All (λ b. before b a ≡ false) as' × IsSorted as'

  -- What the test must be for the result to be ordered: a strict weak order.
  pub record IsOrder : Type ℓ where
    pub asym : (a b : A) → before a b ≡ true → before b a ≡ false
    pub trans : (a b c : A) → before b a ≡ false → before c b ≡ false → before c a ≡ false

  pub count-insert_by :
      (p : A → Bool) (a : A) (as' : List A) → count_if p (insert_by a as') ≡ count_if p (a ∷ as')
  unfolding insert_by
  count-insert_by p a [] = refl
  count-insert_by p a (b ∷ bs) = ground (arith, count-insert_by p a bs)

  -- The result has every element as often as the list.
  pub count-sort_by : (p : A → Bool) (as' : List A) → count_if p (sort_by as') ≡ count_if p as'
  unfolding sort_by
  count-sort_by p [] = refl
  count-sort_by p (a ∷ as') = ground (arith, count-insert_by p a (sort_by as'), count-sort_by p as')

  All-before_trans :
      (a b : A) (as' : List A)
      → IsOrder
      → before b a ≡ false
      → All (λ c. before c b ≡ false) as'
      → All (λ c. before c a ≡ false) as'
  All-before_trans a b [] o h k = tt
  All-before_trans a b (c ∷ cs) o h k = (o.trans a b c h k.0, All-before_trans a b cs o h k.1)

  All-insert_by :
      (p : A → Bool) (a : A) (as' : List A)
      → p a ≡ false
      → All (λ b. p b ≡ false) as'
      → All (λ b. p b ≡ false) (insert_by a as')
  unfolding insert_by
  All-insert_by p a [] h k = (h, tt)
  All-insert_by p a (b ∷ bs) h k = elim (Bool-cases (before b a)) [
    | inl first ↦ rw first (k.0, All-insert_by p a bs h k.1)
    | inr later ↦ rw later (h, (k.0, k.1))
  ]

  insert_by-IsSorted : (a : A) (as' : List A) → IsOrder → IsSorted as' → IsSorted (insert_by a as')
  unfolding insert_by
  insert_by-IsSorted a [] o h = (tt, tt)
  insert_by-IsSorted a (b ∷ bs) o h = elim (Bool-cases (before b a)) [
    | inl first ↦
        rw first (
          All-insert_by (λ c. before c b) a bs (o.asym b a first) h.0,
          insert_by-IsSorted a bs o h.1,
        )
    | inr later ↦ rw later ((later, All-before_trans a b bs o later h.0), (h.0, h.1))
  ]

  pub sort_by-IsSorted : (as' : List A) → IsOrder → IsSorted (sort_by as')
  unfolding sort_by
  sort_by-IsSorted [] o = tt
  sort_by-IsSorted (a ∷ as') o = insert_by-IsSorted a (sort_by as') o (sort_by-IsSorted as' o)

  All-later :
      (p : A → Bool) (xs ys : List A)
      → All (λ b. p b ≡ false) (xs ++ ys)
      → All (λ b. p b ≡ false) ys
  All-later p [] ys h = h
  All-later p (x ∷ xs) ys h = All-later p xs ys h.1

  -- What is taken off the front of an ordered list goes after nothing that is left.
  pub IsSorted-split :
      (as' bs : List A) → IsSorted (as' ++ bs) → All (λ a. All (λ b. before b a ≡ false) bs) as'
  IsSorted-split [] bs h = tt
  IsSorted-split (a ∷ as') bs h =
      (All-later (λ b. before b a) as' bs h.0, IsSorted-split as' bs h.1)

pub count-keep {ℓ} :
    {A : Type ℓ} (p q : A → Bool) (as' : List A)
    → count_if p (keep q as') ≡ count_if (λ a. q a && p a) as'
count-keep p q [] = refl
count-keep p q (a ∷ as') = ground (arith, count-keep p q as')

-- What every element of a list has, every element of the sorted list has.
module _ {A : Type 0} (P : A → Type 0) (before : A → A → Bool) where
  insert_by-All : (a : A) (as' : List A) → P a → All P as' → All P (insert_by before a as')
  unfolding insert_by
  insert_by-All a [] p h = (p, tt)
  insert_by-All a (b ∷ bs) p h = elim (Bool-cases (before b a)) [
    | inl e ↦ rw e (h.0, insert_by-All a bs p h.1)
    | inr e ↦ rw e (p, h)
  ]

  pub All-sort_by : (as' : List A) → All P as' → All P (sort_by before as')
  unfolding sort_by
  All-sort_by [] h = tt
  All-sort_by (a ∷ as') h = insert_by-All a (sort_by before as') h.0 (All-sort_by as' h.1)

module _ {A : Type 0} (P : A → Type 0) where
  pub All-keep : (p : A → Bool) (as' : List A) → All P as' → All P (keep p as')
  All-keep p [] h = tt
  All-keep p (a ∷ as') h = elim (Bool-cases (p a)) [
    | inl e ↦ rw e (h.0, All-keep p as' h.1)
    | inr e ↦ rw e (All-keep p as' h.1)
  ]
