-- ===== src/Prelude/Enumeration.antt =====
-- A finite type by the list of its values: a Boolean property of every value holds if it
-- computes to true along the list.
use mathlib.Core.Path.{◌≡◌}
use mathlib.Core.Bool.{Bool, true}
use mathlib.Core.List.{List}
use nomercy_github_runner.Prelude.Lists.{all}

-- Every value is listed, so what holds along the list holds of the type.
pub record Finite (A : Type 0) : Type 0 where
  pub values : List A
  pub covers : (p : A → Bool) → all p values ≡ true → (a : A) → p a ≡ true

-- A test that holds at every value of the type.
abbrev pub every : {A : Type 0} ⦃f : Finite A⦄ → (A → Bool) → Bool
every ⦃f⦄ p = all p f.values

pub every_at : {A : Type 0} ⦃f : Finite A⦄ (p : A → Bool) → every p ≡ true → (a : A) → p a ≡ true
every_at ⦃f⦄ p h a = f.covers p h a
