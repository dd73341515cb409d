-- ===== src/Text.antt =====
-- The functions on text that the program uses, over lists of code points: `strip`, `split`,
-- `partition`, `isdigit`, `int` and `str` of a number, for ASCII text.
pub mod Decimal
pub mod Split
use Prim.Native.Char.{code}
use Prim.Native.String
use nomercy_github_runner.Prelude.{
  ℕ, zero, suc, ◌+◌, ◌-◌, ◌*◌, ◌/◌, ◌%◌, String, Bool, true, false, ◌&&◌, ◌||◌, List, [], ◌∷◌, ◌++◌,
  all, any, leb, ltb, ◌==◌, if◌then◌else◌,
}

abbrev pub codes : String → List ℕ
codes String.[] = []
codes (String.◌∷◌ c s) = code c ∷ codes s

-- ASCII white space: tab to carriage return, the four separators, and the space.
unfoldable pub is_space : ℕ → Bool
is_space c = (leb 9 c && leb c 13) || (leb 28 c && leb c 32)

unfoldable pub lstrip : List ℕ → List ℕ
lstrip [] = []
lstrip (c ∷ s) = let rest = lstrip s in if is_space c then rest else c ∷ s

-- The text without the spaces at its end.
unfoldable pub rstrip : List ℕ → List ℕ
rstrip [] = []
rstrip (c ∷ s) =
    let rest = rstrip s in elim rest [ [] ↦ if is_space c then [] else c ∷ [] | d ∷ r ↦ c ∷ d ∷ r ]

unfoldable pub strip : List ℕ → List ℕ
unfolding lstrip rstrip is_space
strip s = rstrip (lstrip s)

abbrev pub contains_code : ℕ → List ℕ → Bool
contains_code c = any (λ d. c == d)

-- The first piece of a split, and the later ones.
abbrev pub add_to_first : ℕ → List (List ℕ) → List (List ℕ)
add_to_first c [] = (c ∷ []) ∷ []
add_to_first c (p ∷ ps) = (c ∷ p) ∷ ps

-- s.split(sep): one piece more than there are separators.
unfoldable pub split : ℕ → List ℕ → List (List ℕ)
split sep [] = [] ∷ []
split sep (c ∷ s) =
    let pieces = split sep s in if c == sep then [] ∷ pieces else add_to_first c pieces

-- s.partition(sep): the text before, whether the separator was found, and the text after.
unfoldable pub partition : ℕ → List ℕ → List ℕ × Bool × List ℕ
partition sep [] = ([], false, [])
partition sep (c ∷ s) =
    let rest = partition sep s in if c == sep then ([], true, s) else (c ∷ rest.0, rest.1, rest.2)

abbrev pub is_digit : ℕ → Bool
is_digit c = leb 48 c && leb c 57

abbrev nonempty : List ℕ → Bool
nonempty [] = false
nonempty (c ∷ s) = true

-- s.isdigit()
unfoldable pub is_digits : List ℕ → Bool
is_digits s = nonempty s && all is_digit s

-- int(s), of digits
unfoldable pub int_from : ℕ → List ℕ → ℕ
int_from acc [] = acc
int_from acc (c ∷ s) = int_from (acc * 10 + (c - 48)) s

unfoldable pub int_of : List ℕ → ℕ
unfolding int_from
int_of s = int_from 0 s

-- str(n), by its last digit; each division leaves a smaller number, so n + 1 rounds are enough.
unfoldable pub digits : ℕ → ℕ → List ℕ
digits zero n = []
digits (suc f) n =
    let more = digits f (n / 10) ++ ((48 + n % 10) ∷ []) in if ltb n 10 then (48 + n) ∷ [] else more

unfoldable pub str_of : ℕ → List ℕ
unfolding digits
str_of n = digits (suc n) n

-- str(a - b), a minus sign before a negative one
unfoldable pub str_diff : ℕ → ℕ → List ℕ
unfolding str_of
str_diff a b = if ltb a b then b'-' ∷ str_of (b - a) else str_of (a - b)
