-- ===== src/Text/Split.antt =====
-- `split`, `partition` and `strip` of text, by where the separators and the spaces stand.
use nomercy_github_runner.Prelude.{
  ℕ, ◌≡◌, refl, Bool, true, false, not, ◌&&◌, List, [], ◌∷◌, ◌++◌, arith, all, ◌==◌, ltb,
}
use nomercy_github_runner.Text.{is_space, lstrip, rstrip, strip, split, partition, is_digit}

-- No code of the text is the given one.
abbrev pub free_of : ℕ → List ℕ → Bool
free_of sep s = all (λ c. not (c == sep)) s

pub split-free : (sep : ℕ) (s : List ℕ) → free_of sep s ≡ true → split sep s ≡ s ∷ []
unfolding split
split-free sep [] h = refl
split-free sep (c ∷ s) h = ground (arith, split-free sep s)

pub split-append :
    (sep : ℕ) (s r : List ℕ) → free_of sep s ≡ true → split sep (s ++ sep ∷ r) ≡ s ∷ split sep r
unfolding split
split-append sep [] r h = ground arith
split-append sep (c ∷ s) r h = ground (arith, split-append sep s r)

pub partition-free :
    (sep : ℕ) (s : List ℕ) → free_of sep s ≡ true → partition sep s ≡ (s, false, [])
unfolding partition
partition-free sep [] h = refl
partition-free sep (c ∷ s) h = ground (arith, partition-free sep s)

pub partition-append :
    (sep : ℕ) (s r : List ℕ) → free_of sep s ≡ true → partition sep (s ++ sep ∷ r) ≡ (s, true, r)
unfolding partition
partition-append sep [] r h = ground arith
partition-append sep (c ∷ s) r h = ground (arith, partition-append sep s r)

-- No code of the text is a space.
abbrev pub unspaced : List ℕ → Bool
unspaced s = all (λ c. not (is_space c)) s

lstrip-unspaced : (s : List ℕ) → unspaced s ≡ true → lstrip s ≡ s
unfolding lstrip
lstrip-unspaced [] h = refl
lstrip-unspaced (c ∷ s) h = ground (arith, lstrip-unspaced s)

rstrip-unspaced : (s : List ℕ) → unspaced s ≡ true → rstrip s ≡ s
unfolding rstrip
rstrip-unspaced [] h = refl
rstrip-unspaced (c ∷ []) h = ground arith
rstrip-unspaced (c ∷ d ∷ s) h = ground (arith, rstrip-unspaced (d ∷ s))

pub strip-unspaced : (s : List ℕ) → unspaced s ≡ true → strip s ≡ s
unfolding strip
strip-unspaced s h = ground (arith, lstrip-unspaced s h, rstrip-unspaced s h)

digit_unspaced : (c : ℕ) → is_digit c ≡ true → is_space c ≡ false
unfolding is_space
digit_unspaced c h = ground arith

pub digits_unspaced : (s : List ℕ) → all is_digit s ≡ true → unspaced s ≡ true
digits_unspaced [] h = refl
digits_unspaced (c ∷ s) h = ground (arith, digits_unspaced s, digit_unspaced c)

-- A code below the digits, such as a comma or a dash, is in no text of digits.
pub digits_free :
    (sep : ℕ) (s : List ℕ) → ltb sep 48 ≡ true → all is_digit s ≡ true → free_of sep s ≡ true
digits_free sep [] l h = refl
digits_free sep (c ∷ s) l h = ground (arith, digits_free sep s)

pub all-append : (p : ℕ → Bool) (s r : List ℕ) → all p (s ++ r) ≡ (all p s && all p r)
all-append p [] r = refl
all-append p (c ∷ s) r = ground (arith, all-append p s r)
