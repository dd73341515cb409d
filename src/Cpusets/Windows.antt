-- ===== src/Cpusets/Windows.antt =====
-- The text that `window` writes names exactly the cores of the window.
use native.Mathlib.Nat.{mod-eq_of_lt, mod-eq-sub-mod}
use mathlib.Core.Path.{ap₂}
use nomercy_github_runner.Prelude.{
  ℕ, zero, suc, ◌+◌, ◌-◌, ◌%◌, ◌≤◌, ◌<◌, ◌≡◌, ◌∙◌, ap, sym, ltb→lt, refl, Bool, true, false, not,
  ◌&&◌, ◌||◌, List, [], ◌∷◌, ◌++◌, arith, all, leb, ltb, ◌==◌, min, if◌then◌else◌, inl, inr,
  Bool-cases,
}
use nomercy_github_runner.Text.{is_digit, is_space, str_of, str_diff}
use nomercy_github_runner.Text.Decimal.{int_of-str_of, all_digits-str_of, is_digits-str_of}
use nomercy_github_runner.Text.Split.{
  split-free, split-append, partition-append, strip-unspaced, digits_unspaced, digits_free, free_of,
  unspaced, all-append,
}
use nomercy_github_runner.Cpusets.{
  ok, has_core, add_range, bounds, parse, parse_parts, range_text, window, is_nil,
}

-- A core is in the range's set after the update if it was there or lies in the range.
pub has_core-add_range :
    (c a n : ℕ) (cores : List ℕ)
    → has_core c (add_range a n cores) ≡ (has_core c cores || (leb a c && ltb c (a + n)))
unfolding add_range
has_core-add_range c a zero cores = ground arith
has_core-add_range c a (suc n) cores =
    let more = if has_core a cores then cores else a ∷ cores in
    ground (arith, has_core-add_range c (suc a) n more, has_core_eq c a cores)
  where
    has_core_eq : (c a : ℕ) (cores : List ℕ) → (c == a) ≡ true → has_core c cores ≡ has_core a cores
    has_core_eq c a [] e = refl
    has_core_eq c a (d ∷ cores) e = ground (arith, has_core_eq c a cores)

range_unspaced :
    (s r : List ℕ)
    → all is_digit s ≡ true
    → all is_digit r ≡ true
    → unspaced (range_text s r) ≡ true
unfolding is_space
range_unspaced s r h k = ground (
  arith,
  all-append (λ c. not (is_space c)) s (b'-' ∷ r),
  digits_unspaced s h,
  digits_unspaced r k,
)

range_free :
    (s r : List ℕ)
    → all is_digit s ≡ true
    → all is_digit r ≡ true
    → free_of b',' (range_text s r) ≡ true
range_free s r h k = ground (
  arith,
  all-append (λ c. not (c == b',')) s (b'-' ∷ r),
  digits_free b',' s refl h,
  digits_free b',' r refl k,
)

range_not_nil : (s r : List ℕ) → is_nil (range_text s r) ≡ false
range_not_nil [] r = refl
range_not_nil (c ∷ s) r = refl

-- An element that is a range of two numbers in order has them as its bounds.
pub bounds-range : (a b : ℕ) → a ≤ b → bounds (range_text (str_of a) (str_of b)) ≡ ok (a, b)
unfolding bounds
bounds-range a b h =
    rw
      (strip-unspaced (range_text (str_of a) (str_of b))
        (range_unspaced (str_of a) (str_of b) (all_digits-str_of a) (all_digits-str_of b)))
      (rw
        (partition-append b'-' (str_of a) (str_of b)
          (digits_free b'-' (str_of a) refl (all_digits-str_of a)))
        (ground (
          arith,
          range_not_nil (str_of a) (str_of b),
          is_digits-str_of a,
          is_digits-str_of b,
          int_of-str_of a,
          int_of-str_of b,
        )))

parse_parts-cons :
    (part : List ℕ) (parts : List (List ℕ)) (cores : List ℕ) (a b : ℕ)
    → bounds part ≡ ok (a, b)
    → parse_parts (part ∷ parts) cores ≡ parse_parts parts (add_range a (b + 1 - a) cores)
unfolding parse_parts
parse_parts-cons part parts cores a b h = ground arith

parse_one :
    (a b : ℕ) → a ≤ b → parse (range_text (str_of a) (str_of b)) ≡ ok (add_range a (b + 1 - a) [])
unfolding parse parse_parts
parse_one a b h =
    rw
      (split-free b',' (range_text (str_of a) (str_of b))
        (range_free (str_of a) (str_of b) (all_digits-str_of a) (all_digits-str_of b)))
      (parse_parts-cons (range_text (str_of a) (str_of b)) [] [] a b (bounds-range a b h))

parse_two :
    (a b c d : ℕ)
    → a ≤ b
    → c ≤ d
    → parse (range_text (str_of a) (str_of b) ++ b',' ∷ range_text (str_of c) (str_of d))
      ≡ ok (add_range c (d + 1 - c) (add_range a (b + 1 - a) []))
unfolding parse parse_parts
parse_two a b c d h k =
    rw
      (split-append b',' (range_text (str_of a) (str_of b)) (range_text (str_of c) (str_of d))
        (range_free (str_of a) (str_of b) (all_digits-str_of a) (all_digits-str_of b)))
      (rw
        (split-free b',' (range_text (str_of c) (str_of d))
          (range_free (str_of c) (str_of d) (all_digits-str_of c) (all_digits-str_of d)))
        (parse_parts-cons (range_text (str_of a) (str_of b)) (range_text (str_of c) (str_of d) ∷ [])
            [] a b (bounds-range a b h)
          ∙ parse_parts-cons (range_text (str_of c) (str_of d)) [] (add_range a (b + 1 - a) []) c d
              (bounds-range c d k)))

str_diff-le : (a b : ℕ) → b ≤ a → str_diff a b ≡ str_of (a - b)
unfolding str_diff
str_diff-le a b h = ground arith

-- The set of the cores of a window: one range, or two when it wraps round the end of the host.
window_set : ℕ → ℕ → ℕ → List ℕ
window_set start width cores =
    let w = min width cores in
    if w == cores
    then add_range 0 cores []
    else if leb (start + w) cores
    then add_range start w []
    else add_range 0 (start + w - cores) (add_range start (cores - start) [])

parse_whole : (n : ℕ) → 0 < n → parse (range_text (str_of 0) (str_diff n 1)) ≡ ok (add_range 0 n [])
parse_whole n h =
    rw (str_diff-le n 1 h)
      (parse_one 0 (n - 1) (omega arith) ∙ ap (λ (m : ℕ). ok (add_range 0 m [])) (omega arith))

parse_inside :
    (start w : ℕ)
    → 0 < w
    → parse (range_text (str_of start) (str_diff (start + w) 1)) ≡ ok (add_range start w [])
parse_inside start w h = rw (str_diff-le (start + w) 1 (omega arith)) (
    parse_one start (start + w - 1) (omega arith)
    ∙ ap (λ (m : ℕ). ok (add_range start m [])) (omega arith))

parse_wrapped :
    (start cores past : ℕ)
    → start < cores
    → cores < past
    → parse (
        range_text (str_of start) (str_diff cores 1)
        ++ b',' ∷ range_text (str_of 0) (str_diff past (cores + 1)))
      ≡ ok (add_range 0 (past - cores) (add_range start (cores - start) []))
parse_wrapped start cores past h k = rw (str_diff-le cores 1 (omega arith)) (
    rw (str_diff-le past (cores + 1) (omega arith)) (
      parse_two start (cores - 1) 0 (past - (cores + 1)) (omega arith) (omega arith)
      ∙ ap₂ (λ (m n : ℕ). ok (add_range 0 m (add_range start n []))) (omega arith) (omega arith)))

parse-window_set :
    (start width cores : ℕ)
    → 0 < width
    → start < cores
    → parse (window start width cores) ≡ ok (window_set start width cores)
unfolding window window_set
parse-window_set start width cores h k = elim (Bool-cases (min width cores == cores)) [
  | inl whole ↦ rw whole (parse_whole cores (omega arith))
  | inr part ↦ rw part (elim (Bool-cases (leb (start + min width cores) cores)) [
    | inl inside ↦ rw inside (parse_inside start (min width cores) (omega arith))
    | inr wraps ↦ rw wraps (parse_wrapped start cores (start + min width cores) k (ground arith))
  ])
]

-- The cores of a window, as `allocate` counts them: (start + i) % cores for i below the width.
abbrev pub window_cores : ℕ → ℕ → ℕ → ℕ → List ℕ
window_cores start cores i zero = []
window_cores start cores i (suc n) = (start + i) % cores ∷ window_cores start cores (suc i) n

-- i-th core of the window, with no remainder.
wrap_lem :
    (start cores i : ℕ)
    → start < cores
    → i < cores
    → (start + i) % cores ≡ (if ltb (start + i) cores then start + i else start + i - cores)
wrap_lem start cores i h k = elim (Bool-cases (ltb (start + i) cores)) [
  | inl low ↦ rw low (mod-eq_of_lt (ltb→lt _ _ low))
  | inr high ↦ rw high (mod-eq-sub-mod (ground arith) ∙ mod-eq_of_lt (ground arith))
]

-- Whether a core is one of the `n` cores from the i-th on, by comparisons.
abbrev among : ℕ → ℕ → ℕ → ℕ → ℕ → Bool
among start cores i n c =
    ltb c cores
    && (leb (start + i) c && ltb c (start + i + n)
        || leb (start + i) (c + cores) && ltb (c + cores) (start + i + n))

has_core-window_cores :
    (c start cores i n : ℕ)
    → start < cores
    → i + n ≤ cores
    → has_core c (window_cores start cores i n) ≡ among start cores i n c
has_core-window_cores c start cores i zero h k = ground arith
has_core-window_cores c start cores i (suc n) h k =
    ground (arith, wrap_lem start cores i, has_core-window_cores c start cores (suc i) n)

has_core-window_set :
    (c start width cores : ℕ)
    → start < cores
    → has_core c (window_set start width cores) ≡ among start cores 0 (min width cores) c
unfolding window_set
has_core-window_set c start width cores h = ground (
  arith,
  has_core-add_range c 0 cores [],
  has_core-add_range c start (min width cores) [],
  has_core-add_range c 0 (start + min width cores - cores) (add_range start (cores - start) []),
  has_core-add_range c start (cores - start) [],
)

-- The text of a window reads back as a set, and a core is in that set exactly if it is one of the
-- (start + i) % cores for i below the width, or below the host's cores where those are fewer.
pub parse-window :
    (start width cores : ℕ)
    → 0 < width
    → start < cores
    → (set : List ℕ) × (parse (window start width cores) ≡ ok set)
      × ((c : ℕ) → has_core c set ≡ has_core c (window_cores start cores 0 (min width cores)))
parse-window start width cores h k = (
  window_set start width cores,
  parse-window_set start width cores h k,
  λ c.
      has_core-window_set c start width cores k
      ∙ sym (has_core-window_cores c start cores 0 (min width cores) k (omega arith)),
)
