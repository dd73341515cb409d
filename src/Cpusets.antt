-- ===== src/Cpusets.antt =====
-- dashboard/control/cpusets.py: the text of a pinned CPU window, its parser, and the choice of the
-- window that overlaps the taken ones least. A set of cores is a list without repetition.
pub mod Windows
pub mod Least
pub mod Covers
use nomercy_github_runner.Prelude.{
  ℕ, zero, suc, ◌+◌, ◌-◌, ◌%◌, min, max, Bool, true, false, ◌&&◌, ◌||◌, not, Option, none, some,
  List, [], ◌∷◌, ◌++◌, any, leb, ltb, ◌==◌, if◌then◌else◌,
}
use nomercy_github_runner.Text.{
  contains_code, strip, split, partition, is_digits, int_of, str_of, str_diff,
}

abbrev is_nil : List ℕ → Bool
is_nil [] = true
is_nil (c ∷ s) = false

-- The argument is the text of the value, empty for one that is not set.
unfoldable pub is_cpuset : List ℕ → Bool
is_cpuset value =
    let text = strip value in
    not (is_nil text) && (contains_code b'-' text || contains_code b',' text)

-- The ValueErrors of `parse` and `allocate`, and the TypeError of `allocate` on a host of no cores.
pub data CpusetError : Type 0 where
  empty_element not_a_cpuset descending_range does_not_fit no_window : CpusetError

pub data Parsed {ℓ} (A : Type ℓ) : Type ℓ where
  ok : A → Parsed A
  raised : CpusetError → Parsed A

abbrev pub has_core : ℕ → List ℕ → Bool
has_core c = any (λ d. c == d)

abbrev add_core : ℕ → List ℕ → List ℕ
add_core c cores = if has_core c cores then cores else c ∷ cores

-- cores.update(range(a, a + n))
unfoldable pub add_range : ℕ → ℕ → List ℕ → List ℕ
add_range a zero cores = cores
add_range a (suc n) cores = add_range (suc a) n (add_core a cores)

-- One element of the list: its first and its last core.
unfoldable pub bounds : List ℕ → Parsed (ℕ × ℕ)
bounds part =
    let text = strip part in
    let (low, sep, high) = partition b'-' text in
    if is_nil text
    then raised empty_element
    else if not (is_digits low) || (sep && not (is_digits high))
    then raised not_a_cpuset
    else let a = int_of low in
      let b = if sep then int_of high else int_of low in
      if ltb b a then raised descending_range else ok (a, b)

abbrev with_range : Parsed (ℕ × ℕ) → List ℕ → Parsed (List ℕ)
with_range (raised e) cores = raised e
with_range (ok (a, b)) cores = ok (add_range a (b + 1 - a) cores)

-- The loop over the elements.
unfoldable pub parse_parts : List (List ℕ) → List ℕ → Parsed (List ℕ)
parse_parts [] cores = ok cores
parse_parts (part ∷ parts) cores = elim (with_range (bounds part) cores) [
  | raised e ↦ raised e
  | ok more ↦ parse_parts parts more
]

unfoldable pub parse : List ℕ → Parsed (List ℕ)
unfolding parse_parts
parse text = parse_parts (split b',' text) []

-- "{a}-{b}" of two texts
abbrev pub range_text : List ℕ → List ℕ → List ℕ
range_text a b = a ++ b'-' ∷ b

-- `end` is start + width - 1; it is kept as start + width, so that a width of zero has its sign.
unfoldable pub window : ℕ → ℕ → ℕ → List ℕ
window start width cores =
    let w = min width cores in
    if w == cores
    then range_text (str_of 0) (str_diff cores 1)
    else if leb (start + w) cores
    then range_text (str_of start) (str_diff (start + w) 1)
    else range_text (str_of start) (str_diff cores 1)
      ++ b',' ∷ range_text (str_of 0) (str_diff (start + w) (cores + 1))

abbrev pub get_or : List ℕ → ℕ → ℕ
get_or [] i = 0
get_or (x ∷ xs) zero = x
get_or (x ∷ xs) (suc i) = get_or xs i

-- cover[core] += 1, where the core is one of the host
abbrev pub bump : ℕ → List ℕ → List ℕ
bump core [] = []
bump zero (x ∷ xs) = suc x ∷ xs
bump (suc core) (x ∷ xs) = x ∷ bump core xs

abbrev pub bump_all : List ℕ → List ℕ → List ℕ
bump_all [] cover = cover
bump_all (core ∷ used) cover = bump_all used (bump core cover)

unfoldable pub count_covers : List (List ℕ) → List ℕ → List ℕ
count_covers [] cover = cover
count_covers (used ∷ taken) cover = count_covers taken (bump_all used cover)

abbrev pub zeros : ℕ → List ℕ
zeros zero = []
zeros (suc n) = 0 ∷ zeros n

-- [cover[(start + i) % cores] for i in range(width)]
abbrev pub span_from : List ℕ → ℕ → ℕ → ℕ → ℕ → List ℕ
span_from cover cores start i zero = []
span_from cover cores start i (suc n) =
    get_or cover ((start + i) % cores) ∷ span_from cover cores start (suc i) n

abbrev pub sum_of : List ℕ → ℕ
sum_of [] = 0
sum_of (x ∷ xs) = x + sum_of xs

abbrev pub peak_of : List ℕ → ℕ
peak_of [] = 0
peak_of (x ∷ xs) = max x (peak_of xs)

-- The key by which windows are compared: highest cover, total cover, start.
pub record Key : Type 0 where
  pub peak : ℕ
  pub total : ℕ
  pub start : ℕ

unfoldable pub key_of : List ℕ → ℕ → ℕ → ℕ → Key
key_of cover cores width start =
    let span = span_from cover cores start 0 width in
    record { peak = peak_of span; total = sum_of span; start = start }

-- The order of tuples.
unfoldable pub key_lt : Key → Key → Bool
key_lt a b =
    ltb a.peak b.peak
    || (a.peak == b.peak && (ltb a.total b.total || (a.total == b.total && ltb a.start b.start)))

abbrev better : Key → Option Key → Key
better k none = k
better k (some b) = if key_lt k b then k else b

-- The loop over the starts from `start`, `n` of them left.
unfoldable pub best_of : (ℕ → Key) → ℕ → ℕ → Option Key → Option Key
best_of key start zero best = best
best_of key start (suc n) best = best_of key (suc start) n (some (better (key start) best))

abbrev window_at : ℕ → ℕ → Option Key → Parsed (List ℕ)
window_at width cores none = raised no_window
window_at width cores (some k) = ok (window k.start width cores)

unfoldable pub allocate : ℕ → ℕ → List (List ℕ) → Parsed (List ℕ)
allocate width cores taken =
    let w = max 1 width in
    let cover = count_covers taken (zeros cores) in
    if ltb cores width
    then raised does_not_fit
    else window_at w cores (best_of (key_of cover cores w) 0 cores none)
