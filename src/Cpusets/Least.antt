-- ===== src/Cpusets/Least.antt =====
-- The window that `allocate` chooses is a least one.
use nomercy_github_runner.Prelude.{
  ℕ, zero, suc, ◌+◌, max, ◌≤◌, ◌<◌, ◌≡◌, refl, ap, subst, ◌%◌, ◌∙◌, true, false, none, some, List,
  arith, ltb, ◌==◌, ◌⊎◌, inl, inr, Bool-cases,
}
use nomercy_github_runner.Cpusets.{
  ok, raised, Key, key_of, key_lt, best_of, allocate, window, count_covers, zeros, does_not_fit,
  get_or, span_from, peak_of, sum_of,
}
use nomercy_github_runner.Cpusets.Covers.{covers_of, count_covers_lem}

-- `k` is a key of the candidates or the given one, and none of these is below it.
record IsLeast (key : ℕ → Key) (start n : ℕ) (b k : Key) : Type 0 where
  taken : (k ≡ b) ⊎ ((i : ℕ) × (start ≤ i) × (i < start + n) × (k ≡ key i))
  below_first : key_lt b k ≡ false
  below_all : (i : ℕ) → start ≤ i → i < start + n → key_lt (key i) k ≡ false

key_lt_irrefl : (a : Key) → key_lt a a ≡ false
unfolding key_lt
key_lt_irrefl a = ground arith

key_lt_asym : (a b : Key) → key_lt a b ≡ true → key_lt b a ≡ false
unfolding key_lt
key_lt_asym a b h = ground arith

-- What is not below a key is not below a lower or equal one.
key_le_trans : (x b k : Key) → key_lt x b ≡ false → key_lt b k ≡ false → key_lt x k ≡ false
unfolding key_lt
key_le_trans x b k h g = ground arith

module _ (key : ℕ → Key) (start n : ℕ) (b k : Key) where
  later :
      (c : Key)
      → IsLeast key (suc start) n c k
      → key_lt (key start) k ≡ false
      → (i : ℕ) → start ≤ i
      → i < start + suc n
      → key_lt (key i) k ≡ false
  later c h first i p q = elim (Bool-cases (i == start)) [
    | inl same ↦ let e : start ≡ i = ground arith in subst (λ j. key_lt (key j) k ≡ false) e first
    | inr other ↦ h.below_all i (ground arith) (omega arith)
  ]

  step_lower :
      key_lt (key start) b ≡ true
      → IsLeast key (suc start) n (key start) k
      → IsLeast key start (suc n) b k
  step_lower low h = record {
    taken = elim h.taken [
      | inl e ↦ inr (start, omega arith, omega arith, e)
      | inr (i, p, q, e) ↦ inr (i, omega arith, omega arith, e)
    ];
    below_first = key_le_trans b (key start) k (key_lt_asym (key start) b low) h.below_first;
    below_all = later (key start) h h.below_first;
  }

  step_kept :
      key_lt (key start) b ≡ false → IsLeast key (suc start) n b k → IsLeast key start (suc n) b k
  step_kept high h = record {
    taken = elim h.taken [
      | inl e ↦ inl e
      | inr (i, p, q, e) ↦ inr (i, omega arith, omega arith, e)
    ];
    below_first = h.below_first;
    below_all = later b h (key_le_trans (key start) b k high h.below_first);
  }

-- The loop ends with a least key.
best_of-IsLeast :
    (key : ℕ → Key) (start n : ℕ) (b : Key)
    → (k : Key) × (best_of key start n (some b) ≡ some k) × IsLeast key start n b k
unfolding best_of
best_of-IsLeast key start zero b = (
  b,
  refl,
  record {
    taken = inl refl;
    below_first = key_lt_irrefl b;
    below_all = λ i p q. absurd (omega arith);
  },
)
best_of-IsLeast key start (suc n) b = elim (Bool-cases (key_lt (key start) b)) [
  | inl low ↦
      let (k, e, h) = best_of-IsLeast key (suc start) n (key start) in
      (k, rw low e, step_lower key start n b k low h)
  | inr high ↦
      let (k, e, h) = best_of-IsLeast key (suc start) n b in
      (k, rw high e, step_kept key start n b k high h)
]

-- The loop from no candidate, over the starts of a host of `cores + 1` cores.
best_start :
    (key : ℕ → Key) (cores : ℕ)
    → (i : ℕ) × (i < suc cores)
      × (best_of key 0 (suc cores) none ≡ some (key i))
      × ((other : ℕ) → other < suc cores → key_lt (key other) (key i) ≡ false)
unfolding best_of
best_start key cores =
    let (k, e, least) = best_of-IsLeast key 1 cores (key 0) in
    let all_above : (other : ℕ) → other < suc cores → key_lt (key other) k ≡ false = λ other p.
      elim (Bool-cases (other == 0)) [
        | inl first ↦
            let z : 0 ≡ other = ground arith in
            subst (λ j. key_lt (key j) k ≡ false) z least.below_first
        | inr later ↦ least.below_all other (ground arith) (omega arith)
      ] in
    elim least.taken [
      | inl same ↦ (
        0,
        omega arith,
        e ∙ ap some same,
        λ other p. subst (λ j. key_lt (key other) j ≡ false) same (all_above other p),
      )
      | inr (i, low, high, same) ↦ (
        i,
        omega arith,
        e ∙ ap some same,
        λ other p. subst (λ j. key_lt (key other) j ≡ false) same (all_above other p),
      )
    ]

written :
    (width cores : ℕ) (taken : List (List ℕ)) (i : ℕ)
    → width ≤ suc cores
    → (let key = key_of (count_covers taken (zeros (suc cores))) (suc cores) (max 1 width) in
        best_of key 0 (suc cores) none ≡ some (key i))
    → allocate width (suc cores) taken ≡ ok (window i (max 1 width) (suc cores))
unfolding allocate key_of
written width cores taken i h e =
    let fits : ltb (suc cores) width ≡ false = ground arith in rw fits (rw e refl)

-- The highest and the total of a function over the numbers from `i` on, `n` of them.
abbrev pub highest : (ℕ → ℕ) → ℕ → ℕ → ℕ
highest f i zero = 0
highest f i (suc n) = max (f i) (highest f (suc i) n)

abbrev pub total : (ℕ → ℕ) → ℕ → ℕ → ℕ
total f i zero = 0
total f i (suc n) = f i + total f (suc i) n

-- How often the taken sets name the core that is `i` further than the start, around the host.
abbrev pub named_at : List (List ℕ) → ℕ → ℕ → ℕ → ℕ
named_at taken cores start i = covers_of ((start + i) % cores) taken

mod_lt : (a n : ℕ) → 0 < n → a % n < n
mod_lt a n p = omega arith

module _ (taken : List (List ℕ)) (cores start : ℕ) (p : 0 < cores) where
  named_cover :
      (i : ℕ)
      → get_or (count_covers taken (zeros cores)) ((start + i) % cores)
        ≡ named_at taken cores start i
  named_cover i = count_covers_lem taken cores ((start + i) % cores) (mod_lt (start + i) cores p)

  peak-highest :
      (i n : ℕ)
      → peak_of (span_from (count_covers taken (zeros cores)) cores start i n)
        ≡ highest (named_at taken cores start) i n
  peak-highest i zero = refl
  peak-highest i (suc n) = rw (named_cover i, peak-highest (suc i) n) refl

  sum-total :
      (i n : ℕ)
      → sum_of (span_from (count_covers taken (zeros cores)) cores start i n)
        ≡ total (named_at taken cores start) i n
  sum-total i zero = refl
  sum-total i (suc n) = rw (named_cover i, sum-total (suc i) n) refl

-- A window from `a` that is no worse than one from `b`: its core most often named is named less
-- often; or as often, and its cores are named less often together; or as often, and it starts no
-- later.
abbrev pub NoWorse : (ℕ → ℕ → ℕ) → ℕ → ℕ → ℕ → Type 0
NoWorse named width a b =
    let peak = λ (s : ℕ). highest (named s) 0 width in
    let sum = λ (s : ℕ). total (named s) 0 width in
    (peak a < peak b) ⊎ ((peak a ≡ peak b) × ((sum a < sum b) ⊎ ((sum a ≡ sum b) × (a ≤ b))))

ordered :
    (a b : Key)
    → key_lt b a ≡ false
    → (a.peak < b.peak)
      ⊎ ((a.peak ≡ b.peak) × ((a.total < b.total) ⊎ ((a.total ≡ b.total) × (a.start ≤ b.start))))
unfolding key_lt
ordered a b h = ground arith

key_of-NoWorse :
    (taken : List (List ℕ)) (cores width a b : ℕ)
    → 0 < cores
    → (let key = key_of (count_covers taken (zeros cores)) cores width in
        key_lt (key b) (key a) ≡ false)
    → NoWorse (named_at taken cores) width a b
unfolding key_of
key_of-NoWorse taken cores width a b p h =
    let key = key_of (count_covers taken (zeros cores)) cores width in
    rw (← peak-highest taken cores a p 0 width, ← peak-highest taken cores b p 0 width)
      (rw (← sum-total taken cores a p 0 width, ← sum-total taken cores b p 0 width)
        (ordered (key a) (key b) h))

-- When the width fits a host of at least one core, `allocate` writes a window of exactly that
-- width, one core at least, from a start on the host; counted around the host, no other start has
-- a window whose most named core is named less often by the taken sets, nor, where this is equal,
-- one whose cores are named less often together, nor, where this is equal too, an earlier one.
pub allocate_least :
    (width cores : ℕ) (taken : List (List ℕ))
    → width ≤ cores
    → 0 < cores
    → (start : ℕ) × (start < cores)
      × (allocate width cores taken ≡ ok (window start (max 1 width) cores))
      × ((other : ℕ) → other < cores → NoWorse (named_at taken cores) (max 1 width) start other)
allocate_least width zero taken h p = absurd (omega arith)
allocate_least width (suc cores) taken h p =
    let key = key_of (count_covers taken (zeros (suc cores))) (suc cores) (max 1 width) in
    let (i, low, e, least) = best_start key cores in
    (
      i,
      low,
      written width cores taken i h e,
      λ other l. key_of-NoWorse taken (suc cores) (max 1 width) i other p (least other l),
    )

-- A width that does not fit the host is refused.
pub allocate_refused :
    (width cores : ℕ) (taken : List (List ℕ))
    → cores < width
    → allocate width cores taken ≡ raised does_not_fit
unfolding allocate
allocate_refused width cores taken h = ground arith
