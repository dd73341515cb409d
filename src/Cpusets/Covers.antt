-- ===== src/Cpusets/Covers.antt =====
-- What the counts of `allocate` say: how often the taken sets name each core.
use nomercy_github_runner.Prelude.{
  ℕ, zero, suc, ◌+◌, ◌<◌, ◌≡◌, refl, sym, ap, subst, ◌∙◌, false, List, [], ◌∷◌, arith, ◌==◌, inl,
  inr, Bool-cases, count_if, length, ==_iff,
}
use nomercy_github_runner.Cpusets.{count_covers, zeros, bump, bump_all, get_or}

bump_self :
    (core : ℕ) (cover : List ℕ)
    → core < length cover
    → get_or (bump core cover) core ≡ suc (get_or cover core)
bump_self core [] h = absurd (omega arith)
bump_self zero (x ∷ xs) h = refl
bump_self (suc core) (x ∷ xs) h = bump_self core xs (omega arith)

bump_other :
    (core c : ℕ) (cover : List ℕ)
    → (c == core) ≡ false
    → get_or (bump core cover) c ≡ get_or cover c
bump_other core c [] h = refl
bump_other zero zero (x ∷ xs) h = ground arith
bump_other zero (suc c) (x ∷ xs) h = refl
bump_other (suc core) zero (x ∷ xs) h = refl
bump_other (suc core) (suc c) (x ∷ xs) h = bump_other core c xs (ground arith)

length-bump : (core : ℕ) (cover : List ℕ) → length (bump core cover) ≡ length cover
length-bump core [] = refl
length-bump zero (x ∷ xs) = refl
length-bump (suc core) (x ∷ xs) = ap suc (length-bump core xs)

length-bump_all : (used cover : List ℕ) → length (bump_all used cover) ≡ length cover
length-bump_all [] cover = refl
length-bump_all (core ∷ used) cover =
    length-bump_all used (bump core cover) ∙ length-bump core cover

-- How often a core is named by a list.
abbrev times : ℕ → List ℕ → ℕ
times c = count_if (λ d. c == d)

bump_all_lem :
    (used cover : List ℕ) (c : ℕ)
    → c < length cover
    → get_or (bump_all used cover) c ≡ get_or cover c + times c used
bump_all_lem [] cover c h = omega arith
bump_all_lem (core ∷ used) cover c h = elim (Bool-cases (c == core)) [
  | inl e ↦ ground (
    arith,
    bump_all_lem used (bump core cover) c,
    length-bump core cover,
    bump_self core cover,
    subst (λ j. get_or (bump core cover) j ≡ suc (get_or cover j)) (sym ((==_iff c core).0 e))
        (bump_self core cover (rw (← (==_iff c core).0 e) h)),
  )
  | inr n ↦ ground (
    arith,
    bump_all_lem used (bump core cover) c,
    length-bump core cover,
    bump_other core c cover,
  )
]

-- The sum over the taken sets of how often each names the core.
abbrev pub covers_of : ℕ → List (List ℕ) → ℕ
covers_of c [] = 0
covers_of c (used ∷ taken) = times c used + covers_of c taken

count_covers-from :
    (taken : List (List ℕ)) (cover : List ℕ) (c : ℕ)
    → c < length cover
    → get_or (count_covers taken cover) c ≡ get_or cover c + covers_of c taken
unfolding count_covers
count_covers-from [] cover c h = omega arith
count_covers-from (used ∷ taken) cover c h = ground (
  arith,
  count_covers-from taken (bump_all used cover) c,
  bump_all_lem used cover c h,
  length-bump_all used cover,
)

length-zeros : (n : ℕ) → length (zeros n) ≡ n
length-zeros zero = refl
length-zeros (suc n) = ap suc (length-zeros n)

get_or-zeros : (n c : ℕ) → get_or (zeros n) c ≡ 0
get_or-zeros zero c = refl
get_or-zeros (suc n) zero = refl
get_or-zeros (suc n) (suc c) = get_or-zeros n c

-- The cover of a core of the host is the number of times that the taken sets name it.
pub count_covers_lem :
    (taken : List (List ℕ)) (cores c : ℕ)
    → c < cores
    → get_or (count_covers taken (zeros cores)) c ≡ covers_of c taken
count_covers_lem taken cores c h =
    omega (arith, count_covers-from taken (zeros cores) c (rw length-zeros h), get_or-zeros cores c)
