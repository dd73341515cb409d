-- ===== src/Text/Decimal.antt =====
-- `str` of a number and `int` of its text.
use nomercy_github_runner.Prelude.{
  ℕ, zero, suc, ◌+◌, ◌-◌, ◌*◌, ◌/◌, ◌%◌, ◌<◌, ◌≡◌, true, List, [], ◌∷◌, ◌++◌, arith, all, refl,
}
use nomercy_github_runner.Text.{is_digit, is_digits, int_from, int_of, digits, str_of}

int_from-snoc :
    (acc : ℕ) (s : List ℕ) (c : ℕ) → int_from acc (s ++ c ∷ []) ≡ int_from acc s * 10 + (c - 48)
unfolding int_from
int_from-snoc acc [] c = refl
int_from-snoc acc (d ∷ s) c = int_from-snoc (acc * 10 + (d - 48)) s c

int_from-digit : (n : ℕ) → int_from 0 ((48 + n) ∷ []) ≡ n
unfolding int_from
int_from-digit n = omega arith

int_from-digits : (f n : ℕ) → n < f → int_from 0 (digits f n) ≡ n
unfolding digits
int_from-digits zero n h = elim h [ ]
int_from-digits (suc f) n h = ground (
  arith,
  int_from-digit n,
  int_from-snoc 0 (digits f (n / 10)) (48 + n % 10),
  int_from-digits f (n / 10),
)

-- `int` reads back the text that `str` writes.
pub int_of-str_of : (n : ℕ) → int_of (str_of n) ≡ n
unfolding int_of str_of
int_of-str_of n = int_from-digits (suc n) n (omega arith)

all_digits-snoc :
    (s : List ℕ) (c : ℕ)
    → all is_digit s ≡ true
    → is_digit c ≡ true
    → all is_digit (s ++ c ∷ []) ≡ true
all_digits-snoc [] c h k = ground arith
all_digits-snoc (d ∷ s) c h k = ground (arith, all_digits-snoc s c)

digit_is_digit : (d : ℕ) → d < 10 → is_digit (48 + d) ≡ true
digit_is_digit d h = ground arith

all-digits : (f n : ℕ) → all is_digit (digits f n) ≡ true
unfolding digits
all-digits zero n = refl
all-digits (suc f) n = ground (
  arith,
  digit_is_digit n,
  digit_is_digit (n % 10),
  all-digits f (n / 10),
  all_digits-snoc (digits f (n / 10)) (48 + n % 10),
)

pub all_digits-str_of : (n : ℕ) → all is_digit (str_of n) ≡ true
unfolding str_of
all_digits-str_of n = all-digits (suc n) n

snoc_nonempty :
    (s : List ℕ) (c : ℕ) → all is_digit (s ++ c ∷ []) ≡ true → is_digits (s ++ c ∷ []) ≡ true
unfolding is_digits
snoc_nonempty [] c h = ground arith
snoc_nonempty (d ∷ s) c h = ground arith

pub is_digits-str_of : (n : ℕ) → is_digits (str_of n) ≡ true
unfolding str_of digits is_digits
is_digits-str_of n = ground (
  arith,
  digit_is_digit n,
  digit_is_digit (n % 10),
  all-digits n (n / 10),
  all_digits-snoc (digits n (n / 10)) (48 + n % 10),
  snoc_nonempty (digits n (n / 10)) (48 + n % 10),
)

-- Only digits pass `isdigit`.
pub all_digits_of : (s : List ℕ) → is_digits s ≡ true → all is_digit s ≡ true
unfolding is_digits
all_digits_of s h = ground arith
