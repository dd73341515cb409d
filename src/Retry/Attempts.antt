-- ===== src/Retry/Attempts.antt =====
-- How a call under a policy ends, how often it tries and how long it pauses.
use nomercy_github_runner.Prelude.{
  ℕ, zero, suc, ◌+◌, ◌-◌, ◌≤◌, ◌<◌, ◌≡◌, refl, sym, ap, ◌∙◌, true, some, List, [], ◌∷◌, ◌++◌,
  length, arith, le→leb,
}
use mathlib.Core.List.{append_assoc}
use nomercy_github_runner.Retry.{
  Policy, accepted, Answer, returned, Failure, Ended, value, Trace, get_elem?, caught, after_pause,
  loop, call, tried, paused,
}

abbrev pub drop : ℕ → List ℕ → List ℕ
drop zero xs = xs
drop (suc n) [] = []
drop (suc n) (x ∷ xs) = drop n xs

get_elem?-drop :
    (k : ℕ) (l : List ℕ)
    → k < length l
    → (s : ℕ) × (get_elem? l k ≡ some s) × (drop k l ≡ s ∷ drop (suc k) l)
get_elem?-drop k [] h = absurd (omega arith)
get_elem?-drop zero (x ∷ xs) h = (x, refl, refl)
get_elem?-drop (suc k) (x ∷ xs) h = get_elem?-drop k xs (omega arith)

accepted-length : (p : Policy) → accepted p ≡ true → length p.backoff ≡ p.retries
unfolding accepted
accepted-length p h = ground arith

module _ {A E : Type 0} (p : Policy) (answer : ℕ → Answer A E) where
  loop_failed :
      (n attempt : ℕ) (last e : Failure E) (t : Trace)
      → caught attempt (answer attempt) ≡ some e
      → loop p answer (suc n) attempt last t
        ≡ after_pause p answer (loop p answer n (suc attempt) e) attempt (tried t)
  unfolding loop
  loop_failed n attempt last e t h = ground arith

  loop_returned :
      (n attempt : ℕ) (last : Failure E) (t : Trace) (a : A)
      → answer attempt ≡ returned a
      → loop p answer (suc n) attempt last t ≡ (value a, tried t)
  unfolding loop
  loop_returned n attempt last t a h = ground arith

  -- The trace after `k` attempts: their number, and the first `k` pauses of the policy.
  record After (k : ℕ) (t : Trace) : Type 0 where
    counted : t.attempts ≡ k
    listed : t.pauses ++ drop k p.backoff ≡ p.backoff

  start_After : After 0 (record { attempts = 0; pauses = [] })
  start_After = record { counted = refl; listed = refl }

  pred_lem : (k : ℕ) → suc k - 1 ≡ k
  pred_lem k = omega arith

  -- A failed attempt with a retry left pauses as its policy says and is followed by the next one.
  next_attempt :
      (n k : ℕ) (last e : Failure E) (t : Trace)
      → accepted p ≡ true
      → suc k ≤ p.retries
      → caught (suc k) (answer (suc k)) ≡ some e
      → After k t
      → (t' : Trace) × (loop p answer (suc n) (suc k) last t ≡ loop p answer n (suc (suc k)) e t')
        × After (suc k) t'
  next_attempt n k last e t ok left fails b =
      let (s, found, rest) = get_elem?-drop k p.backoff (omega (arith, accepted-length p ok)) in
      (
        paused s (tried t),
        loop_failed n (suc k) last e t fails
            ∙ rw (le→leb (suc k) p.retries left) (rw pred_lem (rw found refl)),
        record {
          counted = omega (arith, b.counted);
          listed =
              append_assoc t.pauses (s ∷ []) (drop (suc k) p.backoff)
              ∙ ap (λ r. t.pauses ++ r) (sym rest)
              ∙ b.listed;
        },
      )

  -- The m attempts after `k` of them fail, and the next one returns.
  returns_at :
      (f : ℕ → Failure E) (a : A) (m r k : ℕ) (last : Failure E) (t : Trace)
      → accepted p ≡ true
      → m ≤ r
      → k + r ≡ p.retries
      → ((i : ℕ) → 0 < i → i ≤ k + m → caught i (answer i) ≡ some (f i))
      → answer (suc (k + m)) ≡ returned a
      → After k t
      → (t' : Trace) × (loop p answer (suc r) (suc k) last t ≡ (value a, t'))
        × (t'.attempts ≡ suc (k + m))
        × (t'.pauses ++ drop (k + m) p.backoff ≡ p.backoff)
  returns_at f a zero r k last t ok le room fails answered b = (
    tried t,
    loop_returned r (suc k) last t a (ap answer (omega arith) ∙ answered),
    omega (arith, b.counted),
    ap (λ j. t.pauses ++ drop j p.backoff) (omega arith) ∙ b.listed,
  )
  returns_at f a (suc m) zero k last t ok le room fails answered b = absurd (omega arith)
  returns_at f a (suc m) (suc r) k last t ok le room fails answered b =
      let (t', e, b') =
        next_attempt (suc r) k last (f (suc k)) t ok (omega arith)
          (fails (suc k) (omega arith) (omega arith)) b in
      let (t'', e', counts, pauses) =
        returns_at f a m r (suc k) (f (suc k)) t' ok (omega arith) (omega arith)
          (λ i low high. fails i low (omega arith)) (ap answer (omega arith) ∙ answered) b' in
      (
        t'',
        e ∙ e',
        omega (arith, counts),
        ap (λ j. t''.pauses ++ drop j p.backoff) (omega arith) ∙ pauses,
      )

  abbrev untried : Trace
  untried = record { attempts = 0; pauses = [] }

  rounds : call p answer ≡ loop p answer (suc p.retries) 1 (Failure.deadline_exceeded 0) untried
  unfolding call
  rounds =
      let e : p.retries + 1 ≡ suc p.retries = omega arith in
      ap (λ n. loop p answer n 1 (Failure.deadline_exceeded 0) untried) e

  -- A call under an accepted policy whose first m attempts fail, m at most the retries, and whose
  -- next one returns makes m + 1 attempts and returns that value; its pauses are the policy's
  -- first m.
  call_returns :
      (f : ℕ → Failure E) (a : A) (m : ℕ)
      → accepted p ≡ true
      → m ≤ p.retries
      → ((i : ℕ) → 0 < i → i ≤ m → caught i (answer i) ≡ some (f i))
      → answer (suc m) ≡ returned a
      → ((call p answer).0 ≡ value a)
        × ((call p answer).1.attempts ≡ suc m)
        × ((call p answer).1.pauses ++ drop m p.backoff ≡ p.backoff)
  call_returns f a m ok le fails answered =
      let (t, e, counts, pauses) =
        returns_at f a m p.retries 0 (Failure.deadline_exceeded 0) untried ok le (omega arith)
          (λ i low high. fails i low (omega arith))
          (ap (λ j. answer (suc j)) (omega arith) ∙ answered) start_After in
      let whole = rounds ∙ e in
      (
        ap (λ (r : Ended A E × Trace). r.0) whole,
        ap (λ (r : Ended A E × Trace). r.1.attempts) whole ∙ counts ∙ omega arith,
        ap (λ (r : Ended A E × Trace). r.1.pauses ++ drop m p.backoff) whole
            ∙ ap (λ j. t.pauses ++ drop j p.backoff) (omega arith)
            ∙ pauses,
      )
