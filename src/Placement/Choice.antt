-- ===== src/Placement/Choice.antt =====
-- Which of the workers that qualify is chosen.
use nomercy_github_runner.Prelude.{
  subst, ℕ, ◌≡◌, refl, sym, ap, ◌∙◌, true, false, Option, none, some, List, [], ◌∷◌, ◌++◌, All,
  length, arith, inl, inr, Bool-cases, Option-cases,
}
use nomercy_github_runner.Placement.Worker.{Spec, Worker}
use nomercy_github_runner.Placement.Suits.{Reason, misfit, occupants}
use nomercy_github_runner.Placement.Choose.{answer, choose, least_fit, less, on, others, why_not}
use nomercy_github_runner.Placement.Room.{HasSlot, HasMemory, why_not-none}

less_trans : (a b c : ℕ × ℕ) → less b a ≡ false → less c b ≡ false → less c a ≡ false
less_trans a b c h g = ground arith

less-asym : (a b : ℕ × ℕ) → less a b ≡ true → less b a ≡ false
less-asym a b h = ground arith

module _ (why : Worker → Option Reason) (count : Worker → ℕ) where
  -- A worker that fits has no less than the key `k`.
  abbrev pub NotBefore : ℕ × ℕ → Worker → Type 0
  NotBefore k w = why w ≡ none → less (count w, w.host_id) k ≡ false

  record IsLeastFit (workers : List Worker) (k : ℕ × ℕ) : Type 0 where
    chosen : Worker
    before : List Worker
    later : List Worker
    split : workers ≡ before ++ chosen ∷ later
    fits : why chosen ≡ none
    keyed : k ≡ (count chosen, chosen.host_id)
    least : All (NotBefore k) workers

  lower-All :
      (k k' : ℕ × ℕ) (workers : List Worker)
      → less k' k ≡ false
      → All (NotBefore k') workers
      → All (NotBefore k) workers
  lower-All k k' [] h a = tt
  lower-All k k' (w ∷ workers) h a =
      (λ e. less_trans k k' (count w, w.host_id) h (a.0 e), lower-All k k' workers h a.1)

  none_fit :
      (workers : List Worker) (k : ℕ × ℕ)
      → least_fit why count workers ≡ none
      → All (NotBefore k) workers
  unfolding least_fit
  none_fit [] k h = tt
  none_fit (w ∷ workers) k h = elim (Option-cases (why w)) [
    | inl e ↦ absurd (ground arith)
    | inr (r, e) ↦ (λ f. absurd (ground arith), none_fit workers k (ground arith))
  ]

  less_self : (k : ℕ × ℕ) → less k k ≡ false
  less_self k = ground arith

  -- The first worker is the least fit, if no later one that fits is below it.
  here_least :
      (w : Worker) (workers : List Worker) (k : ℕ × ℕ)
      → why w ≡ none
      → k ≡ (count w, w.host_id)
      → All (NotBefore (count w, w.host_id)) workers
      → IsLeastFit (w ∷ workers) k
  here_least w workers k e same all = record {
    chosen = w;
    before = [];
    later = workers;
    split = refl;
    fits = e;
    keyed = same;
    least =
        subst (λ j. All (NotBefore j) (w ∷ workers)) (sym same)
          (λ f. less_self (count w, w.host_id), all);
  }

  -- A later worker is, if the first one is not below it when it fits.
  later_least :
      (w : Worker) (workers : List Worker) (k : ℕ × ℕ)
      → NotBefore k w
      → IsLeastFit workers k
      → IsLeastFit (w ∷ workers) k
  later_least w workers k first rest = record {
    chosen = rest.chosen;
    before = w ∷ rest.before;
    later = rest.later;
    split = ap (λ ws. w ∷ ws) rest.split;
    fits = rest.fits;
    keyed = rest.keyed;
    least = (first, rest.least);
  }

  least_fit-IsLeastFit :
      (workers : List Worker) (k : ℕ × ℕ)
      → least_fit why count workers ≡ some k
      → IsLeastFit workers k
  unfolding least_fit
  least_fit-IsLeastFit [] k h = absurd (ground arith)
  least_fit-IsLeastFit (w ∷ workers) k h = elim (Option-cases (why w)) [
    | inr (r, e) ↦
        later_least w workers k (λ f. absurd (ground arith))
          (least_fit-IsLeastFit workers k (ground arith))
    | inl e ↦
        let key : ℕ × ℕ = (count w, w.host_id) in
        elim (Option-cases (least_fit why count workers)) [
          | inl r ↦ here_least w workers k e (ground arith) (none_fit workers key r)
          | inr (b, r) ↦
              let rest = least_fit-IsLeastFit workers b r in
              elim (Bool-cases (less b key)) [
                | inl low ↦
                    let same : b ≡ k = ground arith in
                    subst (IsLeastFit (w ∷ workers)) same
                      (later_least w workers b (λ f. less-asym b key low) rest)
                | inr high ↦
                    here_least w workers k e (ground arith)
                      (lower-All key b workers high rest.least)
              ]
        ]
  ]

-- What holds of every worker of a list holds of each.
All-at :
    (P : Worker → Type 0) (before : List Worker) (w : Worker) (later : List Worker)
    → All P (before ++ w ∷ later)
    → P w
All-at P [] w later h = h.0
All-at P (b ∷ before) w later h = All-at P before w later h.1

answer_on :
    (o : Option (ℕ × ℕ)) (why : List (ℕ × Reason)) (host : ℕ)
    → answer o why ≡ on host
    → (k : ℕ × ℕ) × (o ≡ some k) × (k.1 ≡ host)
answer_on (some k) why host h = (k, refl, ground arith)
answer_on none [] host h = absurd (ground arith)
answer_on none (r ∷ why) host h = absurd (ground arith)

abbrev runners_on : Spec → List Spec → Worker → ℕ
runners_on s placed w = length (occupants w.host_id (others s placed))

module _ (float_of : List ℕ → Option ℕ) (s : Spec) (workers : List Worker)
    (placed : List Spec) where
  choose-least_fit :
      (host : ℕ)
      → choose float_of s workers placed ≡ on host
      → (k : ℕ × ℕ) × (least_fit
            (why_not float_of s (others s placed))
            (runners_on s placed)
            workers
          ≡ some k)
        × (k.1 ≡ host)
  unfolding choose
  choose-least_fit host h = answer_on _ _ host h

  -- A runner is placed on the host of one of the workers: nothing speaks against that worker, it
  -- has a slot left, and the memory limits of the runners on it and of the new one are within what
  -- it declares.
  pub choose_fits :
      (host : ℕ)
      → choose float_of s workers placed ≡ on host
      → (w : Worker) × (before : List Worker) × (later : List Worker) × (workers
          ≡ before ++ w ∷ later)
        × (w.host_id ≡ host)
        × (misfit float_of s w ≡ none)
        × HasSlot (length (occupants host (others s placed))) w.max_runners
        × HasMemory s (occupants host (others s placed)) w w.memory_commit_bytes w.memory_bytes
  choose_fits host h =
      let (k, found, same) = choose-least_fit host h in
      let fit =
        least_fit-IsLeastFit (why_not float_of s (others s placed)) (runners_on s placed) workers k
          found in
      let at : fit.chosen.host_id ≡ host = ap (λ (j : ℕ × ℕ). j.1) (sym fit.keyed) ∙ same in
      let (suits, slot, memory) = why_not-none float_of s (others s placed) fit.chosen fit.fits in
      (
        fit.chosen,
        fit.before,
        fit.later,
        fit.split,
        at,
        suits,
        subst (λ j. HasSlot (length (occupants j (others s placed))) fit.chosen.max_runners) at
            slot,
        subst
            (λ j.
              HasMemory s (occupants j (others s placed)) fit.chosen fit.chosen.memory_commit_bytes
                fit.chosen.memory_bytes)
            at memory,
      )

  -- Of the workers that qualify none has fewer runners than the chosen one, and none with as many
  -- has a smaller host.
  pub choose_least_loaded :
      (host : ℕ) (w : Worker) (before later : List Worker)
      → choose float_of s workers placed ≡ on host
      → workers ≡ before ++ w ∷ later
      → why_not float_of s (others s placed) w ≡ none
      → less (runners_on s placed w, w.host_id) (length (occupants host (others s placed)), host)
        ≡ false
  choose_least_loaded host w before later h at' e =
      let (k, found, same) = choose-least_fit host h in
      let fit =
        least_fit-IsLeastFit (why_not float_of s (others s placed)) (runners_on s placed) workers k
          found in
      let at : fit.chosen.host_id ≡ host = ap (λ (j : ℕ × ℕ). j.1) (sym fit.keyed) ∙ same in
      let key : k ≡ (length (occupants host (others s placed)), host) =
        fit.keyed ∙ ap (λ j. (length (occupants j (others s placed)), j)) at in
      subst (λ j. less (runners_on s placed w, w.host_id) j ≡ false) key
        (All-at (NotBefore (why_not float_of s (others s placed)) (runners_on s placed) k) before w
          later
          (subst (All (NotBefore (why_not float_of s (others s placed)) (runners_on s placed) k))
            at' fit.least)
          e)
