-- ===== src/Reconciler/Capacity/Counts.antt =====
-- What a pass does to the number of a fleet's runners.

use nomercy_github_runner.Prelude.{
  ℕ, ◌+◌, ◌-◌, ◌<◌, ◌≡◌, refl, sym, ap, ◌∙◌, subst, Bool, true, false, not, ◌&&◌, some, List, [],
  ◌∷◌, ◌++◌, arith, length, take, drop, keep, count_if, All, IsSorted, IsOrder, sort_by,
  count-sort_by, sort_by-IsSorted, IsSorted-split, take-append-drop, count_if-all, count_if-append,
  length-take, length-append, ◌∷◌, some,
}
use nomercy_github_runner.States.Names.{State, state_eq}
use nomercy_github_runner.Specs.{Spec, option_eq}
use nomercy_github_runner.Reconciler.Capacity.{
  Fleet, plan, scale_down, goes_before, fleet_specs, is_keeper, converge_capacity,
}

-- A runner of the fleet that is not gone: planned, on its way, in service or on its way out.
abbrev pub is_of : ℕ → Spec → Bool
is_of fleet s = option_eq s.fleet_id (some fleet) && not (state_eq s.actual_state State.absent)

length-fleet_specs :
    (fleet : ℕ) (specs : List Spec)
    → length (fleet_specs fleet specs) ≡ count_if (is_of fleet) specs
unfolding fleet_specs
length-fleet_specs fleet [] = refl
length-fleet_specs fleet (s ∷ specs) = ground (arith, length-fleet_specs fleet specs)

-- A pass plans exactly what is missing: with the rows of the fleet whose state is not absent, so
-- those on their way in and on their way out counted too, the fleet then has its desired number and
-- no more. It plans only for a fleet that is available, and only when something is missing.
pub plan_never_overshoots :
    (fleet : Fleet) (specs : List Spec) (n : ℕ)
    → converge_capacity fleet specs ≡ plan n
    → (count_if (is_of fleet.fleet_id) specs + n ≡ fleet.desired_capacity)
      × (0 < n)
      × (fleet.available ≡ true)
unfolding converge_capacity
plan_never_overshoots fleet specs n h = ground (arith, length-fleet_specs fleet.fleet_id specs)

goes_before-IsOrder : IsOrder goes_before
unfolding goes_before
goes_before-IsOrder = record { asym = λ a b h. ground arith; trans = λ a b c h k. ground arith }

-- The keepers of a fleet: its runners that are meant to stay.
abbrev pub keepers : ℕ → List Spec → List Spec
keepers fleet specs = keep is_keeper (fleet_specs fleet specs)

scale_down_victims :
    (fleet : Fleet) (specs victims : List Spec)
    → converge_capacity fleet specs ≡ scale_down victims
    → let ks = keepers fleet.fleet_id specs in
      (victims ≡ take (length ks - fleet.desired_capacity) (sort_by goes_before ks))
      × (fleet.desired_capacity < length ks)
unfolding converge_capacity
scale_down_victims fleet specs victims h = ground arith

-- A scale-down marks exactly the excess: with the runners that it keeps, its victims are the
-- keepers of the fleet, each as often; the kept ones are the desired number, and none of them goes
-- before a victim in the order of cost.
pub scale_down_exact :
    (fleet : Fleet) (specs victims : List Spec) (p : Spec → Bool)
    → converge_capacity fleet specs ≡ scale_down victims
    → (kept : List Spec) × (length kept ≡ fleet.desired_capacity)
      × (count_if p victims + count_if p kept ≡ count_if p (keepers fleet.fleet_id specs))
      × All (λ v. All (λ k. goes_before k v ≡ false) kept) victims
scale_down_exact fleet specs victims p h =
    let ks = keepers fleet.fleet_id specs in
    let n = length ks - fleet.desired_capacity in
    let sorted = sort_by goes_before ks in
    let (same, more) = scale_down_victims fleet specs victims h in
    let parts : take n sorted ++ drop n sorted ≡ sorted = take-append-drop n sorted in
    let len : length sorted ≡ length ks =
      sym (count_if-all sorted) ∙ count-sort_by goes_before (λ x. true) ks ∙ count_if-all ks in
    let len' : length (take n sorted) + length (drop n sorted) ≡ length sorted =
      sym (length-append (take n sorted) (drop n sorted)) ∙ ap length parts in
    let counts : count_if p (take n sorted) + count_if p (drop n sorted) ≡ count_if p ks =
      sym (count_if-append p (take n sorted) (drop n sorted))
      ∙ ap (count_if p) parts
      ∙ count-sort_by goes_before p ks in
    let ordered : IsSorted goes_before (take n sorted ++ drop n sorted) =
      subst (IsSorted goes_before) (sym parts)
        (sort_by-IsSorted goes_before ks goes_before-IsOrder) in
    (
      drop n sorted,
      omega (arith, len, len', length-take n sorted),
      ap (λ vs. count_if p vs + count_if p (drop n sorted)) same ∙ counts,
      subst (λ vs. All (λ v. All (λ k. goes_before k v ≡ false) (drop n sorted)) vs) (sym same)
          (IsSorted-split goes_before (take n sorted) (drop n sorted) ordered),
    )
