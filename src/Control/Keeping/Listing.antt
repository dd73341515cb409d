-- ===== src/Control/Keeping/Listing.antt =====
-- What is known of the specs that a listing brings (`SpecStore.list` of dashboard/store/specs.py).
use nomercy_github_runner.Prelude.{
  ◌≡◌, true, false, some, [], ◌∷◌, any, All, All-keep, All-sort_by, ◌==◌, arith,
}
use nomercy_github_runner.Specs.{Spec, Specs, get_spec, list_specs}
use nomercy_github_runner.Control.World.{World}
use nomercy_github_runner.Control.Evolves.{ids, distinct, near_self}
use nomercy_github_runner.Control.Rules.{Knows}

-- The row that a look at its own key finds.
abbrev HasRow : Specs → Spec → Type 0
HasRow specs s = get_spec s.runner_id specs ≡ some s

past_other :
    (s : Spec) (l specs : Specs)
    → any (λ j. s.runner_id == j) (ids l) ≡ false
    → All (HasRow specs) l
    → All (HasRow (s ∷ specs)) l
unfolding get_spec
past_other s [] specs h all = tt
past_other s (r ∷ l) specs h all =
    (ground (arith, all.0), past_other s l specs (ground arith) all.1)

found-All : (specs : Specs) → distinct (ids specs) ≡ true → All (HasRow specs) specs
unfolding distinct get_spec
found-All [] d = tt
found-All (s ∷ specs) d =
    (ground arith, past_other s specs specs (ground arith) (found-All specs (ground arith)))

found_known : (w : World) (l : Specs) → All (HasRow w.specs) l → Knows w l
found_known w [] h = tt
found_known w (s ∷ l) h = (
  record { row = s; found = h.0; version = omega arith; unbumped = λ e. near_self s.actual_state },
  found_known w l h.1,
)

-- specs.list()
pub listed-Knows : (w : World) → distinct (ids w.specs) ≡ true → Knows w (list_specs w.specs)
unfolding list_specs
listed-Knows w d =
    found_known w _
      (All-sort_by (HasRow w.specs) _ _ (All-keep (HasRow w.specs) _ w.specs (found-All w.specs d)))
