-- ===== src/Placement/Suits.antt =====
-- Whether a worker suits a runner at all: the tests of `choose` before those on room
-- (dashboard/control/placement.py, hardware.py).
use nomercy_github_runner.Prelude.{
  ℕ, ◌+◌, ◌*◌, Bool, true, false, not, ◌&&◌, ◌||◌, Option, none, some, List, [], ◌∷◌, any, keep,
  length, is_some, or_else, ltb, ◌==◌, if◌then◌else◌,
}
use nomercy_github_runner.Text.{strip, contains_code}
use nomercy_github_runner.Cpusets.{Parsed, parse}
use nomercy_github_runner.Placement.Worker.{
  Number, Platform, Runtime, Spec, Worker, is_macos, runtime_eq, runtime_kind, to_nat,
}

-- `declared(…) is True` and `is False`
abbrev pub is_true : Option Bool → Bool
is_true (some true) = true
is_true _ = false

abbrev pub is_false : Option Bool → Bool
is_false (some false) = true
is_false _ = false

unfoldable pub enforces_disk_quota : Worker → Bool
enforces_disk_quota w =
    if is_some w.disk_quota then is_true w.disk_quota else is_true w.disk_limit_enforced

unfoldable pub enforces_appliance_limits : Worker → Bool
enforces_appliance_limits w =
    is_true w.appliance_per_runner && (is_true w.cpu_enforcement && is_true w.memory_enforcement)

-- hardware._count: a number above zero
abbrev pub count_of : Option Number → Option ℕ
count_of none = none
count_of (some n) = if ltb 0 (to_nat n) then some (to_nat n) else none

abbrev first_of : Option ℕ → Option ℕ → Option ℕ
first_of none b = b
first_of (some a) b = some a

-- `of_worker`: the logical CPUs and the memory that is measured, where the worker has said.
unfoldable pub cpus_of : Worker → Option ℕ
cpus_of w = first_of (count_of w.logical_cpus) (count_of w.host_cores)

unfoldable pub measured_memory_of : Worker → Option ℕ
measured_memory_of w = first_of (count_of w.hardware_memory_bytes) (count_of w.memory_total_bytes)

abbrev cores_of : Parsed (List ℕ) → Option ℕ
cores_of (Parsed.ok cores) = some (length cores * 1000)
cores_of (Parsed.raised e) = none

abbrev quota_of : (List ℕ → Option ℕ) → List ℕ → Option ℕ
quota_of float_of [] = none
quota_of float_of (c ∷ text) =
    if contains_code b'-' (c ∷ text) || contains_code b',' (c ∷ text)
    then cores_of (parse (c ∷ text))
    else float_of (c ∷ text)

-- `_cores_asked`
unfoldable pub cores_asked : (List ℕ → Option ℕ) → Spec → Option ℕ
cores_asked float_of s =
    if ltb 0 s.cpu_width then some (s.cpu_width * 1000) else quota_of float_of (strip s.cpu_limit)

abbrev exceeds : ℕ → Option ℕ → Bool
exceeds asked none = false
exceeds asked (some have) = ltb have asked

abbrev in_thousandths : Option ℕ → Option ℕ
in_thousandths none = none
in_thousandths (some cpus) = some (cpus * 1000)

abbrev too_many_cores : Option ℕ → Worker → Bool
too_many_cores none w = false
too_many_cores (some asked) w = exceeds asked (in_thousandths (cpus_of w))

-- `_too_big_for`, as whether there is a reason
unfoldable pub too_big_for : (List ℕ → Option ℕ) → Spec → Worker → Bool
unfolding cpus_of measured_memory_of
too_big_for float_of s w =
    too_many_cores (cores_asked float_of s) w || exceeds s.memory_limit (measured_memory_of w)

abbrev pub sum_of : (Spec → ℕ) → List Spec → ℕ
sum_of f [] = 0
sum_of f (s ∷ specs) = f s + sum_of f specs

abbrev pub is_on : ℕ → Spec → Bool
is_on host s = elim s.host_id [ none ↦ false | some h ↦ h == host ]

abbrev pub occupants : ℕ → List Spec → List Spec
occupants host placed = keep (is_on host) placed

-- Why a worker does not qualify.
pub data Reason : Type 0 where
  capacity_not_backed no_disk_quota no_appliance_limits wrong_runtime wrong_architecture : Reason
  too_big template_missing full invalid_commitment ceiling_too_high swap_below_ram : Reason
  no_ram_for_unswappable invalid_overhead unknown_memory not_enough_memory : Reason

-- drives != want_runtime and (drives or want_runtime is the appliance)
abbrev pub drives_other : Option Runtime → Platform → Bool
drives_other none p = is_macos p
drives_other (some r) p = not (runtime_eq r (runtime_kind p))

abbrev pub x64 : ℕ
x64 = 0

abbrev pub has_template : Worker → Option ℕ → Bool
has_template w none = false
has_template w (some t) = any (λ u. t == u) w.templates

-- The tests before those on room, in the order of the code.
unfoldable pub misfit : (List ℕ → Option ℕ) → Spec → Worker → Option Reason
misfit float_of s w =
    if is_false w.capacity_valid
    then some capacity_not_backed
    else if ltb 0 s.disk_limit && not (enforces_disk_quota w)
    then some no_disk_quota
    else if is_macos s.platform
        && ((ltb 0 (length s.cpu_limit) || ltb 0 s.memory_limit)
            && not (enforces_appliance_limits w))
    then some no_appliance_limits
    else if drives_other w.kind s.platform
    then some wrong_runtime
    else if not (or_else w.architecture x64 == or_else s.architecture x64)
    then some wrong_architecture
    else if too_big_for float_of s w
    then some too_big
    else if w.builds_from_template && not (has_template w s.runtime_template)
    then some template_missing
    else none
