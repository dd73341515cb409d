-- ===== src/Tests/Hosts.antt =====
-- Instances of the theorems on placement.py.
use nomercy_github_runner.Prelude.{
  ℕ, false, ◌≡◌, refl, Option, none, some, List, [], ◌∷◌, ◌++◌, length, true,
}
use nomercy_github_runner.States.Names.{State}
use nomercy_github_runner.Placement.Worker.{Number, Platform, Runtime, Spec, Worker}
use nomercy_github_runner.Placement.Suits.{cores_asked, misfit, occupants, too_big_for}
use nomercy_github_runner.Placement.Demand.{no_room}
use nomercy_github_runner.Placement.Choose.{choose, least_fit, less, on, others, reasons, why_not}
use nomercy_github_runner.Placement.Room.{HasSlot, HasMemory}
use nomercy_github_runner.Placement.Choice.{choose_fits, choose_least_loaded}

-- A container host with room for four runners of four units of memory and one of overhead.
abbrev container_host : ℕ → Worker
container_host i = record {
  host_id = i;
  capacity_valid = some true;
  disk_quota = none;
  disk_limit_enforced = none;
  appliance_per_runner = none;
  cpu_enforcement = none;
  memory_enforcement = none;
  kind = some Runtime.linux_container;
  architecture = none;
  logical_cpus = some (Number.number 8);
  host_cores = none;
  hardware_memory_bytes = none;
  memory_total_bytes = none;
  builds_from_template = false;
  templates = [];
  max_runners = some (Number.number 4);
  memory_bytes = some (Number.number 20);
  memory_commit_bytes = none;
  swap_bytes = none;
  bounded_overcommit = false;
  per_runner_memory_overhead_bytes = some (Number.number 1);
}

abbrev runner : ℕ → Option ℕ → Spec
runner i host = record {
  runner_id = i;
  host_id = host;
  actual_state = State.idle;
  platform = Platform.linux;
  architecture = none;
  cpu_width = 2;
  cpu_limit = [];
  memory_limit = 4;
  memory_swap_limit = 0;
  disk_limit = 0;
  runtime_template = none;
}

-- No text is a number.
abbrev no_float : List ℕ → Option ℕ
no_float text = none

abbrev hosts : List Worker
hosts = container_host 1 ∷ container_host 2 ∷ []

abbrev placed : List Spec
placed = runner 11 (some 1) ∷ runner 12 (some 1) ∷ runner 13 (some 2) ∷ []

chosen : choose no_float (runner 14 none) hosts placed ≡ on 2
unfolding choose least_fit why_not misfit no_room too_big_for cores_asked reasons
chosen = refl

choose_fits_example :
    (w : Worker) × (before : List Worker) × (later : List Worker) × (hosts ≡ before ++ w ∷ later)
    × (w.host_id ≡ 2)
    × (misfit no_float (runner 14 none) w ≡ none)
    × HasSlot (length (occupants 2 (others (runner 14 none) placed))) w.max_runners
    × HasMemory
        (runner 14 none)
        (occupants 2 (others (runner 14 none) placed))
        w
        w.memory_commit_bytes
        w.memory_bytes
choose_fits_example = choose_fits no_float (runner 14 none) hosts placed 2 chosen

fits_first :
    why_not no_float (runner 14 none) (others (runner 14 none) placed) (container_host 1) ≡ none
unfolding why_not misfit no_room too_big_for cores_asked
fits_first = refl

choose_least_loaded_example : less (2, 1) (1, 2) ≡ false
choose_least_loaded_example =
    choose_least_loaded no_float (runner 14 none) hosts placed 2 (container_host 1) []
      (container_host 2 ∷ []) chosen refl fits_first
