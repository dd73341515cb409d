-- ===== src/Placement/Worker.antt =====
-- What placement reads of a worker and of a runner's spec (dashboard/control/placement.py).
use nomercy_github_runner.Prelude.{ℕ, ◌+◌, Bool, true, false, Option, none, some, List, ◌==◌}
use nomercy_github_runner.States.Names.{State}

pub data Platform : Type 0 where
  linux windows macos : Platform

pub data Runtime : Type 0 where
  linux_container windows_process macos_appliance : Runtime
  other_runtime : ℕ → Runtime

abbrev runtime_code : Runtime → ℕ
runtime_code linux_container = 0
runtime_code windows_process = 1
runtime_code macos_appliance = 2
runtime_code (other_runtime n) = n + 3

abbrev pub runtime_eq : Runtime → Runtime → Bool
runtime_eq a b = runtime_code a == runtime_code b

-- RUNTIME_KIND
abbrev pub runtime_kind : Platform → Runtime
runtime_kind linux = linux_container
runtime_kind windows = windows_process
runtime_kind macos = macos_appliance

abbrev pub is_macos : Platform → Bool
is_macos macos = true
is_macos _ = false

pub data Number : Type 0 where
  number : ℕ → Number
  negative : Number

-- The number as it is compared from above: nothing is below zero there.
abbrev pub to_nat : Number → ℕ
to_nat (number n) = n
to_nat negative = 0

abbrev pub is_negative : Number → Bool
is_negative (number n) = false
is_negative negative = true

-- int(value or 0)
abbrev pub number_or_zero : Option Number → Number
number_or_zero none = number 0
number_or_zero (some n) = n

pub record Worker : Type 0 where
  pub host_id : ℕ
  pub capacity_valid : Option Bool
  pub disk_quota : Option Bool
  pub disk_limit_enforced : Option Bool
  pub appliance_per_runner : Option Bool
  pub cpu_enforcement : Option Bool
  pub memory_enforcement : Option Bool
  pub kind : Option Runtime
  pub architecture : Option ℕ
  pub logical_cpus : Option Number
  pub host_cores : Option Number
  pub hardware_memory_bytes : Option Number
  pub memory_total_bytes : Option Number
  pub builds_from_template : Bool
  pub templates : List ℕ
  pub max_runners : Option Number
  pub memory_bytes : Option Number
  pub memory_commit_bytes : Option Number
  pub swap_bytes : Option Number
  pub bounded_overcommit : Bool
  pub per_runner_memory_overhead_bytes : Option Number

-- A runner's spec; a limit that is not set is zero, and `runtime_template` is its first word.
pub record Spec : Type 0 where
  pub runner_id : ℕ
  pub host_id : Option ℕ
  pub actual_state : State
  pub platform : Platform
  pub architecture : Option ℕ
  pub cpu_width : ℕ
  pub cpu_limit : List ℕ
  pub memory_limit : ℕ
  pub memory_swap_limit : ℕ
  pub disk_limit : ℕ
  pub runtime_template : Option ℕ
