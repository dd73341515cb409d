-- ===== src/Specs.antt =====
-- dashboard/store/specs.py: the table of runner specs, changed under optimistic versions, and the
-- rows that the control plane keeps of a runner.
--
-- Identifiers and moments are numbers. A change to a row is a function on it, standing for the
-- columns that the caller sets; the columns that no caller may set, `runner_id` first, are those
-- that a theorem asks a change to keep.
pub mod Versions
use nomercy_github_runner.Prelude.{
  ℕ, ◌+◌, Bool, true, false, not, ◌&&◌, ◌||◌, Option, none, some, List, [], ◌∷◌, ◌++◌, find_first,
  is_some, keep, sort_by, ltb, ◌==◌, if◌then◌else◌,
}
use nomercy_github_runner.States.Names.{State, state_eq}
use nomercy_github_runner.Reconciler.Decide.{Desired}

-- The words of the forge about a runner; `unanswered` is its not answering.
pub data ForgeWord : Type 0 where
  says_idle says_busy says_offline unanswered : ForgeWord

-- `settings` stands for the columns that the reconciler copies whole: the limits, the template, the
-- labels, the cache policy and the runner group.
pub record Spec : Type 0 where
  pub runner_id : ℕ
  pub fleet_id : Option ℕ
  pub host_id : Option ℕ
  pub provider : ℕ
  pub desired_state : Desired
  pub actual_state : State
  pub spec_version : ℕ
  pub created_at : ℕ
  pub current_operation : Option ℕ
  pub last_error : Option ℕ
  pub exec_unit_ref : Option ℕ
  pub registration_id : Option ℕ
  pub registration_uuid : Option ℕ
  pub forge_seen_at : Option ℕ
  pub forge_event : Option ℕ
  pub drain_first : Bool
  pub deleted_at : Option ℕ
  pub last_note : Option ℕ
  pub settings : ℕ
  pub forge_state : Option ForgeWord
  pub forge_labels : Option ℕ
  pub forge_labels_at : Option ℕ

abbrev pub Specs : Type 0
Specs = List Spec

abbrev pub is_runner : ℕ → Spec → Bool
is_runner i s = s.runner_id == i

unfoldable pub get_spec : ℕ → Specs → Option Spec
get_spec i specs = find_first (is_runner i) specs

-- StaleSpec with both versions, and UnknownSpec.
pub data SpecError : Type 0 where
  stale : ℕ → ℕ → ℕ → SpecError
  unknown_spec : ℕ → SpecError

-- What a write returns: the new version, a refusal, or nothing for a superseded observation.
pub data Written : Type 0 where
  version : ℕ → Written
  written : Written
  superseded : Written
  raised : SpecError → Written

-- `_explain_failed_write`
abbrev pub explain : ℕ → ℕ → Option Spec → Written
explain i expected none = raised (unknown_spec i)
explain i expected (some s) = raised (stale i expected s.spec_version)

abbrev pub bumped : (Spec → Spec) → Spec → Spec
bumped change s = record (change s) { spec_version = s.spec_version + 1 }

-- UPDATE runner_specs SET … WHERE runner_id = i AND (test)
abbrev pub update_where : ℕ → (Spec → Bool) → (Spec → Spec) → Specs → Specs
update_where i test f [] = []
update_where i test f (s ∷ specs) =
    (if is_runner i s && test s then f s else s) ∷ update_where i test f specs

abbrev pub at_version : ℕ → Spec → Bool
at_version v s = s.spec_version == v

-- Whether the statement changes a row.
abbrev pub matches : ℕ → (Spec → Bool) → Option Spec → Bool
matches i test none = false
matches i test (some s) = test s

-- `update`: the change is applied if the row is still at the version.
unfoldable pub update : ℕ → ℕ → (Spec → Spec) → Specs → Written × Specs
unfolding get_spec
update i v change specs =
    let found = get_spec i specs in
    if matches i (at_version v) found
    then (version (v + 1), update_where i (at_version v) (bumped change) specs)
    else (explain i v found, specs)

abbrev pub option_eq : Option ℕ → Option ℕ → Bool
option_eq none none = true
option_eq (some a) (some b) = a == b
option_eq _ _ = false

-- (current.get("forge_seen_at") or "") > captured_at
abbrev pub seen_after : Option ℕ → ℕ → Bool
seen_after none captured = false
seen_after (some at) captured = ltb captured at

-- The evidence of an observation: the columns that must not have moved since it was read.
unfoldable pub same_evidence : Spec → ℕ → Spec → Bool
same_evidence expected captured s =
    s.provider == expected.provider
    && (option_eq s.registration_id expected.registration_id
        && (option_eq s.registration_uuid expected.registration_uuid
            && (state_eq s.actual_state expected.actual_state
                && (not (seen_after s.forge_seen_at captured)
                    && option_eq s.forge_event expected.forge_event))))

-- `update_observed`, of a new state and its error
unfoldable pub update_observed : Spec → ℕ → (Spec → Spec) → Specs → Written × Specs
unfolding get_spec
update_observed expected captured change specs =
    let i = expected.runner_id in
    let v = expected.spec_version in
    let found = get_spec i specs in
    if not (matches i (at_version v) found)
    then (explain i v found, specs)
    else if not (matches i (same_evidence expected captured) found)
    then (superseded, specs)
    else (version (v + 1), update_where i (at_version v) (bumped change) specs)

abbrev pub deleted : ℕ → Spec → Spec
deleted now s = record s { deleted_at = some now; desired_state = Desired.absent }

abbrev pub may_delete : Option ℕ → Spec → Bool
may_delete none s = true
may_delete (some v) s = at_version v s

abbrev or_zero : Option ℕ → ℕ
or_zero none = 0
or_zero (some v) = v

-- `soft_delete`, at a version when one is given
unfoldable pub soft_delete : ℕ → ℕ → Option ℕ → Specs → Written × Specs
unfolding get_spec
soft_delete now i v specs =
    let found = get_spec i specs in
    if matches i (may_delete v) found
    then (written, update_where i (may_delete v) (bumped (deleted now)) specs)
    else (explain i (or_zero v) found, specs)

-- `list`, without the deleted rows: newest first, then by runner_id.
abbrev pub before : Spec → Spec → Bool
before a b =
    ltb b.created_at a.created_at || (a.created_at == b.created_at && ltb a.runner_id b.runner_id)

abbrev kept : Spec → Bool
kept s = not (is_some s.deleted_at)

unfoldable pub list_specs : Specs → Specs
list_specs specs = sort_by before (keep kept specs)

-- `create`: the identifier is minted by the store, and no version but the first is written.
unfoldable pub create : ℕ → ℕ → Spec → Specs → Specs
create new_id now fields specs =
    specs
    ++ record fields { runner_id = new_id; created_at = now; spec_version = 1; deleted_at = none }
      ∷ []
