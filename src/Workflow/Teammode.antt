-- ===== src/Workflow/Teammode.antt =====
-- src/workflows/teammode-contract.ts and teammode-state-store.ts: the operations on a team after its
-- roster. `transact` reads the team's file, lets an operation decide, and writes what it decided.
pub mod Lifecycle
pub mod Decisions
pub mod Acceptance
pub mod Persistence
use omp_lazy.Prelude.{
  ℕ, suc, String, Bool, true, false, ◌&&◌, ◌||◌, not, List, [], ◌∷◌, Option, none, some, map, find,
  all, any, if◌then◌else◌, ◌==◌, string_eq, nat_eq, option_eq, ◌>>=◌,
}
use omp_lazy.State.Domain.{Run, IndexVersion}
use omp_lazy.State.Receipts.{AcceptanceEvent}
use omp_lazy.Workflow.TeamDomain.{
  RuntimeMember, TeamStatus, TeamState, TeamWorktreeBinding, TextHost, TeamDefinition,
  team_definition_schema, team_state_schema,
}
use omp_lazy.Workflow.TeamRoster.{
  TeamCode, invalid_team, async_team_surfaces_unavailable, initialize_checked, team_missing,
  invalid_team_state, parent_acceptance_incomplete, team_not_completed, team_not_archived,
  invalid_team_name, cwd_mismatch, state_conflict, caller_not_current_parent, TeamAnswer, replayed,
  completed, cancelled, resumed, archived, TeamResult, success, deleted, failure, thrown, TeamScope,
  parsed, fresh_member, in_scope, revised,
}

-- The acceptance of a member's result in the run's present state
abbrev pub accepts : TeamState → TeamScope → RuntimeMember → AcceptanceEvent → Bool
accepts current scope member candidate =
    candidate.attempt == current.attempt
    && candidate.run_revision == scope.run.revision
    && candidate.owner_session_id == scope.run.owner.session_id
    && candidate.owner_epoch == scope.run.owner.epoch
    && candidate.task_generation == scope.task_generation
    && some candidate.actual_agent_id == member.actual_agent_id
    && candidate.actual_job_id == member.actual_job_id
    && candidate.worker_role == member.definition.agent_type

abbrev pub with_acceptance : RuntimeMember → Option AcceptanceEvent → Option RuntimeMember
with_acceptance member none = none
with_acceptance member (some entry) =
    some (record member { acceptance_key = some entry.idempotency_key })

abbrev pub accept_member : TeamState → TeamScope → RuntimeMember → Option RuntimeMember
accept_member current scope member =
    with_acceptance member (find (accepts current scope member) scope.accepted)

abbrev pub cons_some :
    Option RuntimeMember → Option (List RuntimeMember) → Option (List RuntimeMember)
cons_some none rest = none
cons_some (some m) none = none
cons_some (some m) (some ms) = some (m ∷ ms)

-- The members with their acceptances, or nothing when one has none
unfoldable pub accept_members :
    TeamState → TeamScope → List RuntimeMember → Option (List RuntimeMember)
accept_members current scope [] = some []
accept_members current scope (m ∷ ms) =
    cons_some (accept_member current scope m) (accept_members current scope ms)

abbrev pub complete_parsed : TeamState → Option (List RuntimeMember) → TeamResult
complete_parsed current none = failure parent_acceptance_incomplete
complete_parsed current (some members) =
    parsed completed (revised TeamStatus.completed members current)

abbrev pub complete_active : TeamState → TeamScope → TeamResult
complete_active current scope =
    if in_scope current scope
    then complete_parsed current (accept_members current scope current.members)
    else failure invalid_team_state

abbrev pub complete_in : TeamStatus → TeamState → TeamScope → TeamResult
complete_in TeamStatus.completed current scope = success replayed current
complete_in TeamStatus.active current scope = complete_active current scope
complete_in _ current scope = failure invalid_team_state

unfoldable pub complete : Option TeamState → TeamScope → TeamResult
complete none scope = failure team_missing
complete (some current) scope = complete_in current.status current scope

abbrev pub archive_in : TeamStatus → TeamState → TeamResult
archive_in TeamStatus.archived current = success replayed current
archive_in TeamStatus.completed current =
    parsed archived (revised TeamStatus.archived current.members current)
archive_in TeamStatus.cancelled current =
    parsed archived (revised TeamStatus.archived current.members current)
archive_in _ current = failure team_not_completed

unfoldable pub archive : Option TeamState → TeamScope → TeamResult
archive none scope = failure team_missing
archive (some current) scope = archive_in current.status current

abbrev pub cancel_in : TeamStatus → TeamState → TeamResult
cancel_in TeamStatus.cancelled current = success replayed current
cancel_in TeamStatus.initializing current =
    parsed cancelled (revised TeamStatus.cancelled current.members current)
cancel_in TeamStatus.active current =
    parsed cancelled (revised TeamStatus.cancelled current.members current)
cancel_in _ current = failure invalid_team_state

unfoldable pub cancel : Option TeamState → TeamScope → TeamResult
cancel none scope = failure team_missing
cancel (some current) scope = cancel_in current.status current

abbrev pub unbind : RuntimeMember → RuntimeMember
unbind member = fresh_member member.definition

abbrev pub resume_in : TeamStatus → TeamState → TeamResult
resume_in TeamStatus.cancelled current =
    parsed resumed (revised TeamStatus.initializing (map unbind current.members) current)
resume_in _ current = failure invalid_team_state

unfoldable pub resume : Option TeamState → TeamScope → TeamResult
resume none scope = failure team_missing
resume (some current) scope = resume_in current.status current

abbrev pub delete_in : TeamStatus → TeamResult
delete_in TeamStatus.archived = deleted
delete_in _ = failure team_not_archived

unfoldable pub delete : Option TeamState → TeamScope → TeamResult
delete none scope = failure team_missing
delete (some current) scope = delete_in current.status

-- The `schemaVersion` of a team's file, and a status as the file spells it: version 2 says `bound`
-- for `active`.
pub data TeamFileVersion : Type 0 where
  v1 v2 : TeamFileVersion

pub data PersistedStatus : Type 0 where
  as_is : TeamStatus → PersistedStatus
  as_bound : PersistedStatus

-- The status of `body` counts for nothing.
pub record PersistedTeam : Type 0 where
  pub schema_version : TeamFileVersion
  pub spelled : PersistedStatus
  pub body : TeamState

pub data TeamFile : Type 0 where
  missing : TeamFile
  tombstone : TeamFileVersion → TeamFile
  persisted : PersistedTeam → TeamFile

abbrev pub read_status : TeamFileVersion → PersistedStatus → Option TeamStatus
read_status _ (as_is status) = some status
read_status v2 as_bound = some TeamStatus.active
read_status v1 as_bound = none

abbrev pub parse_team : TeamState → Option TeamState
parse_team state = if team_state_schema state then some state else none

abbrev pub parse_persisted : TeamState → Option TeamStatus → Option TeamState
parse_persisted body none = none
parse_persisted body (some status) = parse_team (record body { status = status })

abbrev pub found_team : Option TeamState → Option (Option TeamState)
found_team none = none
found_team (some state) = some (some state)

-- `TeammodeStateStore.read`, nothing when it throws
unfoldable pub read_team : TeamFile → Option (Option TeamState)
read_team missing = some none
read_team (tombstone version) = some none
read_team (persisted team) =
    found_team (parse_persisted team.body (read_status team.schema_version team.spelled))

abbrev pub file_version : IndexVersion → TeamFileVersion
file_version IndexVersion.v1 = v1
file_version (IndexVersion.v2 migration_revision) = v2

abbrev pub spell : TeamFileVersion → TeamStatus → PersistedStatus
spell v2 TeamStatus.active = as_bound
spell _ status = as_is status

unfoldable pub replace_team : IndexVersion → TeamState → TeamFile
replace_team index state = persisted (record {
  schema_version = file_version index;
  spelled = spell (file_version index) state.status;
  body = state;
})

unfoldable pub remove_team : IndexVersion → TeamFile
remove_team index = tombstone (file_version index)

-- What the world answers to a transaction: whether the team's name is valid, the caller is in the
-- repository and the lock is taken, the caller's scope, the version of the index, and whether a
-- write completes.
pub record TeamWorld : Type 0 where
  pub valid_name : Bool
  pub in_root : Bool
  pub locked : Bool
  pub scope : Option TeamScope
  pub index : IndexVersion
  pub written : Bool

module _ (stringify : Option TeamState → String) (world : TeamWorld) (file : TeamFile) where
  abbrev pub write_team : TeamFile → TeamResult → TeamFile × TeamResult
  write_team next result = if world.written then (next, result) else (file, thrown)

  abbrev pub write_result : Option TeamState → TeamResult → TeamFile × TeamResult
  write_result current deleted = write_team (remove_team world.index) deleted
  write_result current (success answer state) =
      if stringify (some state) == stringify current
      then (file, success answer state)
      else write_team (replace_team world.index state) (success answer state)
  write_result current (failure code) = (file, failure code)
  write_result current thrown = (file, thrown)

  abbrev pub decide_read :
      (Option TeamState → TeamScope → TeamResult)
      → TeamScope
      → Option (Option TeamState)
      → TeamFile × TeamResult
  decide_read decide scope none = (file, thrown)
  decide_read decide scope (some current) = write_result current (decide current scope)

  abbrev pub decide_in :
      (Option TeamState → TeamScope → TeamResult) → Option TeamScope → TeamFile × TeamResult
  decide_in decide none = (file, failure caller_not_current_parent)
  decide_in decide (some scope) = decide_read decide scope (read_team file)

  unfoldable pub transact : (Option TeamState → TeamScope → TeamResult) → TeamFile × TeamResult
  transact decide =
      if not world.valid_name
      then (file, failure invalid_team_name)
      else if not world.in_root
      then (file, failure cwd_mismatch)
      else if not world.locked
      then (file, failure state_conflict)
      else decide_in decide world.scope

  unfoldable pub initialize : TextHost → List String → TeamDefinition → TeamFile × TeamResult
  initialize host tool_names input =
      if not (team_definition_schema host input)
      then (file, failure invalid_team)
      else if not (all (λ tool. any (λ t. t == tool) tool_names) ("task" ∷ "hub" ∷ []))
      then (file, failure async_team_surfaces_unavailable)
      else transact (initialize_checked host input)
