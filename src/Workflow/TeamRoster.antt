-- ===== src/Workflow/TeamRoster.antt =====
-- src/workflows/teammode-contract.ts: what an operation on a team answers, and the operations that
-- make its roster, `initialize` and `bind`. Each decides on the state read.
use omp_lazy.Prelude.{
  ℕ, suc, String, Bool, ◌&&◌, ◌||◌, not, List, [], ◌∷◌, Option, none, some, map, length, any,
  filter, if◌then◌else◌, ◌==◌, string_eq, nat_eq, option_eq,
}
use omp_lazy.Prelude.Result.{Result, ok, err}
use omp_lazy.State.Domain.{Run}
use omp_lazy.State.Codec.{no_duplicates}
use omp_lazy.State.Receipts.{AcceptanceEvent}
use omp_lazy.Workflow.TeamDomain.{
  MemberDefinition, TeamDefinition, TextHost, RuntimeMember, TeamStatus, TeamState,
  TeamWorktreeBinding, team_state_schema, matches_team_definition, get_binding, binding_name,
  matches_team_worktree_bindings,
}

pub data TeamCode : Type 0 where
  invalid_team async_team_surfaces_unavailable team_conflict team_missing : TeamCode
  invalid_team_state team_bind_conflict async_capability_unproven : TeamCode
  identity_mapping_incomplete invalid_worktree_binding : TeamCode
  unreadable not_worktree unrelated_repo main_worktree dirty_worktree : TeamCode
  parent_acceptance_incomplete team_not_completed team_not_archived : TeamCode
  invalid_team_name cwd_mismatch state_conflict caller_not_current_parent : TeamCode

pub data TeamAnswer : Type 0 where
  created replayed bound completed cancelled resumed archived : TeamAnswer

-- `thrown` is what a parse or a write that fails throws.
pub data TeamResult : Type 0 where
  success : TeamAnswer → TeamState → TeamResult
  deleted : TeamResult
  failure : TeamCode → TeamResult
  thrown : TeamResult

pub record Identity : Type 0 where
  pub requested_name : Option String
  pub agent_type : Option String
  pub actual_agent_id : String
  pub actual_job_id : Option String

-- The scope of the caller, and what the task ledger and the acceptance ledger answer for it
pub record TeamScope : Type 0 where
  pub run : Run
  pub task_generation : ℕ
  pub is_proven : Bool
  pub identities : List Identity
  pub accepted : List AcceptanceEvent

-- `realpath`, and `validateTeamWorktree`, which asks git
pub record WorktreeHost : Type 0 where
  pub realpath : String → Option String
  pub validate_team_worktree : String → Result TeamCode String

-- A state that is parsed before it is returned
abbrev pub parsed : TeamAnswer → TeamState → TeamResult
parsed answer state = if team_state_schema state then success answer state else thrown

abbrev pub fresh_member : MemberDefinition → RuntimeMember
fresh_member m = record {
  definition = m;
  actual_agent_id = none;
  actual_job_id = none;
  worktree_path = none;
  acceptance_key = none;
}

abbrev pub in_scope : TeamState → TeamScope → Bool
in_scope current scope =
    current.run_id == scope.run.run_id && current.attempt == scope.run.progress_revision

-- What `initialize` decides once its input is checked
unfoldable pub initialize_checked :
    TextHost → TeamDefinition → Option TeamState → TeamScope → TeamResult
initialize_checked host input (some current) scope =
    if in_scope current scope && matches_team_definition host current input
    then success replayed current
    else failure team_conflict
initialize_checked host input none scope = parsed created (record {
  team_name = input.team_name;
  run_id = scope.run.run_id;
  attempt = scope.run.progress_revision;
  revision = 1;
  status = TeamStatus.initializing;
  members = map fresh_member input.members;
})

-- A change of status that counts
abbrev pub revised : TeamStatus → List RuntimeMember → TeamState → TeamState
revised status members current = record current {
  revision = suc current.revision;
  status = status;
  members = members;
}

-- `Promise.all` of the paths, where one that is unreadable is left out
abbrev pub canonical_worktrees : WorktreeHost → List TeamWorktreeBinding → List TeamWorktreeBinding
canonical_worktrees host [] = []
canonical_worktrees host (b ∷ bs) =
    let rest = canonical_worktrees host bs in
    elim (host.realpath b.path) [ none ↦ rest | some path ↦ record b { path = path } ∷ rest ]

abbrev pub is_identity_of : RuntimeMember → Identity → Bool
is_identity_of m i =
    i.requested_name == some m.definition.requested_name
    && i.agent_type == some m.definition.agent_type

abbrev pub only : List Identity → Option Identity
only (i ∷ []) = some i
only _ = none

abbrev pub validated_path : WorktreeHost → Option String → Result TeamCode (Option String)
validated_path host none = ok none
validated_path host (some path) = some_path (host.validate_team_worktree path)
  where
    some_path : Result TeamCode String → Result TeamCode (Option String)
    some_path (ok p) = ok (some p)
    some_path (err code) = err code

abbrev pub bound_member :
    RuntimeMember
    → Option Identity
    → Result TeamCode (Option String)
    → Result TeamCode RuntimeMember
bound_member m none path = err identity_mapping_incomplete
bound_member m (some i) (err code) = err code
bound_member m (some i) (ok path) = ok (record m {
  actual_agent_id = some i.actual_agent_id;
  actual_job_id = i.actual_job_id;
  worktree_path = path;
})

abbrev pub bind_member :
    WorktreeHost
    → List TeamWorktreeBinding
    → List Identity
    → RuntimeMember
    → Result TeamCode RuntimeMember
bind_member host worktrees identities m =
    bound_member m (only (filter (is_identity_of m) identities))
      (validated_path host (get_binding worktrees m.definition.requested_name))

abbrev pub cons_member :
    Result TeamCode RuntimeMember
    → Result TeamCode (List RuntimeMember)
    → Result TeamCode (List RuntimeMember)
cons_member (err code) rest = err code
cons_member (ok m) (err code) = err code
cons_member (ok m) (ok ms) = ok (m ∷ ms)

-- The loop over the members, which returns at the first that fails
unfoldable pub bind_members :
    WorktreeHost
    → List TeamWorktreeBinding
    → List Identity
    → List RuntimeMember
    → Result TeamCode (List RuntimeMember)
bind_members host worktrees identities [] = ok []
bind_members host worktrees identities (m ∷ ms) =
    cons_member (bind_member host worktrees identities m)
      (bind_members host worktrees identities ms)

abbrev pub bind_parsed : TeamState → Result TeamCode (List RuntimeMember) → TeamResult
bind_parsed current (err code) = failure code
bind_parsed current (ok members) = parsed bound (revised TeamStatus.active members current)

abbrev pub actual_id : Identity → String
actual_id i = i.actual_agent_id

abbrev pub member_name : RuntimeMember → String
member_name m = m.definition.requested_name

abbrev pub bind_initializing :
    WorktreeHost → List TeamWorktreeBinding → TeamScope → TeamState → TeamResult
bind_initializing host worktrees scope current =
    if not scope.is_proven
    then failure async_capability_unproven
    else if not (length scope.identities == length current.members)
    then failure identity_mapping_incomplete
    else if not (no_duplicates (map actual_id scope.identities))
    then failure identity_mapping_incomplete
    else if not (no_duplicates (map binding_name worktrees))
        || any (λ b. not (any (λ m. member_name m == b.requested_name) current.members)) worktrees
    then failure invalid_worktree_binding
    else bind_parsed current (bind_members host worktrees scope.identities current.members)

abbrev pub bind_active : WorktreeHost → List TeamWorktreeBinding → TeamState → TeamResult
bind_active host worktrees current =
    let canonical = canonical_worktrees host worktrees in
    if length canonical == length worktrees && matches_team_worktree_bindings current canonical
    then success replayed current
    else failure team_bind_conflict

abbrev pub bind_in :
    TeamStatus → WorktreeHost → List TeamWorktreeBinding → TeamScope → TeamState → TeamResult
bind_in TeamStatus.initializing host worktrees scope current =
    bind_initializing host worktrees scope current
bind_in TeamStatus.active host worktrees scope current = bind_active host worktrees current
bind_in _ host worktrees scope current = failure invalid_team_state

unfoldable pub bind :
    WorktreeHost → List TeamWorktreeBinding → Option TeamState → TeamScope → TeamResult
bind host worktrees none scope = failure team_missing
bind host worktrees (some current) scope = bind_in current.status host worktrees scope current
