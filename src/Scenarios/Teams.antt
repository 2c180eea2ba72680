-- ===== src/Scenarios/Teams.antt =====
-- A team of two workers, from its roster to its end.
use omp_lazy.Prelude.{◌≡◌, refl, String, Option, true, false, none, some, [], ◌∷◌, all}
use omp_lazy.State.Domain.{Run, RunVersion, IndexVersion, StartWorkStatus}
use omp_lazy.State.Receipts.{AcceptanceEvent}
use omp_lazy.Workflow.TeamDomain.{
  MemberDefinition, RuntimeMember, TeamStatus, TeamState, team_state_schema,
}
use omp_lazy.Workflow.TeamRoster.{
  TeamScope, success, failure, thrown, completed, cancelled, team_not_archived, revised, in_scope,
}
use omp_lazy.Workflow.Teammode.{
  TeamFile, TeamWorld, read_team, replace_team, transact, complete, accept_members, cancel, archive,
  delete,
}
use omp_lazy.Workflow.Teammode.Decisions.{complete_op, decide}
use omp_lazy.Workflow.Teammode.Persistence.{IsWritten, transact-IsLifecycle}
use omp_lazy.Workflow.Teammode.Acceptance.{has_acceptance, complete-all, cancel-archive}
use omp_lazy.Scenarios.Records.{start_run}
use omp_lazy.Scenarios.Ledger.{event}

abbrev run : Run
run = start_run (RunVersion.v2 none (some "head")) StartWorkStatus.active

abbrev definition : String → String → MemberDefinition
definition name path = record {
  requested_name = name;
  agent_type = "omp-lazy-worker-low";
  focus = "focus";
  ownership = path ∷ [];
  deliverable = "patch";
  isolated = false;
}

abbrev member : String → String → String → RuntimeMember
member name path id = record {
  definition = definition name path;
  actual_agent_id = some id;
  actual_job_id = some "j1";
  worktree_path = none;
  acceptance_key = none;
}

abbrev active_team : TeamState
active_team = record {
  team_name = "team";
  run_id = "r1";
  attempt = 0;
  revision = 2;
  status = TeamStatus.active;
  members = member "left" "src/left" "a1" ∷ member "right" "src/right" "a2" ∷ [];
}

abbrev accepted_entry : String → String → AcceptanceEvent
accepted_entry id key = record event { actual_agent_id = id; idempotency_key = key }

abbrev scope : TeamScope
scope = record {
  run = run;
  task_generation = 1;
  is_proven = true;
  identities = [];
  accepted = accepted_entry "a1" "k1" ∷ accepted_entry "a2" "k2" ∷ [];
}

active_team-schema : team_state_schema active_team ≡ true
unfolding team_state_schema
active_team-schema = refl

abbrev accepted_member : String → String → String → String → RuntimeMember
accepted_member name path id key = record (member name path id) { acceptance_key = some key }

abbrev completed_team : TeamState
completed_team =
    revised TeamStatus.completed
      (accepted_member "left" "src/left" "a1" "k1"
        ∷ accepted_member "right" "src/right" "a2" "k2"
        ∷ [])
      active_team

completes : complete (some active_team) scope ≡ success completed completed_team
unfolding complete accept_members team_state_schema
completes = refl

complete-all_example :
    (active_team.status ≡ TeamStatus.active)
    × (in_scope active_team scope ≡ true)
    × (all (has_acceptance active_team scope) completed_team.members ≡ true)
complete-all_example = complete-all active_team scope completed_team completes

cancel-archive_example :
    let next = revised TeamStatus.cancelled active_team.members active_team in
    (cancel (some active_team) scope ≡ success cancelled next)
    × (archive (some next) scope ≡ thrown)
    × (delete (some next) scope ≡ failure team_not_archived)
cancel-archive_example = cancel-archive active_team scope scope refl active_team-schema refl

abbrev world : TeamWorld
world = record {
  valid_name = true;
  in_root = true;
  locked = true;
  scope = some scope;
  index = IndexVersion.v2 1;
  written = true;
}

abbrev stringify : Option TeamState → String
stringify none = "null"
stringify (some team) = status_text team.status
  where
    status_text : TeamStatus → String
    status_text TeamStatus.active = "active"
    status_text _ = "other"

abbrev file : TeamFile
file = replace_team (IndexVersion.v2 1) active_team

reads : read_team file ≡ some (some active_team)
unfolding read_team replace_team team_state_schema
reads = refl

transact-IsLifecycle_example :
    IsWritten stringify world file
      (some active_team)
      (transact stringify world file (decide complete_op)).0
transact-IsLifecycle_example =
    transact-IsLifecycle stringify world file complete_op (some active_team) reads
