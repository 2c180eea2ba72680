-- ===== src/Workflow/Teammode/Persistence.antt =====
-- teammode-state-store.ts and the transaction of teammode-contract.ts: what the file reads as.
use omp_lazy.Prelude.{
  ◌≡◌, refl, ap, ◌∙◌, String, true, Option, none, some, ◌⊎◌, inl, inr, arith, Bool-cases,
  Option-cases, ◌==◌, string_eq, beq_refl,
}
use omp_lazy.State.Domain.{IndexVersion}
use omp_lazy.Workflow.TeamDomain.{TeamStatus, TeamState, team_state_schema}
use omp_lazy.Workflow.TeamRoster.{TeamResult, TeamAnswer, success, deleted, failure, thrown}
use omp_lazy.Workflow.Teammode.{
  TeamFile, TeamFileVersion, read_team, replace_team, remove_team, file_version, spell, read_status,
  TeamWorld, write_team, write_result, transact,
}
use omp_lazy.Workflow.Teammode.Lifecycle.{IsLifecycle, IsDecided}
use omp_lazy.Workflow.Teammode.Decisions.{Operation, decide, decide-IsDecided}

read_status-spell :
    (version : TeamFileVersion) (status : TeamStatus)
    → read_status version (spell version status) ≡ some status
read_status-spell TeamFileVersion.v1 TeamStatus.active = refl
read_status-spell TeamFileVersion.v1 TeamStatus.initializing = refl
read_status-spell TeamFileVersion.v1 TeamStatus.completed = refl
read_status-spell TeamFileVersion.v1 TeamStatus.cancelled = refl
read_status-spell TeamFileVersion.v1 TeamStatus.archived = refl
read_status-spell TeamFileVersion.v2 TeamStatus.active = refl
read_status-spell TeamFileVersion.v2 TeamStatus.initializing = refl
read_status-spell TeamFileVersion.v2 TeamStatus.completed = refl
read_status-spell TeamFileVersion.v2 TeamStatus.cancelled = refl
read_status-spell TeamFileVersion.v2 TeamStatus.archived = refl

-- A team's file, of either version, reads as the state that was written, when that is within its
-- schema.
pub read_team-replace :
    (index : IndexVersion) (state : TeamState)
    → team_state_schema state ≡ true
    → read_team (replace_team index state) ≡ some (some state)
unfolding read_team replace_team
read_team-replace index state schema =
    rw (read_status-spell (file_version index) state.status, schema) refl

module _ (stringify : Option TeamState → String) (world : TeamWorld) (file : TeamFile) where
  -- The file is as it was, or reads as the state that was decided.
  abbrev pub IsWritten : Option TeamState → TeamFile → Type 0
  IsWritten current after =
      (after ≡ file)
      ⊎ ((next : Option TeamState) × (read_team after ≡ some next) × IsLifecycle current next)

  write_team-IsWritten :
      (current : Option TeamState) (after : TeamFile) (result : TeamResult)
      → IsWritten current after
      → IsWritten current (write_team stringify world file after result).0
  write_team-IsWritten current after result h = ground (arith, h)

  write_success-IsWritten :
      (current : Option TeamState) (answer : TeamAnswer) (s : TeamState)
      → IsDecided current (success answer s)
      → IsWritten current (write_result stringify world file current (success answer s)).0
  write_success-IsWritten current answer s (inl unchanged) =
      let same : (stringify (some s) == stringify current) ≡ true =
        ap (λ c. stringify (some s) == stringify c) unchanged ∙ beq_refl (stringify (some s)) in
      inl (rw same refl)
  write_success-IsWritten current answer s (inr (schema, h)) =
      let next = replace_team world.index s in
      let w =
        write_team-IsWritten current next (success answer s)
          (inr (some s, read_team-replace world.index s schema, h)) in
      elim (Bool-cases (stringify (some s) == stringify current)) [
        | inl y ↦ inl (rw y refl)
        | inr n ↦ rw n w
      ]

  write_result-IsWritten :
      (current : Option TeamState) (result : TeamResult)
      → IsDecided current result
      → IsWritten current (write_result stringify world file current result).0
  unfolding read_team remove_team
  write_result-IsWritten current (success answer s) d = write_success-IsWritten current answer s d
  write_result-IsWritten current deleted d =
      write_team-IsWritten current (remove_team world.index) deleted (inr (none, refl, d))
  write_result-IsWritten current (failure code) d = inl refl
  write_result-IsWritten current thrown d = inl refl

  -- Whatever the world answers, an operation on a team leaves its file as it was, or the file reads
  -- as a state that the lifecycle allows after the one read before: a new team at revision 1, the
  -- same team at the next revision with a status that may follow, or no team after an archived one.
  pub transact-IsLifecycle :
      (op : Operation) (current : Option TeamState)
      → read_team file ≡ some current
      → IsWritten current (transact stringify world file (decide op)).0
  unfolding transact
  transact-IsLifecycle op current e = elim (Option-cases world.scope) [
    | inl absent ↦ ground (arith, absent)
    | inr (scope, found) ↦
        let w =
          write_result-IsWritten current (decide op current scope)
            (decide-IsDecided op current scope) in
        ground (arith, found, e, w)
  ]
