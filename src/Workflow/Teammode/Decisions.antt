-- ===== src/Workflow/Teammode/Decisions.antt =====
-- teammode-contract.ts: what each operation decides.
use omp_lazy.Prelude.{
  ◌≡◌, refl, List, Option, none, some, map, inl, inr, arith, Bool-cases, Option-cases,
}
use omp_lazy.Prelude.Result.{Result-cases}
use omp_lazy.Workflow.TeamDomain.{
  TeamStatus, TeamState, TeamDefinition, TextHost, TeamWorktreeBinding,
}
use omp_lazy.Workflow.TeamRoster.{
  TeamResult, TeamScope, WorktreeHost, Identity, initialize_checked, bind, bind_in, bind_parsed,
  created, bound, completed, cancelled, resumed, archived, bind_members, in_scope,
}
use omp_lazy.Workflow.Teammode.{
  complete, complete_in, complete_parsed, accept_members, archive, archive_in, cancel, cancel_in,
  resume, resume_in, unbind, delete, delete_in,
}
use omp_lazy.Workflow.Teammode.Lifecycle.{
  binds, completes, archives_completed, archives_cancelled, cancels_initializing, cancels_active,
  resumes, creates, deletes, IsDecided, parsed-IsDecided, moved-IsDecided, unbind-definitions,
  accept_members-definitions, bind_members-definitions,
}

complete_parsed-IsDecided :
    (current : TeamState) (scope : TeamScope)
    → current.status ≡ TeamStatus.active
    → IsDecided
        (some current)
        (complete_parsed current (accept_members current scope current.members))
complete_parsed-IsDecided current scope e =
    elim (Option-cases (accept_members current scope current.members)) [
      | inl absent ↦ rw absent tt
      | inr (ms, f) ↦
          let kept = accept_members-definitions current scope current.members ms f in
          rw f (
            moved-IsDecided current completed TeamStatus.active TeamStatus.completed ms e completes
              kept)
    ]

complete-IsDecided :
    (status : TeamStatus) (current : TeamState) (scope : TeamScope)
    → current.status ≡ status
    → IsDecided (some current) (complete_in status current scope)
complete-IsDecided TeamStatus.completed current scope e = inl refl
complete-IsDecided TeamStatus.initializing current scope e = tt
complete-IsDecided TeamStatus.cancelled current scope e = tt
complete-IsDecided TeamStatus.archived current scope e = tt
complete-IsDecided TeamStatus.active current scope e = elim (Bool-cases (in_scope current scope)) [
  | inl y ↦ rw y (complete_parsed-IsDecided current scope e)
  | inr n ↦ rw n tt
]

archive-IsDecided :
    (status : TeamStatus) (current : TeamState)
    → current.status ≡ status
    → IsDecided (some current) (archive_in status current)
archive-IsDecided TeamStatus.archived current e = inl refl
archive-IsDecided TeamStatus.completed current e =
    moved-IsDecided current archived TeamStatus.completed TeamStatus.archived current.members e
      archives_completed refl
archive-IsDecided TeamStatus.cancelled current e =
    moved-IsDecided current archived TeamStatus.cancelled TeamStatus.archived current.members e
      archives_cancelled refl
archive-IsDecided TeamStatus.active current e = tt
archive-IsDecided TeamStatus.initializing current e = tt

cancel-IsDecided :
    (status : TeamStatus) (current : TeamState)
    → current.status ≡ status
    → IsDecided (some current) (cancel_in status current)
cancel-IsDecided TeamStatus.cancelled current e = inl refl
cancel-IsDecided TeamStatus.initializing current e =
    moved-IsDecided current cancelled TeamStatus.initializing TeamStatus.cancelled current.members e
      cancels_initializing refl
cancel-IsDecided TeamStatus.active current e =
    moved-IsDecided current cancelled TeamStatus.active TeamStatus.cancelled current.members e
      cancels_active refl
cancel-IsDecided TeamStatus.completed current e = tt
cancel-IsDecided TeamStatus.archived current e = tt

resume-IsDecided :
    (status : TeamStatus) (current : TeamState)
    → current.status ≡ status
    → IsDecided (some current) (resume_in status current)
resume-IsDecided TeamStatus.cancelled current e =
    moved-IsDecided current resumed TeamStatus.cancelled TeamStatus.initializing
      (map unbind current.members) e resumes (unbind-definitions current.members)
resume-IsDecided TeamStatus.initializing current e = tt
resume-IsDecided TeamStatus.active current e = tt
resume-IsDecided TeamStatus.completed current e = tt
resume-IsDecided TeamStatus.archived current e = tt

delete-IsDecided :
    (status : TeamStatus) (current : TeamState)
    → current.status ≡ status
    → IsDecided (some current) (delete_in status)
delete-IsDecided TeamStatus.archived current e = deletes current e
delete-IsDecided TeamStatus.cancelled current e = tt
delete-IsDecided TeamStatus.initializing current e = tt
delete-IsDecided TeamStatus.active current e = tt
delete-IsDecided TeamStatus.completed current e = tt

initialize-IsDecided :
    (host : TextHost) (input : TeamDefinition) (current : Option TeamState) (scope : TeamScope)
    → IsDecided current (initialize_checked host input current scope)
unfolding initialize_checked
initialize-IsDecided host input none scope = parsed-IsDecided none created _ (creates _ refl refl)
initialize-IsDecided host input (some current) scope = ground arith

bind_parsed-IsDecided :
    (host : WorktreeHost) (worktrees : List TeamWorktreeBinding) (identities : List Identity)
    (current : TeamState)
    → current.status ≡ TeamStatus.initializing
    → IsDecided
        (some current)
        (bind_parsed current (bind_members host worktrees identities current.members))
bind_parsed-IsDecided host worktrees identities current e =
    elim (Result-cases (bind_members host worktrees identities current.members)) [
      | inl (ms, f) ↦
          let kept = bind_members-definitions host worktrees identities current.members ms f in
          rw f (
            moved-IsDecided current bound TeamStatus.initializing TeamStatus.active ms e binds kept)
      | inr (code, f) ↦ rw f tt
    ]

bind-IsDecided :
    (host : WorktreeHost) (worktrees : List TeamWorktreeBinding) (status : TeamStatus)
    (current : TeamState) (scope : TeamScope)
    → current.status ≡ status
    → IsDecided (some current) (bind_in status host worktrees scope current)
bind-IsDecided host worktrees TeamStatus.initializing current scope e =
    let last = bind_parsed-IsDecided host worktrees scope.identities current e in
    ground (arith, last)
bind-IsDecided host worktrees TeamStatus.active current scope e = ground arith
bind-IsDecided host worktrees TeamStatus.completed current scope e = tt
bind-IsDecided host worktrees TeamStatus.cancelled current scope e = tt
bind-IsDecided host worktrees TeamStatus.archived current scope e = tt

-- The operations with their inputs
pub data Operation : Type 0 where
  initialize_op : TextHost → TeamDefinition → Operation
  bind_op : WorktreeHost → List TeamWorktreeBinding → Operation
  complete_op archive_op cancel_op resume_op delete_op : Operation

abbrev pub decide : Operation → Option TeamState → TeamScope → TeamResult
decide (initialize_op host input) = initialize_checked host input
decide (bind_op host worktrees) = bind host worktrees
decide complete_op = complete
decide archive_op = archive
decide cancel_op = cancel
decide resume_op = resume
decide delete_op = delete

pub decide-IsDecided :
    (op : Operation) (current : Option TeamState) (scope : TeamScope)
    → IsDecided current (decide op current scope)
unfolding bind complete archive cancel resume delete
decide-IsDecided (initialize_op host input) current scope =
    initialize-IsDecided host input current scope
decide-IsDecided (bind_op host worktrees) none scope = tt
decide-IsDecided (bind_op host worktrees) (some c) scope =
    bind-IsDecided host worktrees c.status c scope refl
decide-IsDecided complete_op none scope = tt
decide-IsDecided complete_op (some c) scope = complete-IsDecided c.status c scope refl
decide-IsDecided archive_op none scope = tt
decide-IsDecided archive_op (some c) scope = archive-IsDecided c.status c refl
decide-IsDecided cancel_op none scope = tt
decide-IsDecided cancel_op (some c) scope = cancel-IsDecided c.status c refl
decide-IsDecided resume_op none scope = tt
decide-IsDecided resume_op (some c) scope = resume-IsDecided c.status c refl
decide-IsDecided delete_op none scope = tt
decide-IsDecided delete_op (some c) scope = delete-IsDecided c.status c refl
