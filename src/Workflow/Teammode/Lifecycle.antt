-- ===== src/Workflow/Teammode/Lifecycle.antt =====
-- teammode-contract.ts: how the state of a team may move, and what keeps its definition.
use omp_lazy.Prelude.{
  suc, ◌≡◌, refl, sym, ap, subst, String, Bool, true, false, List, [], ◌∷◌, Option, none, some, map,
  if◌then◌else◌, ◌⊎◌, inr, arith,
}
use omp_lazy.Prelude.Result.{Result, ok, err}
use omp_lazy.State.Receipts.{AcceptanceEvent}
use omp_lazy.Workflow.TeamDomain.{
  MemberDefinition, RuntimeMember, TeamStatus, TeamState, TeamWorktreeBinding, team_state_schema,
}
use omp_lazy.Workflow.TeamRoster.{
  TeamResult, success, deleted, failure, thrown, TeamAnswer, TeamScope, WorktreeHost, Identity,
  parsed, revised, TeamCode, bind_members, bind_member, cons_member, bound_member,
}
use omp_lazy.Workflow.Teammode.{accept_members, accept_member, with_acceptance, cons_some, unbind}

-- The changes of status that the operations make
pub data IsMove : TeamStatus → TeamStatus → Type 0 where
  binds : IsMove TeamStatus.initializing TeamStatus.active
  completes : IsMove TeamStatus.active TeamStatus.completed
  archives_completed : IsMove TeamStatus.completed TeamStatus.archived
  archives_cancelled : IsMove TeamStatus.cancelled TeamStatus.archived
  cancels_initializing : IsMove TeamStatus.initializing TeamStatus.cancelled
  cancels_active : IsMove TeamStatus.active TeamStatus.cancelled
  resumes : IsMove TeamStatus.cancelled TeamStatus.initializing

abbrev pub definitions : TeamState → List MemberDefinition
definitions team = map (λ m. m.definition) team.members

-- The same team, a revision on
pub record IsRevision (current next : TeamState) : Type 0 where
  pub status : IsMove current.status next.status
  pub revision : next.revision ≡ suc current.revision
  pub team_name : next.team_name ≡ current.team_name
  pub run_id : next.run_id ≡ current.run_id
  pub attempt : next.attempt ≡ current.attempt
  pub members : definitions next ≡ definitions current

pub data IsLifecycle : Option TeamState → Option TeamState → Type 0 where
  creates :
      (s : TeamState)
      → s.status ≡ TeamStatus.initializing
      → s.revision ≡ 1
      → IsLifecycle none (some s)
  revises : (c s : TeamState) → IsRevision c s → IsLifecycle (some c) (some s)
  deletes : (c : TeamState) → c.status ≡ TeamStatus.archived → IsLifecycle (some c) none

-- What an operation may decide: to leave the state, or to move it to a state within its schema.
abbrev pub IsDecided : Option TeamState → TeamResult → Type 0
IsDecided current (success answer s) =
    (current ≡ some s) ⊎ ((team_state_schema s ≡ true) × IsLifecycle current (some s))
IsDecided current deleted = IsLifecycle current none
IsDecided current (failure code) = Unit
IsDecided current thrown = Unit

pub parsed-IsDecided :
    (current : Option TeamState) (answer : TeamAnswer) (s : TeamState)
    → IsLifecycle current (some s)
    → IsDecided current (parsed answer s)
parsed-IsDecided current answer s h = go (team_state_schema s) refl
  where
    go :
        (b : Bool)
        → team_state_schema s ≡ b
        → IsDecided current (if b then success answer s else thrown)
    go true e = inr (e, h)
    go false e = tt

pub moved-IsDecided :
    (current : TeamState) (answer : TeamAnswer) (before after : TeamStatus)
    (members : List RuntimeMember)
    → current.status ≡ before
    → IsMove before after
    → map (λ m. m.definition) members ≡ definitions current
    → IsDecided (some current) (parsed answer (revised after members current))
moved-IsDecided current answer before after members e move same_members =
    parsed-IsDecided _ answer _ (
      revises _ _ (record {
        status = subst (λ x. IsMove x after) (sym e) move;
        revision = refl;
        team_name = refl;
        run_id = refl;
        attempt = refl;
        members = same_members;
      }))

pub unbind-definitions :
    (ms : List RuntimeMember) → map (λ m. m.definition) (map unbind ms) ≡ map (λ m. m.definition) ms
unbind-definitions [] = refl
unbind-definitions (m ∷ ms) = ap (λ l. m.definition ∷ l) (unbind-definitions ms)

pub cons_some-inv :
    (x : Option RuntimeMember) (r : Option (List RuntimeMember)) (next : List RuntimeMember)
    → cons_some x r ≡ some next
    → (m : RuntimeMember) × (ms : List RuntimeMember) × (x ≡ some m)
      × (r ≡ some ms)
      × (next ≡ m ∷ ms)
cons_some-inv none r next e = absurd (ground arith)
cons_some-inv (some m) none next e = absurd (ground arith)
cons_some-inv (some m) (some ms) next e = (m, ms, refl, refl, ground arith)

cons_member-inv :
    (x : Result TeamCode RuntimeMember) (r : Result TeamCode (List RuntimeMember))
    (next : List RuntimeMember)
    → cons_member x r ≡ ok next
    → (m : RuntimeMember) × (ms : List RuntimeMember) × (x ≡ ok m) × (r ≡ ok ms) × (next ≡ m ∷ ms)
cons_member-inv (err code) r next e = absurd (ground arith)
cons_member-inv (ok m) (err code) next e = absurd (ground arith)
cons_member-inv (ok m) (ok ms) next e = (m, ms, refl, refl, ground arith)

with_acceptance-definition :
    (m n : RuntimeMember) (o : Option AcceptanceEvent)
    → with_acceptance m o ≡ some n
    → n.definition ≡ m.definition
with_acceptance-definition m n none e = absurd (ground arith)
with_acceptance-definition m n (some entry) e = ground arith

bound_member-definition :
    (m n : RuntimeMember) (o : Option Identity) (path : Result TeamCode (Option String))
    → bound_member m o path ≡ ok n
    → n.definition ≡ m.definition
bound_member-definition m n none path e = absurd (ground arith)
bound_member-definition m n (some i) (err code) e = absurd (ground arith)
bound_member-definition m n (some i) (ok path) e = ground arith

cons-definitions :
    (m n : RuntimeMember) (ms ns next : List RuntimeMember)
    → next ≡ n ∷ ns
    → n.definition ≡ m.definition
    → map (λ m. m.definition) ns ≡ map (λ m. m.definition) ms
    → map (λ m. m.definition) next ≡ map (λ m. m.definition) (m ∷ ms)
cons-definitions m n ms ns next e d ds = rw e cc (d, ds)

pub accept_members-definitions :
    (current : TeamState) (scope : TeamScope) (ms next : List RuntimeMember)
    → accept_members current scope ms ≡ some next
    → map (λ m. m.definition) next ≡ map (λ m. m.definition) ms
unfolding accept_members
accept_members-definitions current scope [] next e = ground arith
accept_members-definitions current scope (m ∷ ms) next e =
    let (n, ns, x, r, l) =
      cons_some-inv (accept_member current scope m) (accept_members current scope ms) next e in
    cons-definitions m n ms ns next l (with_acceptance-definition m n _ x)
      (accept_members-definitions current scope ms ns r)

pub bind_members-definitions :
    (host : WorktreeHost) (worktrees : List TeamWorktreeBinding) (identities : List Identity)
    (ms next : List RuntimeMember)
    → bind_members host worktrees identities ms ≡ ok next
    → map (λ m. m.definition) next ≡ map (λ m. m.definition) ms
unfolding bind_members
bind_members-definitions host worktrees identities [] next e = ground arith
bind_members-definitions host worktrees identities (m ∷ ms) next e =
    let (n, ns, x, r, l) =
      cons_member-inv (bind_member host worktrees identities m)
        (bind_members host worktrees identities ms) next e in
    cons-definitions m n ms ns next l (bound_member-definition m n _ _ x)
      (bind_members-definitions host worktrees identities ms ns r)
