-- ===== src/Workflow/Teammode/Acceptance.antt =====
-- teammode-contract.ts: what a completed team has, and the teams that cannot be archived.
use omp_lazy.Prelude.{
  ◌≡◌, refl, sym, ap, subst, ◌∙◌, Bool, true, false, ◌&&◌, List, [], ◌∷◌, Option, none, some, inl,
  inr, arith, Bool-cases, Option-cases, ◌==◌, string_eq, nat_eq, option_eq, beq_refl, eq_iff,
  length, ◌≤◌, all, any, find,
}
use omp_lazy.State.Receipts.{AcceptanceEvent}
use omp_lazy.Workflow.TeamDomain.{
  RuntimeMember, TeamStatus, TeamState, team_state_schema, is_identified, is_accepted, is_bound,
}
use omp_lazy.Workflow.TeamRoster.{
  success, thrown, failure, completed, cancelled, team_not_archived, TeamScope, revised, in_scope,
}
use omp_lazy.Workflow.Teammode.{
  accepts, accept_member, accept_members, complete_parsed, complete_in, delete, complete, archive,
  cancel,
}
use omp_lazy.Workflow.Teammode.Lifecycle.{cons_some-inv}

-- Some entry accepts the member, and is the one that its key names.
abbrev pub is_accepted_by : TeamState → TeamScope → RuntimeMember → AcceptanceEvent → Bool
is_accepted_by current scope member entry =
    accepts current scope member entry && member.acceptance_key == some entry.idempotency_key

abbrev pub has_acceptance : TeamState → TeamScope → RuntimeMember → Bool
has_acceptance current scope member = any (is_accepted_by current scope member) scope.accepted

module _ (current : TeamState) (scope : TeamScope) where
  any-find :
      (m : RuntimeMember) (entries : List AcceptanceEvent) (entry : AcceptanceEvent)
      → find (accepts current scope m) entries ≡ some entry
      → any
          (is_accepted_by current scope (record m { acceptance_key = some entry.idempotency_key }))
          entries
        ≡ true
  any-find m [] entry f = absurd (ground arith)
  any-find m (x ∷ xs) entry f = elim (Bool-cases (accepts current scope m x)) [
    | inl y ↦
        let found : x ≡ entry = ground (arith, y) in
        let named : (x.idempotency_key == entry.idempotency_key) ≡ true =
          ap (λ z. x.idempotency_key == z.idempotency_key) (sym found)
          ∙ beq_refl x.idempotency_key in
        ground (
          arith,
          y,
          (eq_iff x.idempotency_key entry.idempotency_key).0 named,
          beq_refl entry.idempotency_key,
        )
    | inr n ↦ let rest = any-find m xs entry (ground (arith, n)) in ground (arith, rest)
  ]

  accept_member-accepted :
      (m n : RuntimeMember)
      → accept_member current scope m ≡ some n
      → has_acceptance current scope n ≡ true
  accept_member-accepted m n e =
      elim (Option-cases (find (accepts current scope m) scope.accepted)) [
        | inl absent ↦ absurd (ground (arith, absent))
        | inr (entry, f) ↦
            let made : record m { acceptance_key = some entry.idempotency_key } ≡ n =
              ground (arith, f) in
            subst (λ x. has_acceptance current scope x ≡ true) made
              (any-find m scope.accepted entry f)
      ]

  accept_members-all :
      (ms next : List RuntimeMember)
      → accept_members current scope ms ≡ some next
      → all (has_acceptance current scope) next ≡ true
  unfolding accept_members
  accept_members-all [] next e =
      let empty : [] ≡ next = ground arith in
      subst (λ l. all (has_acceptance current scope) l ≡ true) empty refl
  accept_members-all (m ∷ ms) next e =
      let (n, ns, x, r, l) =
        cons_some-inv (accept_member current scope m) (accept_members current scope ms) next e in
      let first = accept_member-accepted m n x in
      let rest = accept_members-all ms ns r in
      subst (λ l. all (has_acceptance current scope) l ≡ true) (sym l) (rw (first, rest) refl)

  complete_parsed-all :
      (next : TeamState) (o : Option (List RuntimeMember))
      → accept_members current scope current.members ≡ o
      → complete_parsed current o ≡ success completed next
      → all (has_acceptance current scope) next.members ≡ true
  complete_parsed-all next none e f = absurd (ground arith)
  complete_parsed-all next (some ms) e f =
      let made : revised TeamStatus.completed ms current ≡ next = ground arith in
      ap (λ t. all (has_acceptance current scope) t.members) (sym made)
      ∙ accept_members-all current.members ms e

  -- A team becomes completed only from active, in the run and attempt that it was made for, and when
  -- every member of it has an entry of the acceptance ledger, named by the member's acceptance key,
  -- for the run's revision, owner and task generation and for the member's agent, job and role.
  pub complete-all :
      (next : TeamState)
      → complete (some current) scope ≡ success completed next
      → (current.status ≡ TeamStatus.active)
        × (in_scope current scope ≡ true)
        × (all (has_acceptance current scope) next.members ≡ true)
  unfolding complete
  complete-all next e = go current.status refl e
    where
      go :
          (status : TeamStatus)
          → current.status ≡ status
          → complete_in status current scope ≡ success completed next
          → (current.status ≡ TeamStatus.active)
            × (in_scope current scope ≡ true)
            × (all (has_acceptance current scope) next.members ≡ true)
      go TeamStatus.active s f = elim (Bool-cases (in_scope current scope)) [
        | inl y ↦ (s, y, complete_parsed-all next _ refl (ground (arith, y)))
        | inr n ↦ absurd (ground (arith, n))
      ]
      go TeamStatus.initializing s f = absurd (ground arith)
      go TeamStatus.completed s f = absurd (ground arith)
      go TeamStatus.cancelled s f = absurd (ground arith)
      go TeamStatus.archived s f = absurd (ground arith)

any_bound :
    (ms : List RuntimeMember) → 1 ≤ length ms → all is_identified ms ≡ true → any is_bound ms ≡ true
any_bound [] n h = absurd (omega arith)
any_bound (m ∷ ms) n h = ground arith

-- An active team with a member whose result is not accepted can be cancelled, but archiving the
-- cancelled team throws, so that the team is never deleted while it stays cancelled.
pub cancel-archive :
    (current : TeamState) (scope later : TeamScope)
    → current.status ≡ TeamStatus.active
    → team_state_schema current ≡ true
    → all is_accepted current.members ≡ false
    → let next = revised TeamStatus.cancelled current.members current in
      (cancel (some current) scope ≡ success cancelled next)
      × (archive (some next) later ≡ thrown)
      × (delete (some next) later ≡ failure team_not_archived)
unfolding cancel archive delete team_state_schema
cancel-archive current scope later e s h =
    let identified : all is_identified current.members ≡ true = ground (arith, e) in
    let some_member : 1 ≤ length current.members = ground (arith, e) in
    let bound_one = any_bound current.members some_member identified in
    (ground (arith, e), ground (arith, h, identified, bound_one), refl)
