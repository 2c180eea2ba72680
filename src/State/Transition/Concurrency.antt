-- ===== src/State/Transition/Concurrency.antt =====
-- state-transition.ts: the optimistic checks of an event against the index and the run.
use omp_lazy.Prelude.{
  ◌≡◌, ◌⊎◌, refl, inl, inr, Option, some, none, ◌↔◌, arith, is_some, option_beq_iff, string_eq,
  nat_eq,
}
use omp_lazy.Prelude.Result.{ok, err, Result-cases}
use omp_lazy.State.Domain.{Run, StateEvent, ActiveIndex, StateMutation, EventVersion}
use omp_lazy.State.Receipts.{ReceiptAuthority, bound_head}
use omp_lazy.State.Transition.{
  by_version, index_revision_conflict, stale_revision, PreparedTransition, next_run, prepared_run,
  prepare_transition, check_scope, control_run, is_task_scoped,
}
use omp_lazy.State.Transition.Effects.{prepare_transition-IsPrepared}

-- The head and the task scope that a version 2 event names.
abbrev pub MatchesScope : EventVersion → Run → StateMutation → Type 0
MatchesScope EventVersion.v1 run mutation = Unit
MatchesScope (EventVersion.v2 scope) run mutation =
    ((scope.expected_head ≡ none) ⊎ (bound_head run.version ≡ scope.expected_head))
    × (is_task_scoped mutation ≡ is_some scope.task_generation)

-- The event was written against this very state.
pub record IsCurrent (run : Run) (event : StateEvent) : Type 0 where
  pub revision : event.expected.run_revision ≡ some run.revision
  pub session : event.expected.owner_session_id ≡ some run.owner.session_id
  pub epoch : event.expected.owner_epoch ≡ some run.owner.epoch
  pub scope : MatchesScope event.version run event.mutation

check_scope_iff :
    (version : EventVersion) (run : Run) (mutation : StateMutation)
    → (check_scope version run mutation ≡ ok tt) ↔ MatchesScope version run mutation
check_scope_iff EventVersion.v1 run mutation = (λ h. tt, λ h. refl)
check_scope_iff (EventVersion.v2 scope) run mutation =
    ground (arith, option_beq_iff (bound_head run.version) scope.expected_head)

next_run_iff :
    (run : Run) (event : StateEvent) (authority : Option ReceiptAuthority) (next : Run)
    → (next_run run event authority ≡ ok next)
      ↔ (IsCurrent run event × (control_run run event.version authority event.mutation ≡ some next))
unfolding next_run
next_run_iff run event authority next = ground (
  arith,
  check_scope_iff event.version run event.mutation,
  option_beq_iff (some run.revision) event.expected.run_revision,
  option_beq_iff (some run.owner.session_id) event.expected.owner_session_id,
  option_beq_iff (some run.owner.epoch) event.expected.owner_epoch,
)

-- A creation: there was no run, and the event expected none.
pub record IsCreation (current : Option Run) (event : StateEvent) (p : PreparedTransition)
    : Type 0 where
  pub created : Run
  pub mutation : event.mutation ≡ StateMutation.run_created created
  pub absent : current ≡ none
  pub no_revision : event.expected.run_revision ≡ none
  pub no_session : event.expected.owner_session_id ≡ none
  pub no_epoch : event.expected.owner_epoch ≡ none
  pub published : p.run ≡ record created { transaction_revision = event.sequence }

-- An update: the event was written against the current run, and the reducer accepted it.
pub record IsUpdate (current : Option Run) (event : StateEvent)
    (authority : Option ReceiptAuthority) (p : PreparedTransition) : Type 0 where
  pub run : Run
  pub present : current ≡ some run
  pub is_current : IsCurrent run event
  pub next : Run
  pub reduced : control_run run event.version authority event.mutation ≡ some next
  pub published : p.run ≡ record next { transaction_revision = event.sequence }

abbrev IsSourced : Option Run → StateEvent → Option ReceiptAuthority → StateMutation → Run → Type 0
IsSourced current event authority (StateMutation.run_created created) next =
    (next ≡ created)
    × (current ≡ none)
    × (event.expected.run_revision ≡ none)
    × (event.expected.owner_session_id ≡ none)
    × (event.expected.owner_epoch ≡ none)
IsSourced current event authority mutation next =
    (run : Run) × (current ≡ some run) × (next_run run event authority ≡ ok next)

prepared_run-IsSourced :
    (current : Option Run) (event : StateEvent) (authority : Option ReceiptAuthority)
    (mutation : StateMutation) (next : Run)
    → prepared_run current event authority mutation ≡ ok next
    → IsSourced current event authority mutation next
unfolding prepared_run
prepared_run-IsSourced current event authority (StateMutation.run_created created) next e =
    ground arith
prepared_run-IsSourced (some run) event authority _ next e = (run, refl, e)
prepared_run-IsSourced none event authority _ next e = cc

prepare_transition-next :
    (index : ActiveIndex) (current : Option Run) (event : StateEvent)
    (authority : Option ReceiptAuthority) (p : PreparedTransition)
    → prepare_transition index current event authority ≡ ok p
    → (next : Run) × (prepared_run current event authority event.mutation ≡ ok next)
      × (p.run ≡ record next { transaction_revision = event.sequence })
unfolding prepare_transition
prepare_transition-next index current event authority p e =
    elim (Result-cases (prepared_run current event authority event.mutation)) [
      | inl (next, found) ↦ (next, found, ground arith)
      | inr (code, found) ↦ absurd (ground arith)
    ]

IsUpdate-of :
    (current : Option Run) (event : StateEvent) (authority : Option ReceiptAuthority)
    (p : PreparedTransition) (run next : Run)
    → current ≡ some run
    → next_run run event authority ≡ ok next
    → p.run ≡ record next { transaction_revision = event.sequence }
    → IsUpdate current event authority p
IsUpdate-of current event authority p run next here made published =
    let (now, reduced) = (next_run_iff run event authority next).0 made in
    record {
      run = run;
      present = here;
      is_current = now;
      next = next;
      reduced = reduced;
      published = published;
    }

sourced_cases :
    (current : Option Run) (event : StateEvent) (authority : Option ReceiptAuthority)
    (p : PreparedTransition) (mutation : StateMutation) (next : Run)
    → event.mutation ≡ mutation
    → IsSourced current event authority mutation next
    → p.run ≡ record next { transaction_revision = event.sequence }
    → IsCreation current event p ⊎ IsUpdate current event authority p
sourced_cases current event authority p (StateMutation.run_created created) next m s e =
    inl (record {
      created = created;
      mutation = m;
      absent = s.1;
      no_revision = s.2;
      no_session = s.3;
      no_epoch = s.4;
      published = ground arith;
    })
sourced_cases current event authority p _ next m (run, here, made) e =
    inr (IsUpdate-of current event authority p run next here made e)

-- A prepared transition is either the creation of a run where there was none, which the event
-- expected, or the reducer's result on a run whose revision, owner and epoch, and for version 2
-- head and task scope, are those that the event was written against; the run is published under
-- the event's sequence.
pub prepare_transition-sourced :
    (index : ActiveIndex) (current : Option Run) (event : StateEvent)
    (authority : Option ReceiptAuthority) (p : PreparedTransition)
    → prepare_transition index current event authority ≡ ok p
    → IsCreation current event p ⊎ IsUpdate current event authority p
prepare_transition-sourced index current event authority p e =
    let (next, found, published) = prepare_transition-next index current event authority p e in
    sourced_cases current event authority p event.mutation next refl
      (prepared_run-IsSourced current event authority event.mutation next found) published

-- Of two events that expect the same index revision, once one has been prepared the other is
-- refused against the new index, whatever the run is.
pub prepare_transition_once :
    (index : ActiveIndex) (current later : Option Run) (first second : StateEvent)
    (a b : Option ReceiptAuthority) (p : PreparedTransition)
    → prepare_transition index current first a ≡ ok p
    → second.expected.index_revision ≡ first.expected.index_revision
    → prepare_transition p.index later second b
      ≡ err (by_version second.version index_revision_conflict stale_revision)
unfolding prepare_transition
prepare_transition_once index current later first second a b p e same =
    let facts = prepare_transition-IsPrepared index current first a p e in
    ground (arith, facts.sequence, facts.expected, facts.revision)
