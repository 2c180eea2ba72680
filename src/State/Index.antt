-- ===== src/State/Index.antt =====
-- src/state/active-index.ts: the index's own consistency, and the run that it names for a session.
use omp_lazy.Prelude.{
  String, Bool, true, false, not, ◌&&◌, ◌||◌, List, [], ◌∷◌, Option, none, some, ◌==◌, string_eq,
  nat_eq, if◌then◌else◌, any, find,
}
use omp_lazy.Prelude.Result.{Result, ok, err, stop_if, or_err, is_ok, ◌>>◌, ◌>>=◌}
use omp_lazy.State.Domain.{
  Run, Payload, StartWorkStatus, UlwLoopStatus, WorkflowKind, workflow, IndexStatusHint,
  ActiveIndexEntry, ActiveIndex,
}

abbrev pub same_workflow : WorkflowKind → WorkflowKind → Bool
same_workflow WorkflowKind.start_work WorkflowKind.start_work = true
same_workflow WorkflowKind.ulw_loop WorkflowKind.ulw_loop = true
same_workflow _ _ = false

-- Equality of the keys `${workflow}\\u0000${sessionId}`: no workflow name holds a NUL.
abbrev pub same_key : ActiveIndexEntry → ActiveIndexEntry → Bool
same_key a b = same_workflow a.workflow b.workflow && a.session_id == b.session_id

abbrev pub same_run : ActiveIndexEntry → ActiveIndexEntry → Bool
same_run a b = a.run_id == b.run_id

pub data IndexError : Type 0 where
  duplicate_active_key duplicate_run : IndexError

-- The loop of `validateActiveIndex`; its two sets are the entries seen so far.
unfoldable pub validate_from :
    List ActiveIndexEntry → List ActiveIndexEntry → Result IndexError (Unit {0})
validate_from seen [] = ok tt
validate_from seen (entry ∷ entries) =
    let rest = validate_from (entry ∷ seen) entries in
    if any (same_key entry) seen
    then err duplicate_active_key
    else if any (same_run entry) seen
    then err duplicate_run
    else rest

unfoldable pub validate_active_index : ActiveIndex → Result IndexError (Unit {0})
unfolding validate_from
validate_active_index index = validate_from [] index.entries

pub data ResolveError : Type 0 where
  foreign_owner missing_target revision_mismatch state_conflict : ResolveError

-- The hint that the index shows for a run, `null` for one that is over: `statusHint` of
-- state-transition.ts, and the last `switch` of `resolveActiveRun`.
abbrev start_hint : StartWorkStatus → Option IndexStatusHint
start_hint StartWorkStatus.active = some IndexStatusHint.active
start_hint StartWorkStatus.paused = some IndexStatusHint.paused
start_hint StartWorkStatus.stuck = some IndexStatusHint.stuck
start_hint StartWorkStatus.blocked = some IndexStatusHint.blocked
start_hint StartWorkStatus.needs_user_decision = some IndexStatusHint.blocked
start_hint StartWorkStatus.review_blocked = some IndexStatusHint.blocked
start_hint _ = none

abbrev ulw_hint : UlwLoopStatus → Option IndexStatusHint
ulw_hint UlwLoopStatus.active = some IndexStatusHint.active
ulw_hint UlwLoopStatus.paused = some IndexStatusHint.paused
ulw_hint UlwLoopStatus.stuck = some IndexStatusHint.stuck
ulw_hint UlwLoopStatus.blocked = some IndexStatusHint.blocked
ulw_hint UlwLoopStatus.needs_user_decision = some IndexStatusHint.blocked
ulw_hint UlwLoopStatus.review_blocked = some IndexStatusHint.blocked
ulw_hint _ = none

abbrev payload_hint : Payload → Option IndexStatusHint
payload_hint (Payload.start_work p) = start_hint p.status
payload_hint (Payload.ulw_loop p) = ulw_hint p.status

unfoldable pub status_hint : Run → Option IndexStatusHint
status_hint run = payload_hint run.payload

abbrev pub same_hint : IndexStatusHint → IndexStatusHint → Bool
same_hint IndexStatusHint.active IndexStatusHint.active = true
same_hint IndexStatusHint.paused IndexStatusHint.paused = true
same_hint IndexStatusHint.stuck IndexStatusHint.stuck = true
same_hint IndexStatusHint.blocked IndexStatusHint.blocked = true
same_hint _ _ = false

abbrev is_hint : Option IndexStatusHint → IndexStatusHint → Bool
is_hint none h = false
is_hint (some g) h = same_hint g h

unfoldable pub hint_matches : ActiveIndexEntry → Run → Bool
unfolding status_hint
hint_matches entry run = is_hint (status_hint run) entry.status_hint

unfoldable pub resolve_active_run :
    ActiveIndex → List Run → WorkflowKind → String → Result ResolveError Run
resolve_active_run index runs kind session_id = do
  stop_if (not (is_ok (validate_active_index index))) state_conflict
  entry ←
      or_err (find (λ e. same_workflow e.workflow kind && e.session_id == session_id) index.entries)
        foreign_owner
  run ← or_err (find (λ r. r.run_id == entry.run_id) runs) missing_target
  stop_if
      (not (run.revision == entry.run_revision)
        || not (run.transaction_revision == entry.transaction_revision)
        || not (entry.transaction_revision == index.revision))
      revision_mismatch
  stop_if
      (not (same_workflow (workflow run) entry.workflow)
        || not (run.owner.session_id == entry.session_id)
        || not (run.owner.epoch == entry.owner_epoch))
      state_conflict
  stop_if (not (hint_matches entry run)) state_conflict
  ok run
