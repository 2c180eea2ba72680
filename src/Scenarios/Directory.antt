-- ===== src/Scenarios/Directory.antt =====
-- A state directory, and the creation of a run in it.
use omp_lazy.Prelude.{
  zero, ◌≡◌, refl, sym, ◌∙◌, subst, ◌⊎◌, String, true, not, ◌==◌, List, [], ◌∷◌, ◌++◌, Option, none,
  some, arith, string_eq, if◌then◌else◌,
}
use omp_lazy.Prelude.Result.{Result, ok, err}
use omp_lazy.State.Domain.{
  Run, RunVersion, StartWorkStatus, StateEvent, StateMutation, EventVersion, WorkflowKind,
  ActiveIndex, Control,
}
use omp_lazy.State.Receipts.{empty_receipt_authority}
use omp_lazy.State.Texts.{Texts, trim_event}
use omp_lazy.State.Codec.{DecodeError, decode_run, decode_active_index, event_schema}
use omp_lazy.State.Index.{validate_active_index, status_hint}
use omp_lazy.State.Events.{read_all}
use omp_lazy.State.Events.Append.{read_all-append}
use omp_lazy.State.Transition.{
  PreparedTransition, prepare_transition, prepared_run, derive_index, by_version,
  index_revision_conflict, stale_revision,
}
use omp_lazy.State.Transition.Concurrency.{
  IsCreation, IsUpdate, prepare_transition-sourced, prepare_transition_once,
}
use omp_lazy.State.Store.{
  Host, Disk, Interruptions, calm, crashed, failure, idempotency_conflict, no_index, read_index,
  read_run, commit, commit_locked, commit_new, publish, find_event, persisted_event_for_index,
  authority_for,
}
use omp_lazy.State.Recovery.Pending.{IsHealthy, is_committed}
use omp_lazy.State.Recovery.Atomicity.{
  recovered, completed, KeepsReadable, recovered-atomic, attempt_all, complete_all, IsChosen,
  attempt_all-serial,
}
use omp_lazy.State.Recovery.{inspect_recovery}
use omp_lazy.State.Recovery.Inspection.{IsRecoverable, inspect_recovery-commit}
use omp_lazy.State.Recovery.Replay.{as_replayed, is_same_text, commit_again}
use omp_lazy.Scenarios.Records.{start_run}

abbrev pub version_text : EventVersion → String
version_text EventVersion.v1 = "1"
version_text (EventVersion.v2 scope) = "2"

-- Texts without blanks at their ends, in which every text but the empty one has its form.
abbrev pub texts : Texts
texts = record {
  trim = λ text. text;
  is_uuid = λ text. not (text == "");
  is_hash = λ text. not (text == "");
  is_timestamp = λ text. not (text == "");
  size = λ text. 0;
}

-- The text of an event shows its version.
abbrev pub host : Host
host = record {
  root = record { texts = texts; canonical_path = "/work"; contains = λ parent child. true };
  receipts = λ run. empty_receipt_authority;
  logged_text = λ event. version_text event.version;
  submitted_text = λ event. version_text event.version;
}

abbrev new_run : Run
new_run = start_run RunVersion.v1 StartWorkStatus.active

abbrev pub creation : StateEvent
creation = record {
  version = EventVersion.v1;
  event_id = "e1";
  sequence = 1;
  run_id = "r1";
  workflow = WorkflowKind.start_work;
  expected = record {
    index_revision = 0;
    run_revision = none;
    owner_session_id = none;
    owner_epoch = none;
  };
  mutation = StateMutation.run_created new_run;
  at = "t1";
}

-- A directory with no run.
abbrev pub disk : ActiveIndex → Disk
disk index = record { index = some index; events = []; runs = λ id. none }

abbrev prepared : PreparedTransition
prepared = record { run = new_run; index = derive_index no_index new_run 1 }

prepares : prepare_transition no_index none creation none ≡ ok prepared
unfolding prepare_transition prepared_run
prepares = refl

prepare_transition-sourced_example :
    IsCreation none creation prepared ⊎ IsUpdate none creation none prepared
prepare_transition-sourced_example =
    prepare_transition-sourced no_index none creation none prepared prepares

-- The pausing of the new run, written against the index before it.
abbrev late_pause : StateEvent
late_pause = record creation {
  event_id = "e2";
  mutation = StateMutation.workflow_controlled Control.pause;
}

prepare_transition_once_example :
    prepare_transition prepared.index (some new_run) late_pause none
    ≡ err (by_version late_pause.version index_revision_conflict stale_revision)
prepare_transition_once_example =
    prepare_transition_once no_index none (some new_run) creation late_pause none none prepared
      prepares refl

reads : read_all texts [] ≡ ok []
unfolding read_all
reads = refl

read_all-append_example : read_all texts ([] ++ creation ∷ []) ≡ ok ([] ++ creation ∷ [])
read_all-append_example = read_all-append texts [] [] creation reads refl refl

pub disk-IsHealthy :
    (index : ActiveIndex)
    → decode_active_index texts index ≡ ok index
    → zero ≡ index.revision
    → IsHealthy host (disk index)
unfolding read_index
disk-IsHealthy index d z = record {
  index = index;
  events = [];
  index_read = d;
  events_read = reads;
  in_step = z;
  runs_behind = λ id run e. absurd (ground arith);
}

no_index-decoded : decode_active_index texts no_index ≡ ok no_index
unfolding decode_active_index validate_active_index
no_index-decoded = refl

healthy : IsHealthy host (disk no_index)
healthy = disk-IsHealthy no_index no_index-decoded refl

ok-injective {ℓ κ} : {E : Type ℓ} {A : Type κ} (a b : A) → Path (Result E A) (ok a) (ok b) → a ≡ b
ok-injective a b e = cc

pub healthy-index :
    (index : ActiveIndex) (h : IsHealthy host (disk index))
    → decode_active_index texts index ≡ ok index
    → h.index ≡ index
unfolding read_index
healthy-index index h d = ok-injective h.index index (sym h.index_read ∙ d)

-- The creation, prepared against an index and a run.
abbrev pub Made : ActiveIndex → PreparedTransition → Option Run → Type 0
Made index p current =
    prepare_transition index current (persisted_event_for_index index creation)
      (authority_for host (persisted_event_for_index index creation).mutation current)
    ≡ ok p

-- What the creation would publish on an empty directory, once it is known.
pub keeps_readable :
    (index : ActiveIndex) (q : PreparedTransition)
    → decode_active_index texts index ≡ ok index
    → Made index q none
    → event_schema texts (persisted_event_for_index index creation) ≡ true
    → trim_event texts (persisted_event_for_index index creation)
      ≡ persisted_event_for_index index creation
    → decode_run host.root q.run ≡ ok q.run
    → decode_active_index texts q.index ≡ ok q.index
    → (h : IsHealthy host (disk index)) → KeepsReadable host creation (disk index) h
keeps_readable index q d made schema kept run_fine index_fine h p pending =
    let i = healthy-index index h d in
    let read : Path (Result DecodeError (Option Run)) (ok none) (ok pending.current) =
      unfold read_run in pending.run_read in
    let c = ok-injective none pending.current read in
    let here : Made index p none =
      subst (Made index p) (sym c) (subst (λ k. Made k p pending.current) i pending.prepared) in
    let q_is_p = ok-injective q p (sym made ∙ here) in
    record {
      event_accepted =
          subst (λ k. event_schema texts (persisted_event_for_index k creation) ≡ true) (sym i)
            schema;
      event_kept =
          subst
            (λ k.
              trim_event texts (persisted_event_for_index k creation)
              ≡ persisted_event_for_index k creation)
            (sym i) kept;
      run_accepted = subst (λ r. decode_run host.root r.run ≡ ok r.run) q_is_p run_fine;
      index_accepted =
          subst (λ r. decode_active_index texts r.index ≡ ok r.index) q_is_p index_fine;
    }

prepares_here : Made no_index prepared none
unfolding prepare_transition prepared_run persisted_event_for_index authority_for
prepares_here = refl

schema_here : event_schema texts (persisted_event_for_index no_index creation) ≡ true
unfolding persisted_event_for_index
schema_here = refl

kept_here :
    trim_event texts (persisted_event_for_index no_index creation)
    ≡ persisted_event_for_index no_index creation
unfolding persisted_event_for_index
kept_here = refl

run-decoded : decode_run host.root prepared.run ≡ ok prepared.run
unfolding decode_run
run-decoded = refl

index-decoded : decode_active_index texts prepared.index ≡ ok prepared.index
unfolding decode_active_index validate_active_index derive_index status_hint
index-decoded = refl

keeps : (h : IsHealthy host (disk no_index)) → KeepsReadable host creation (disk no_index) h
keeps h =
    keeps_readable no_index prepared no_index-decoded prepares_here schema_here kept_here
      run-decoded index-decoded h

-- The process crashes behind the event, before the run's snapshot.
abbrev crash : Interruptions
crash = record calm { after_event = crashed }

recovered-atomic_example :
    (recovered host crash creation (disk no_index) ≡ disk no_index)
    ⊎ (recovered host crash creation (disk no_index) ≡ completed host creation (disk no_index))
recovered-atomic_example =
    recovered-atomic host crash creation (disk no_index) healthy (keeps healthy)

attempt_all-serial_example :
    (es : List StateEvent) × IsChosen es ((crash, creation) ∷ [])
    × (attempt_all host ((crash, creation) ∷ []) (disk no_index)
        ≡ complete_all host es (disk no_index))
    × IsHealthy host (attempt_all host ((crash, creation) ∷ []) (disk no_index))
attempt_all-serial_example =
    attempt_all-serial host ((crash, creation) ∷ []) (disk no_index) healthy (keeps, tt)

commits : is_committed (commit host calm creation (disk no_index)).1 ≡ true
unfolding commit commit_locked commit_new publish read_index read_run read_all find_event
    prepare_transition prepared_run persisted_event_for_index authority_for decode_active_index
    validate_active_index decode_run
commits = refl

commit_again_example : commit host calm creation (completed host creation (disk no_index)) ≡ (
  completed host creation (disk no_index),
  if is_same_text host (persisted_event_for_index healthy.index creation) creation
      then as_replayed (commit host calm creation (disk no_index)).1
      else failure idempotency_conflict,
)
commit_again_example = commit_again host creation (disk no_index) healthy (keeps healthy) commits

inspect_recovery-commit_example :
    IsRecoverable host creation
      (disk no_index)
      healthy
      (inspect_recovery host (commit host crash creation (disk no_index)).0)
inspect_recovery-commit_example =
    inspect_recovery-commit host creation (disk no_index) healthy crash (keeps healthy)
