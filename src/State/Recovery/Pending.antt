-- ===== src/State/Recovery/Pending.antt =====
-- transaction-store.ts: where an interrupted transaction can leave the directory.
use omp_lazy.Prelude.{
  ◌≤◌, ◌≡◌, refl, sym, subst, true, false, Bool, String, List, [], ◌∷◌, ◌++◌, Option, none, some,
  ◌⊎◌, inl, inr, arith, nat_beq_iff, Option-cases, string_eq,
}
use omp_lazy.Prelude.Result.{ok, Result-cases}
use omp_lazy.State.Domain.{Run, StateEvent, ActiveIndex}
use omp_lazy.State.Texts.{trim_event}
use omp_lazy.State.Codec.{event_schema, decode_run, decode_active_index}
use omp_lazy.State.Events.{read_all, highest}
use omp_lazy.State.Events.Append.{read_all-append}
use omp_lazy.State.Transition.{PreparedTransition, prepare_transition}
use omp_lazy.State.Transition.Effects.{IsPrepared, prepare_transition-IsPrepared}
use omp_lazy.State.Store.{
  Outcome, success, committed, Host, Disk, Interruptions, calm, read_index, read_run, append_event,
  write_run, write_index, persisted_event_for_index, authority_for, publish, find_event,
  commit_replay, commit_new, commit_locked, commit,
}

-- A directory that no interrupted transaction has left behind.
pub record IsHealthy (host : Host) (disk : Disk) : Type 0 where
  pub index : ActiveIndex
  pub events : List StateEvent
  pub index_read : read_index host disk ≡ ok index
  pub events_read : read_all host.root.texts disk.events ≡ ok events
  pub in_step : highest events ≡ index.revision
  pub runs_behind :
      (id : String) (run : Run)
      → disk.runs id ≡ some run
      → run.transaction_revision ≤ index.revision

abbrev pub is_committed : Outcome → Bool
is_committed (success committed run index) = true
is_committed _ = false

module _ (host : Host) (event : StateEvent) (disk : Disk) (h : IsHealthy host disk) where
  abbrev pub persisted : StateEvent
  persisted = persisted_event_for_index h.index event

  -- The transition that the event would make of the directory.
  pub record IsPending (p : PreparedTransition) : Type 0 where
    pub fresh : find_event event.event_id h.events ≡ none
    pub current : Option Run
    pub run_read : read_run host disk event.run_id ≡ ok current
    pub prepared :
        prepare_transition h.index current persisted (authority_for host persisted.mutation current)
        ≡ ok p

  -- What it publishes can be read again.
  pub record IsReadable (p : PreparedTransition) : Type 0 where
    pub event_accepted : event_schema host.root.texts persisted ≡ true
    pub event_kept : trim_event host.root.texts persisted ≡ persisted
    pub run_accepted : decode_run host.root p.run ≡ ok p.run
    pub index_accepted : decode_active_index host.root.texts p.index ≡ ok p.index

  -- Either the directory stays and nothing is committed, or the transaction came to its writes.
  abbrev pub IsDecided : Interruptions → (Disk × Outcome) → (Disk × Outcome) → Type 0
  IsDecided w r calm_r =
      ((r.0 ≡ disk) × (is_committed r.1 ≡ false))
      ⊎ ((p : PreparedTransition) × IsPending p
          × (r ≡ publish w persisted p disk)
          × (calm_r ≡ publish calm persisted p disk))

  commit_new_cases :
      (w : Interruptions)
      → find_event event.event_id h.events ≡ none
      → IsDecided w (commit_new host w event h.index disk) (commit_new host calm event h.index disk)
  unfolding commit_new
  commit_new_cases w fresh = elim (Result-cases (read_run host disk event.run_id)) [
    | inr (e, x) ↦ inl (ground arith)
    | inl (current, x) ↦
        elim (Result-cases (
          prepare_transition h.index current persisted
            (authority_for host persisted.mutation current))) [
              | inr (e, y) ↦ inl (ground arith)
              | inl (p, y) ↦ inr (
                p,
                record { fresh = fresh; current = current; run_read = x; prepared = y },
                ground arith,
                ground arith,
              )
            ]
  ]

  commit_replay-disk :
      (replay : StateEvent) (index : ActiveIndex)
      → ((commit_replay host replay event index disk).0 ≡ disk)
        × (is_committed (commit_replay host replay event index disk).1 ≡ false)
  unfolding commit_replay
  commit_replay-disk replay index = ground arith

  commit_locked_cases :
      (w : Interruptions)
      → IsDecided w (commit_locked host w event disk) (commit_locked host calm event disk)
  unfolding commit_locked
  commit_locked_cases w = elim (Option-cases (find_event event.event_id h.events)) [
    | inl absent ↦
        rw (h.index_read, h.events_read, absent, (nat_beq_iff _ _).1 h.in_step)
          (commit_new_cases w absent)
    | inr (replay, found) ↦
        inl (rw (h.index_read, h.events_read, found) (commit_replay-disk replay h.index))
  ]

  commit-eq :
      (w : Interruptions)
      → (((commit host w event disk).0 ≡ disk)
          × (is_committed (commit host w event disk).1 ≡ false))
        ⊎ (commit host w event disk ≡ commit_locked host w event disk)
  unfolding commit
  commit-eq w = ground arith

  pub commit_cases :
      (w : Interruptions) → IsDecided w (commit host w event disk) (commit host calm event disk)
  unfolding commit
  commit_cases w = elim (commit-eq w) [
    | inl same ↦ inl same
    | inr under ↦ rw under (commit_locked_cases w)
  ]

  module _ (p : PreparedTransition) where
    -- The directory behind each of the three writes.
    abbrev pub d1 : Disk
    d1 = append_event persisted disk

    abbrev pub d2 : Disk
    d2 = write_run p.run d1

    abbrev pub d3 : Disk
    d3 = write_index p.index d2

    pub publish_cases :
        (w : Interruptions)
        → ((publish w persisted p disk).0 ≡ disk)
          ⊎ ((publish w persisted p disk).0 ≡ d1)
          ⊎ ((publish w persisted p disk).0 ≡ d2)
          ⊎ ((publish w persisted p disk).0 ≡ d3)
    unfolding publish
    publish_cases w = ground arith

    pub publish-calm : (publish calm persisted p disk).0 ≡ d3
    unfolding publish
    publish-calm = refl

    module _ (pending : IsPending p) (readable : IsReadable p) where
      pub facts : IsPrepared h.index persisted p
      facts = prepare_transition-IsPrepared h.index pending.current persisted _ p pending.prepared

      pub log_read : read_all host.root.texts d1.events ≡ ok (h.events ++ persisted ∷ [])
      log_read =
          subst (λ e. read_all host.root.texts d1.events ≡ ok (h.events ++ e ∷ []))
            readable.event_kept
            (read_all-append host.root.texts disk.events h.events persisted h.events_read
              (omega (arith, facts.sequence, h.in_step))
              (subst (λ e. event_schema host.root.texts e ≡ true) (sym readable.event_kept)
                readable.event_accepted))
