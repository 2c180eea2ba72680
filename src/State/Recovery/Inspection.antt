-- ===== src/State/Recovery/Inspection.antt =====
-- recovery.ts: what the inspection finds after an interrupted transaction.
use omp_lazy.Prelude.{◌+◌, ◌≡◌, sym, subst, ◌⊎◌, inl, inr, ap, ◌∙◌, [], ◌∷◌, ◌++◌, arith}
use omp_lazy.Prelude.Result.{ok}
use omp_lazy.State.Domain.{StateEvent}
use omp_lazy.State.Events.{read_all, highest}
use omp_lazy.State.Events.Append.{get_last?-append}
use omp_lazy.State.Transition.{PreparedTransition}
use omp_lazy.State.Store.{Outcome, Host, Disk, Interruptions, read_index, publish, commit}
use omp_lazy.State.Recovery.{RecoveryInspection, healthy, repairable, inspect_recovery}
use omp_lazy.State.Recovery.Pending
use omp_lazy.State.Recovery.Pending.{IsHealthy, IsPending, IsReadable}
use omp_lazy.State.Recovery.Repairs.{after_index-IsHealthy}
use omp_lazy.State.Recovery.Atomicity.{KeepsReadable}

inspect_healthy :
    (host : Host) (disk : Disk) (h : IsHealthy host disk)
    → inspect_recovery host disk ≡ healthy h.index.revision
unfolding inspect_recovery
inspect_healthy host disk h = rw (h.index_read, h.events_read) (ground (arith, h.in_step))

module _ (host : Host) (event : StateEvent) (disk : Disk) (h : IsHealthy host disk) where
  -- Nothing to do for the index before the event or after it, or the event to complete.
  abbrev pub IsRecoverable : RecoveryInspection → Type 0
  IsRecoverable found =
      (found ≡ healthy h.index.revision)
      ⊎ (found ≡ repairable (h.index.revision + 1))
      ⊎ (found ≡ healthy (h.index.revision + 1))

  module _ (p : PreparedTransition) (pending : IsPending host event disk h p)
      (readable : IsReadable host event disk h p) where
    inspect_ahead :
        (d : Disk)
        → read_index host d ≡ ok h.index
        → read_all host.root.texts d.events
          ≡ ok (h.events ++ Pending.persisted host event disk h ∷ [])
        → inspect_recovery host d ≡ repairable (h.index.revision + 1)
    unfolding inspect_recovery
    inspect_ahead d i l =
        let facts = Pending.facts host event disk h p pending readable in
        let top : highest (h.events ++ Pending.persisted host event disk h ∷ [])
            ≡ h.index.revision + 1 =
          rw (get_last?-append h.events (Pending.persisted host event disk h), highest)
            (omega (arith, facts.sequence)) in
        rw (i, l) (ground (arith, top))

  module _ (w : Interruptions) (keeps : KeepsReadable host event disk h) where
    inspect_stopped :
        (p : PreparedTransition) (pending : IsPending host event disk h p)
        → IsReadable host event disk h p
        → IsRecoverable
            (inspect_recovery host (publish w (Pending.persisted host event disk h) p disk).0)
    inspect_stopped p pending readable =
        let facts = Pending.facts host event disk h p pending readable in
        let log = Pending.log_read host event disk h p pending readable in
        let index_before : read_index host (Pending.d1 host event disk h p) ≡ ok h.index =
          unfold read_index in h.index_read in
        let index_between : read_index host (Pending.d2 host event disk h p) ≡ ok h.index =
          unfold read_index in h.index_read in
        let index_after : read_index host (Pending.d3 host event disk h p) ≡ ok p.index =
          unfold read_index in readable.index_accepted in
        let last = after_index-IsHealthy host event disk h p pending readable in
        elim (Pending.publish_cases host event disk h p w) [
          | inl a ↦ inl (ap (inspect_recovery host) a ∙ inspect_healthy host disk h)
          | inr (inl b) ↦ inr (
              inl (
                ap (inspect_recovery host) b ∙ inspect_ahead p pending readable _ index_before log))
          | inr (inr (inl c)) ↦ inr (
              inl (
                ap (inspect_recovery host) c
                ∙ inspect_ahead p pending readable _ index_between log))
          | inr (inr (inr d)) ↦
              let moved : last.index.revision ≡ h.index.revision + 1 =
                ground (arith, last.index_read, index_after, facts.sequence, facts.revision) in
              inr (
                inr (ap (inspect_recovery host) d ∙ inspect_healthy host _ last ∙ ap healthy moved))
        ]

    -- From a healthy directory, if what the event would publish can be read again: however the
    -- commit is interrupted, the inspection never finds a conflict. It finds the directory healthy
    -- at the old revision or at the next, or the one event to repair.
    pub inspect_recovery-commit : IsRecoverable (inspect_recovery host (commit host w event disk).0)
    inspect_recovery-commit = elim (Pending.commit_cases host event disk h w) [
      | inl (same, unmade) ↦ inl (ap (inspect_recovery host) same ∙ inspect_healthy host disk h)
      | inr (p, pending, now, plain) ↦
          subst (λ (r : Disk × Outcome). IsRecoverable (inspect_recovery host r.0)) (sym now)
            (inspect_stopped p pending (keeps p pending))
    ]
