-- ===== src/State/Recovery/Atomicity.antt =====
-- transaction-store.ts and recovery.ts together: an interrupted transaction, once repaired, has
-- happened as a whole or not at all.
use omp_lazy.Prelude.{◌≡◌, refl, List, [], ◌∷◌, ◌⊎◌, inl, inr, ap, sym, subst, ◌∙◌}
use omp_lazy.State.Domain.{StateEvent}
use omp_lazy.State.Transition.{PreparedTransition}
use omp_lazy.State.Store.{Outcome, Host, Disk, Interruptions, calm, publish, commit}
use omp_lazy.State.Recovery.{calm_repair, repair_state}
use omp_lazy.State.Recovery.Pending
use omp_lazy.State.Recovery.Pending.{IsHealthy, IsPending, IsReadable}
use omp_lazy.State.Recovery.Repairs.{
  repair_healthy, repair_after_event, repair_after_run, after_index-IsHealthy,
}

-- The directory behind an interrupted commit and a repair that nothing interrupts.
abbrev pub recovered : Host → Interruptions → StateEvent → Disk → Disk
recovered host w event disk = (repair_state host calm_repair (commit host w event disk).0).0

-- The directory behind a commit that nothing interrupts.
abbrev pub completed : Host → StateEvent → Disk → Disk
completed host event disk = (commit host calm event disk).0

-- Whatever the event would publish can be read again.
abbrev pub KeepsReadable :
    (host : Host) (event : StateEvent) (disk : Disk) → IsHealthy host disk → Type 0
KeepsReadable host event disk h =
    (p : PreparedTransition) → IsPending host event disk h p → IsReadable host event disk h p

module _ (host : Host) (w : Interruptions) (event : StateEvent) (disk : Disk)
    (h : IsHealthy host disk) (keeps : KeepsReadable host event disk h) where
  abbrev repair_of : Disk → Disk
  repair_of d = (repair_state host calm_repair d).0

  -- Where the interrupted commit stopped decides between the two.
  recovered_from :
      (p : PreparedTransition) (d : Disk)
      → IsPending host event disk h p
      → commit host w event disk ≡ publish w (Pending.persisted host event disk h) p disk
      → commit host calm event disk ≡ publish calm (Pending.persisted host event disk h) p disk
      → (publish w (Pending.persisted host event disk h) p disk).0 ≡ d
      → repair_of d ≡ Pending.d3 host event disk h p
      → recovered host w event disk ≡ completed host event disk
  recovered_from p d pending now plain stopped fixed =
      ap repair_of (ap (λ (r : Disk × Outcome). r.0) now ∙ stopped)
      ∙ fixed
      ∙ sym (ap (λ (r : Disk × Outcome). r.0) plain ∙ Pending.publish-calm host event disk h p)

  completed-IsHealthy :
      (p : PreparedTransition)
      → IsPending host event disk h p
      → commit host calm event disk ≡ publish calm (Pending.persisted host event disk h) p disk
      → IsHealthy host (completed host event disk)
  completed-IsHealthy p pending plain =
      subst (IsHealthy host)
        (sym (ap (λ (r : Disk × Outcome). r.0) plain ∙ Pending.publish-calm host event disk h p))
        (after_index-IsHealthy host event disk h p pending (keeps p pending))

  abbrev IsWhole : Type 0
  IsWhole =
      (recovered host w event disk ≡ disk)
      ⊎ ((recovered host w event disk ≡ completed host event disk)
          × IsHealthy host (completed host event disk))

  recovered_cases : IsWhole
  recovered_cases = elim (Pending.commit_cases host event disk h w) [
    | inl (same, none_made) ↦ inl (ap repair_of same ∙ repair_healthy host disk h)
    | inr (p, pending, now, plain) ↦
        let readable = keeps p pending in
        let fine = completed-IsHealthy p pending plain in
        let last = after_index-IsHealthy host event disk h p pending readable in
        let cases : IsWhole = elim (Pending.publish_cases host event disk h p w) [
          | inl none_done ↦ inl (
              ap repair_of (ap (λ (r : Disk × Outcome). r.0) now ∙ none_done)
              ∙ repair_healthy host disk h)
          | inr (inl b) ↦ inr (
            recovered_from p _ pending now plain b
                (repair_after_event host event disk h p pending readable),
            fine,
          )
          | inr (inr (inl c)) ↦ inr (
            recovered_from p _ pending now plain c
                (repair_after_run host event disk h p pending readable),
            fine,
          )
          | inr (inr (inr d)) ↦
              inr (recovered_from p _ pending now plain d (repair_healthy host _ last), fine)
        ] in
        cases
  ]

  -- From a healthy directory, if what the event would publish can be read again: however the
  -- commit is interrupted, the repair leaves the directory as it was, or as the commit with no
  -- interruption leaves it.
  pub recovered-atomic :
      (recovered host w event disk ≡ disk)
      ⊎ (recovered host w event disk ≡ completed host event disk)
  recovered-atomic = elim recovered_cases [ inl a ↦ inl a | inr (b, fine) ↦ inr b ]

  pub recovered-IsHealthy : IsHealthy host (recovered host w event disk)
  recovered-IsHealthy = elim recovered_cases [
    | inl a ↦ subst (IsHealthy host) (sym a) h
    | inr (b, fine) ↦ subst (IsHealthy host) (sym b) fine
  ]

-- Attempts in a row, each repaired before the next.
abbrev pub attempt_all : Host → List (Interruptions × StateEvent) → Disk → Disk
attempt_all host [] disk = disk
attempt_all host ((w, e) ∷ rest) disk = attempt_all host rest (recovered host w e disk)

-- Commits in a row that nothing interrupts.
abbrev pub complete_all : Host → List StateEvent → Disk → Disk
complete_all host [] disk = disk
complete_all host (e ∷ es) disk = complete_all host es (completed host e disk)

-- At each attempt, what the event would publish can be read again.
abbrev pub AllReadable : Host → List (Interruptions × StateEvent) → Disk → Type 0
AllReadable host [] disk = Unit
AllReadable host ((w, e) ∷ rest) disk =
    ((h : IsHealthy host disk) → KeepsReadable host e disk h)
    × AllReadable host rest (recovered host w e disk)

-- The events of some of the attempts, in their order.
pub data IsChosen : List StateEvent → List (Interruptions × StateEvent) → Type 0 where
  none_left : IsChosen [] []
  kept :
      {w : Interruptions} {e : StateEvent} {es : List StateEvent}
      {rest : List (Interruptions × StateEvent)}
      → IsChosen es rest
      → IsChosen (e ∷ es) ((w, e) ∷ rest)
  dropped :
      {w : Interruptions} {e : StateEvent} {es : List StateEvent}
      {rest : List (Interruptions × StateEvent)}
      → IsChosen es rest
      → IsChosen es ((w, e) ∷ rest)

-- A series of attempts, each interrupted anywhere and then repaired, leaves the directory that
-- some of their events leave when they are committed in order with no interruption, if at each
-- attempt what the event would publish can be read again; and that directory is healthy.
pub attempt_all-serial :
    (host : Host) (attempts : List (Interruptions × StateEvent)) (disk : Disk)
    → IsHealthy host disk
    → AllReadable host attempts disk
    → (es : List StateEvent) × IsChosen es attempts
      × (attempt_all host attempts disk ≡ complete_all host es disk)
      × IsHealthy host (attempt_all host attempts disk)
attempt_all-serial host [] disk h r = ([], none_left, refl, h)
attempt_all-serial host ((w, e) ∷ rest) disk h (keeps, more) =
    let next = recovered-IsHealthy host w e disk h (keeps h) in
    let (es, chosen, same, fine) =
      attempt_all-serial host rest (recovered host w e disk) next more in
    elim (recovered-atomic host w e disk h (keeps h)) [
      | inl undone ↦ (es, dropped chosen, same ∙ ap (complete_all host es) undone, fine)
      | inr whole ↦ (e ∷ es, kept chosen, same ∙ ap (complete_all host es) whole, fine)
    ]
