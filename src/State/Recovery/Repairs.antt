-- ===== src/State/Recovery/Repairs.antt =====
-- recovery.ts: the repair of a directory that an interrupted transaction has left behind.
use omp_lazy.Prelude.{
  ◌+◌, ◌≡◌, refl, sym, ◌∙◌, true, false, String, [], ◌∷◌, ◌++◌, Option, none, some, Option-cases,
  arith, eq_iff, get_last?, ◌==◌, string_eq, nat_eq, nat_beq_iff, inl, inr, Bool, if◌then◌else◌,
}
use omp_lazy.Prelude.Result.{ok}
use omp_lazy.State.Domain.{Run, StateEvent, WorkflowKind}
use omp_lazy.State.Index.{same_workflow}
use omp_lazy.State.Codec.{decode_run}
use omp_lazy.State.Events.{read_all, highest}
use omp_lazy.State.Events.Append.{get_last?-append}
use omp_lazy.State.Transition.{PreparedTransition, derive_index, prepare_transition}
use omp_lazy.State.Store.{
  Host, Disk, read_index, read_run, persisted_event_for_index, authority_for,
}
use omp_lazy.State.Recovery.{calm_repair, finish_repair, repair_run, repair_event, repair_state}
use omp_lazy.State.Recovery.Pending
use omp_lazy.State.Recovery.Pending.{IsHealthy, IsPending, IsReadable}

pub read_run-stored :
    (host : Host) (disk : Disk) (id : String) (run : Run)
    → read_run host disk id ≡ ok (some run)
    → (raw : Run) × (disk.runs id ≡ some raw)
      × (run.transaction_revision ≡ raw.transaction_revision)
unfolding read_run decode_run
read_run-stored host disk id run r = elim (Option-cases (disk.runs id)) [
  | inl e ↦ absurd (ground arith)
  | inr (raw, e) ↦ (raw, e, ground arith)
]

-- A healthy directory has nothing to repair.
pub repair_healthy :
    (host : Host) (disk : Disk)
    → IsHealthy host disk
    → (repair_state host calm_repair disk).0 ≡ disk
unfolding repair_state repair_event
repair_healthy host disk h =
    rw (h.index_read, h.events_read)
      (elim (Option-cases (get_last? h.events)) [
        | inl empty ↦ rw empty
        | inr (e, last) ↦
            let top : e.sequence ≡ h.index.revision = rw (last, highest) at h.in_step in
            rw last (ground arith)
      ])

same_workflow_refl : (w : WorkflowKind) → same_workflow w w ≡ true
same_workflow_refl WorkflowKind.start_work = refl
same_workflow_refl WorkflowKind.ulw_loop = refl

module _ (host : Host) (event : StateEvent) (disk : Disk) (h : IsHealthy host disk)
    (p : PreparedTransition) (pending : IsPending host event disk h p)
    (readable : IsReadable host event disk h p) where
  abbrev persisted : StateEvent
  persisted = Pending.persisted host event disk h

  abbrev after_event : Disk
  after_event = Pending.d1 host event disk h p

  abbrev after_run : Disk
  after_run = Pending.d2 host event disk h p

  abbrev after_index : Disk
  after_index = Pending.d3 host event disk h p

  persisted-run_id : persisted.run_id ≡ event.run_id
  unfolding persisted_event_for_index
  persisted-run_id = ground arith

  -- Up to the run's snapshot the repair is the same for both directories.
  repair_step :
      (d : Disk) (current : Option Run)
      → read_index host d ≡ ok h.index
      → read_all host.root.texts d.events ≡ ok (h.events ++ persisted ∷ [])
      → read_run host d event.run_id ≡ ok current
      → repair_state host calm_repair d ≡ repair_run host calm_repair persisted h.index d current
  unfolding repair_state repair_event
  repair_step d current i l r =
      let facts = Pending.facts host event disk h p pending readable in
      let next : persisted.sequence ≡ h.index.revision + 1 = omega (arith, facts.sequence) in
      rw
        (
          i,
          l,
          get_last?-append h.events persisted,
          (nat_beq_iff _ _).1 next,
          (nat_beq_iff _ _).1 facts.expected,
          persisted-run_id,
          r,
        )
        refl

  finish_published :
      (published : Bool)
      → (finish_repair calm_repair published p.run
          (derive_index h.index p.run persisted.sequence)
          (if published then after_run else after_event)).0
        ≡ after_index
  unfolding finish_repair
  finish_published published =
      let facts = Pending.facts host event disk h p pending readable in
      rw (← facts.derived) (ground arith)

  repair_behind :
      (current : Option Run)
      → read_run host disk event.run_id ≡ ok current
      → prepare_transition h.index current persisted (authority_for host persisted.mutation current)
        ≡ ok p
      → (repair_run host calm_repair persisted h.index after_event current).0 ≡ after_index
  unfolding repair_run
  repair_behind none r e = rw e (finish_published false)
  repair_behind (some run) r e =
      let facts = Pending.facts host event disk h p pending readable in
      let (raw, stored, same) = read_run-stored host disk event.run_id run r in
      let old = h.runs_behind event.run_id raw stored in
      let older : (run.transaction_revision == persisted.sequence) ≡ false =
        ground (arith, facts.sequence, old, same) in
      rw (older, e) (finish_published false)

  run_id_matches : (event.run_id == p.run.run_id) ≡ true
  run_id_matches =
      let facts = Pending.facts host event disk h p pending readable in
      (eq_iff _ _).1 (sym (facts.run_id ∙ persisted-run_id))

  pub read_run-after_run : read_run host after_run event.run_id ≡ ok (some p.run)
  unfolding read_run
  read_run-after_run = rw run_id_matches (rw readable.run_accepted refl)

  pub repair_after_event : (repair_state host calm_repair after_event).0 ≡ after_index
  repair_after_event =
      rw
        (repair_step after_event pending.current (unfold read_index in h.index_read)
          (Pending.log_read host event disk h p pending readable)
          (unfold read_run in pending.run_read))
        (repair_behind pending.current pending.run_read pending.prepared)

  repair_ahead :
      (repair_run host calm_repair persisted h.index after_run (some p.run)).0 ≡ after_index
  unfolding repair_run
  repair_ahead =
      let facts = Pending.facts host event disk h p pending readable in
      let same = same_workflow_refl persisted.workflow in
      rw
        (
          (nat_beq_iff _ _).1 facts.transaction,
          (eq_iff _ _).1 facts.run_id,
          facts.workflow_kind,
          same,
        )
        (finish_published true)

  pub repair_after_run : (repair_state host calm_repair after_run).0 ≡ after_index
  repair_after_run =
      rw
        (repair_step after_run (some p.run) (unfold read_index in h.index_read)
          (Pending.log_read host event disk h p pending readable) read_run-after_run)
        repair_ahead

  pub after_index-IsHealthy : IsHealthy host after_index
  after_index-IsHealthy =
      let facts = Pending.facts host event disk h p pending readable in
      record {
        index = p.index;
        events = h.events ++ persisted ∷ [];
        index_read = unfold read_index in readable.index_accepted;
        events_read = Pending.log_read host event disk h p pending readable;
        in_step = rw (get_last?-append h.events persisted, highest) (sym facts.revision);
        runs_behind = λ id run e.
            ground (arith, facts.transaction, facts.revision, facts.sequence, h.runs_behind id run);
      }
