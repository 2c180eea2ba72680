-- ===== src/Contracts/AcceptanceLedger/Recovery.antt =====
-- worker-acceptance-ledger.ts: what an accept leaves to be read, wherever it stops.
use omp_lazy.Prelude.{
  suc, ◌≡◌, ◌≢◌, refl, sym, ap, subst, ◌∙◌, String, Bool, true, List, [], ◌∷◌, ◌++◌, Option, none,
  some, ◌==◌, string_eq, nat_eq, find, arith, beq_refl, ◌⊎◌, inl, inr, Bool-cases, Option-cases,
}
use omp_lazy.Prelude.Result.{Result, ok}
use omp_lazy.State.Domain.{Run}
use omp_lazy.State.Receipts.{AcceptanceEvent}
use omp_lazy.Contracts.LedgerSchema.{
  v2, Ledger, LedgerFiles, LedgerError, entry_schema, ledger_schema, acceptance_event_schema,
}
use omp_lazy.Contracts.AcceptanceLedger.{
  LedgerHost, LedgerFaults, AcceptAnswer, accepted, replayed, same, fits_wal, read_acceptance,
  candidate_of, appended, write_accepted, accept,
}
use omp_lazy.Contracts.AcceptanceLedger.Reading.{
  read_acceptance-Reading, Reading-read_acceptance, line_of, logged, published, Reading-logged,
  Reading-published,
}

module _ (host : LedgerHost) (run : Option Run) (faults : LedgerFaults) (files : LedgerFiles) where
  abbrev Outcome : Type 0
  Outcome = LedgerFiles × Result LedgerError AcceptAnswer

  -- Nothing was written, or the line of the log was, and perhaps the snapshot.
  abbrev IsWritten : Ledger → AcceptanceEvent → Outcome → Type 0
  IsWritten ledger c out =
      ((out.0 ≡ files) × (out.1 ≢ ok accepted))
      ⊎ ((fits_wal host (files.wal ++ line_of ledger c ∷ []) ≡ true)
          × ((out.0 ≡ logged files ledger c) ⊎ (out.0 ≡ published files ledger c)))

  write_accepted-IsWritten :
      (ledger : Ledger) (c : AcceptanceEvent)
      → IsWritten ledger c (
          write_accepted host faults files
            (appended ledger c)
            (record { schema_version = ledger.version; event = c }))
  unfolding write_accepted
  write_accepted-IsWritten ledger c = ground arith

  accept-IsWritten :
      (hash : String) (event : AcceptanceEvent) (ledger : Ledger)
      → read_acceptance host run event.run_id files ≡ ok ledger
      → let c = candidate_of host ledger hash event in
        let out = accept host run faults files hash event in
        ((out.0 ≡ files) × (out.1 ≢ ok accepted))
        ⊎ ((entry_schema ledger.version c ≡ true)
            × (find (λ x. x.idempotency_key == c.idempotency_key) ledger.entries ≡ none)
            × (ledger_schema (appended ledger c) ≡ true)
            × IsWritten ledger c out)
  unfolding accept
  accept-IsWritten hash event ledger e =
      let c = candidate_of host ledger hash event in
      elim (Bool-cases (entry_schema ledger.version c)) [
        | inr n ↦ inl (ground (arith, e, n))
        | inl y ↦
            elim (Option-cases
              (find (λ x. x.idempotency_key == c.idempotency_key) ledger.entries)) [
                | inr (old, f) ↦ inl (ground (arith, e, y, f))
                | inl absent ↦ elim (Bool-cases (ledger_schema (appended ledger c))) [
                  | inr n ↦ inl (ground (arith, e, y, absent, n))
                  | inl schema ↦ inr (
                    y,
                    absent,
                    schema,
                    let same_out : accept host run faults files hash event
                            ≡ write_accepted host faults files (appended ledger c)
                                (line_of ledger c) =
                          ground (arith, e, y, absent, schema) in
                        subst (IsWritten ledger c) (sym same_out)
                          (write_accepted-IsWritten ledger c),
                  )
                ]
              ]
      ]

  candidate_sequence :
      (ledger : Ledger) (hash : String) (event : AcceptanceEvent)
      → (candidate_of host ledger hash event).sequence ≡ suc ledger.ledger_revision
  unfolding candidate_of
  candidate_sequence ledger hash event = refl

  -- Nothing was written, or the candidate is read at the end.
  accept-read_acceptance :
      (hash : String) (event : AcceptanceEvent) (ledger : Ledger)
      → read_acceptance host run event.run_id files ≡ ok ledger
      → ledger.version ≡ v2
      → let c = candidate_of host ledger hash event in
        let out = accept host run faults files hash event in
        ((out.0 ≡ files) × (out.1 ≢ ok accepted))
        ⊎ ((entry_schema ledger.version c ≡ true)
            × (find (λ x. x.idempotency_key == c.idempotency_key) ledger.entries ≡ none)
            × (read_acceptance host run event.run_id out.0 ≡ ok (appended ledger c)))
  accept-read_acceptance hash event ledger e v =
      let c = candidate_of host ledger hash event in
      let read = read_acceptance host run event.run_id in
      let r = read_acceptance-Reading host run event.run_id files ledger e in
      elim (accept-IsWritten hash event ledger e) [
        | inl unwritten ↦ inl unwritten
        | inr (y, absent, schema, inl unwritten) ↦ inl unwritten
        | inr (y, absent, schema, inr (fits, w)) ↦
            let logs =
              Reading-logged host run event.run_id files ledger c r v y
                (candidate_sequence ledger hash event) fits schema in
            let snaps = Reading-published host run event.run_id files ledger c logs v in
            inr (
              y,
              absent,
              elim w [
                | inl l ↦ ap read l ∙ Reading-read_acceptance host run event.run_id _ _ logs
                | inr p ↦ ap read p ∙ Reading-read_acceptance host run event.run_id _ _ snaps
              ],
            )
      ]

  -- An accept onto a version 2 ledger is all or nothing wherever it stops, between the append to the
  -- log and the replacement of the snapshot too: the files read as the same ledger, or as the ledger
  -- with the candidate at its end, and as the latter when the answer is `accepted`.
  pub accept-atomic :
      (hash : String) (event : AcceptanceEvent) (ledger : Ledger)
      → read_acceptance host run event.run_id files ≡ ok ledger
      → ledger.version ≡ v2
      → let out = accept host run faults files hash event in
        ((read_acceptance host run event.run_id out.0 ≡ ok ledger) × (out.1 ≢ ok accepted))
        ⊎ (read_acceptance host run event.run_id out.0
            ≡ ok (appended ledger (candidate_of host ledger hash event)))
  accept-atomic hash event ledger e v = elim (accept-read_acceptance hash event ledger e v) [
    | inl (unchanged, not_accepted) ↦
        inl (ap (read_acceptance host run event.run_id) unchanged ∙ e, not_accepted)
    | inr (y, absent, reads) ↦ inr reads
  ]

find-snoc :
    (p : AcceptanceEvent → Bool) (es : List AcceptanceEvent) (c : AcceptanceEvent)
    → find p es ≡ none
    → p c ≡ true
    → find p (es ++ c ∷ []) ≡ some c
find-snoc p [] c n y = ground (arith, y)
find-snoc p (e ∷ es) c n y = ground (arith, find-snoc p es c)

module _ (host : LedgerHost) (run : Option Run) where
  accept-replayed :
      (faults : LedgerFaults) (files : LedgerFiles) (hash : String) (event : AcceptanceEvent)
      (ledger : Ledger)
      → ledger.version ≡ v2
      → entry_schema ledger.version (candidate_of host ledger hash event) ≡ true
      → find
          (λ x. x.idempotency_key == (candidate_of host ledger hash event).idempotency_key)
          ledger.entries
        ≡ none
      → read_acceptance host run event.run_id files
        ≡ ok (appended ledger (candidate_of host ledger hash event))
      → accept host run faults files hash event ≡ (files, ok replayed)
  unfolding accept candidate_of entry_schema acceptance_event_schema
  accept-replayed faults files hash event ledger v y absent e =
      let c = candidate_of host ledger hash event in
      let again = candidate_of host (appended ledger c) hash event in
      let schema : entry_schema ledger.version again ≡ true = ground (arith, y) in
      let found : find (λ x. x.idempotency_key == c.idempotency_key) (ledger.entries ++ c ∷ [])
          ≡ some c =
        find-snoc _ ledger.entries c absent (beq_refl c.idempotency_key) in
      let as_before : same host c c ≡ true = beq_refl (host.stringify c) in
      rw (e, schema, found, as_before) refl

  -- Of two accepts of one event onto a version 2 ledger, each perhaps interrupted, the second writes
  -- nothing and answers `replayed`, unless the first wrote nothing.
  pub accept-again :
      (first second : LedgerFaults) (files : LedgerFiles) (hash : String) (event : AcceptanceEvent)
      (ledger : Ledger)
      → read_acceptance host run event.run_id files ≡ ok ledger
      → ledger.version ≡ v2
      → let out = accept host run first files hash event in
        ((out.0 ≡ files) × (out.1 ≢ ok accepted))
        ⊎ (accept host run second out.0 hash event ≡ (out.0, ok replayed))
  accept-again first second files hash event ledger e v =
      elim (accept-read_acceptance host run first files hash event ledger e v) [
        | inl unwritten ↦ inl unwritten
        | inr (y, absent, reads) ↦ inr (accept-replayed second _ hash event ledger v y absent reads)
      ]
