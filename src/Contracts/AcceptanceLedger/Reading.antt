-- ===== src/Contracts/AcceptanceLedger/Reading.antt =====
-- worker-acceptance-ledger.ts: how a ledger comes out of its files, before and after an append.
use omp_lazy.Prelude.{
  suc, ◌-◌, ◌≡◌, refl, sym, ap, subst, ◌∙◌, String, true, List, [], ◌∷◌, ◌++◌, Option, some, length,
  string_eq, nat_eq, get_elem?, All, arith, nat_beq_iff, inl, inr, Bool-cases,
}
use omp_lazy.Prelude.Result.{ok, ◌>>=◌, Result-cases}
use omp_lazy.State.Domain.{Run}
use omp_lazy.State.Receipts.{AcceptanceEvent}
use omp_lazy.Contracts.LedgerSchema.{
  v2, Ledger, WalLine, LedgerFiles, in_sequence, entry_schema, ledger_schema, parse_ledger,
}
use omp_lazy.Contracts.AcceptanceLedger.{
  LedgerHost, fits_wal, read_snapshot, read_acceptance_wal, replay_line, replay_wal,
  read_acceptance, appended,
}
use omp_lazy.Contracts.AcceptanceLedger.Replay.{
  IsReplayed, replay_wal-replayed, replay_wal-append, replay_wal-IsReplayed, get_elem?-length,
  length-snoc,
}

parse_ledger-ok : (l m : Ledger) → parse_ledger l ≡ ok m → (l ≡ m) × (ledger_schema m ≡ true)
parse_ledger-ok l m e = elim (Bool-cases (ledger_schema l)) [
  | inl y ↦
      let same_ledger : l ≡ m = ground (arith, y) in
      (same_ledger, subst (λ x. ledger_schema x ≡ true) same_ledger y)
  | inr n ↦ absurd (ground (arith, n))
]

-- A ledger with other entries, counted
abbrev rebuilt : Ledger → List AcceptanceEvent → Ledger
rebuilt ledger entries = record ledger { ledger_revision = length entries; entries = entries }

module _ (host : LedgerHost) (run : Option Run) (run_id : String) where
  -- How a ledger comes out of the files.
  pub record Reading (files : LedgerFiles) (ledger : Ledger) : Type 0 where
    snapshot : Ledger
    found : read_snapshot run run_id files.snapshot ≡ ok snapshot
    fits : fits_wal host files.wal ≡ true
    merged : replay_wal host snapshot.version snapshot.entries files.wal ≡ ok ledger.entries
    whole : rebuilt snapshot ledger.entries ≡ ledger
    schema : ledger_schema ledger ≡ true

  pub read_acceptance-Reading :
      (files : LedgerFiles) (ledger : Ledger)
      → read_acceptance host run run_id files ≡ ok ledger
      → Reading files ledger
  unfolding read_acceptance read_acceptance_wal
  read_acceptance-Reading files ledger e =
      elim (Result-cases (read_snapshot run run_id files.snapshot)) [
        | inr (code, f) ↦ absurd (ground (arith, f))
        | inl (snapshot, f) ↦ elim (Bool-cases (fits_wal host files.wal)) [
          | inr over ↦ absurd (ground (arith, f, over))
          | inl fits ↦
              elim (Result-cases (replay_wal host snapshot.version snapshot.entries files.wal)) [
                | inr (code, g) ↦ absurd (ground (arith, f, fits, g))
                | inl (entries, g) ↦
                    let whole : Ledger = rebuilt snapshot entries in
                    let parsed : parse_ledger whole ≡ ok ledger = ground (arith, f, fits, g) in
                    let (w, schema) = parse_ledger-ok whole ledger parsed in
                    let same_entries = ap (λ l. l.entries) w in
                    record {
                      snapshot = snapshot;
                      found = f;
                      fits = fits;
                      merged = g ∙ ap ok same_entries;
                      whole = subst (λ x. rebuilt snapshot x ≡ ledger) same_entries w;
                      schema = schema;
                    }
              ]
        ]
      ]

  pub Reading-read_acceptance :
      (files : LedgerFiles) (ledger : Ledger)
      → Reading files ledger
      → read_acceptance host run run_id files ≡ ok ledger
  unfolding read_acceptance read_acceptance_wal
  Reading-read_acceptance files ledger r = rw (r.found, r.fits, r.merged, r.whole, r.schema) refl

abbrev pub line_of : Ledger → AcceptanceEvent → WalLine
line_of ledger c = record { schema_version = ledger.version; event = c }

abbrev pub logged : LedgerFiles → Ledger → AcceptanceEvent → LedgerFiles
logged files ledger c = record {
  snapshot = files.snapshot;
  wal = files.wal ++ line_of ledger c ∷ [];
}

abbrev pub published : LedgerFiles → Ledger → AcceptanceEvent → LedgerFiles
published files ledger c = record {
  snapshot = some (appended ledger c);
  wal = files.wal ++ line_of ledger c ∷ [];
}

schema-sequence :
    (ledger : Ledger)
    → ledger.version ≡ v2
    → ledger_schema ledger ≡ true
    → (ledger.ledger_revision ≡ length ledger.entries)
      × (in_sequence ledger.run_id 0 ledger.entries ≡ true)
unfolding ledger_schema
schema-sequence ledger v s = (
  ground (arith, v, s, nat_beq_iff ledger.ledger_revision (length ledger.entries)),
  ground (arith, v, s),
)

module _ (host : LedgerHost) (run : Option Run) (run_id : String) where
  -- The candidate goes to the end.
  replay_line-new :
      (ledger : Ledger) (c : AcceptanceEvent)
      → ledger.version ≡ v2
      → ledger_schema ledger ≡ true
      → entry_schema ledger.version c ≡ true
      → c.sequence ≡ suc ledger.ledger_revision
      → replay_line host ledger.version ledger.entries (line_of ledger c)
        ≡ ok (ledger.entries ++ c ∷ [])
  unfolding replay_line
  replay_line-new ledger c v s w q =
      let place : c.sequence - 1 ≡ length ledger.entries =
        omega (arith, q, (schema-sequence ledger v s).0) in
      let absent = ap (get_elem? ledger.entries) place ∙ get_elem?-length ledger.entries in
      ground (arith, v, w, absent)

  rebuilt-appended :
      (ledger : Ledger) (c : AcceptanceEvent)
      → ledger.version ≡ v2
      → ledger_schema ledger ≡ true
      → rebuilt ledger (ledger.entries ++ c ∷ []) ≡ appended ledger c
  rebuilt-appended ledger c v s =
      let n : length (ledger.entries ++ c ∷ []) ≡ suc ledger.ledger_revision =
        omega (arith, length-snoc ledger.entries c, (schema-sequence ledger v s).0) in
      ap (λ k. record ledger { ledger_revision = k; entries = ledger.entries ++ c ∷ [] }) n

  pub Reading-logged :
      (files : LedgerFiles) (ledger : Ledger) (c : AcceptanceEvent)
      → Reading host run run_id files ledger
      → ledger.version ≡ v2
      → entry_schema ledger.version c ≡ true
      → c.sequence ≡ suc ledger.ledger_revision
      → fits_wal host (files.wal ++ line_of ledger c ∷ []) ≡ true
      → ledger_schema (appended ledger c) ≡ true
      → Reading host run run_id (logged files ledger c) (appended ledger c)
  unfolding replay_wal
  Reading-logged files ledger c r v w q fits schema = record {
    snapshot = r.snapshot;
    found = r.found;
    fits = fits;
    merged =
        replay_wal-append host r.snapshot.version r.snapshot.entries files.wal
          (line_of ledger c ∷ [])
        ∙ ap (λ m. m >>= λ x. replay_wal host r.snapshot.version x (line_of ledger c ∷ [])) r.merged
        ∙ added;
    whole =
        ap (λ l. rebuilt l (ledger.entries ++ c ∷ [])) r.whole
        ∙ rebuilt-appended ledger c v r.schema;
    schema = schema;
  }
    where
      same_ledgers : r.snapshot.version ≡ ledger.version
      same_ledgers = ap (λ l. l.version) r.whole

      added :
          replay_wal host r.snapshot.version ledger.entries (line_of ledger c ∷ [])
          ≡ ok (ledger.entries ++ c ∷ [])
      added = rw (same_ledgers, replay_line-new ledger c v r.schema w q) refl

  pub Reading-published :
      (files : LedgerFiles) (ledger : Ledger) (c : AcceptanceEvent)
      → Reading host run run_id (logged files ledger c) (appended ledger c)
      → ledger.version ≡ v2
      → Reading host run run_id (published files ledger c) (appended ledger c)
  Reading-published files ledger c r v = record {
    snapshot = appended ledger c;
    found = ground (arith, r.schema);
    fits = r.fits;
    merged =
        replay_wal-replayed host ledger.version (ledger.entries ++ c ∷ [])
          (files.wal ++ line_of ledger c ∷ []) repeats;
    whole =
        ap (λ k. record ledger { ledger_revision = k; entries = ledger.entries ++ c ∷ [] })
          (sym (schema-sequence (appended ledger c) v r.schema).0);
    schema = r.schema;
  }
    where
      same_ledgers : r.snapshot.version ≡ ledger.version
      same_ledgers = ap (λ l. l.version) r.whole

      repeats :
          All
            (IsReplayed host ledger.version (ledger.entries ++ c ∷ []))
            (files.wal ++ line_of ledger c ∷ [])
      repeats =
          replay_wal-IsReplayed host ledger.version ledger.run_id r.snapshot.entries _ _
            (subst
              (λ k.
                replay_wal host k r.snapshot.entries (files.wal ++ line_of ledger c ∷ [])
                ≡ ok (ledger.entries ++ c ∷ []))
              same_ledgers r.merged)
            (schema-sequence (appended ledger c) v r.schema).1
