-- ===== src/Contracts/Rejections/Updates.antt =====
-- worker-acceptance-ledger.ts: a ledger with one entry replaced or added.
use omp_lazy.Prelude.{
  ℕ, suc, String, ◌≡◌, ◌≤◌, refl, subst, true, false, List, [], ◌∷◌, ◌++◌, Option, none, some, map,
  find, if◌then◌else◌, ◌==◌, string_eq, nat_eq, arith, inl, inr, Bool-cases, eq_iff,
}
use omp_lazy.Prelude.Result.{ok}
use omp_lazy.State.Domain.{Run}
use omp_lazy.Contracts.LedgerSchema.{LedgerVersion, v1, v2}
use omp_lazy.Contracts.AcceptanceLedger.{LedgerHost, fresh_version}
use omp_lazy.Contracts.Rejections.{
  RejectionScope, RejectionRow, RejectionLedger, row_schema, count_of, replacement_of,
  rejection_key, row_key, rejection_ledger_schema, read_rejections, find_rejection, replaced,
}
use omp_lazy.Contracts.Rejections.Keys.{
  find-all, find-added, find-replaced, find-added_other, find-replaced_other, map-replaced,
  all-replaced, all-added, no_duplicates-added,
}

module _ (host : LedgerHost) where
  pub row_key-replacement :
      (version : LedgerVersion) (scope : RejectionScope) (n : ℕ)
      → row_key host version (replacement_of version scope n) ≡ rejection_key host version scope
  row_key-replacement v1 scope n = refl
  row_key-replacement v2 scope n = refl

  pub run_id-replacement :
      (version : LedgerVersion) (scope : RejectionScope) (n : ℕ)
      → (replacement_of version scope n).scope.run_id ≡ scope.run_id
  run_id-replacement v1 scope n = refl
  run_id-replacement v2 scope n = refl

  pub row_schema-replacement :
      (version : LedgerVersion) (scope : RejectionScope) (n : ℕ)
      → row_schema version (replacement_of version scope 1) ≡ true
      → n ≤ 2
      → row_schema version (replacement_of version scope (suc n)) ≡ true
  row_schema-replacement v1 scope n h le = ground (arith, h)
  row_schema-replacement v2 scope n h le = ground (arith, h)

  abbrev of_run : LedgerVersion → String → List RejectionRow → RejectionLedger
  of_run version run_id rows = record { version = version; run_id = run_id; entries = rows }

  module _ (run_id k : String) (row : RejectionRow) (of_run_id : row.scope.run_id ≡ run_id) where
    schema-added :
        (version : LedgerVersion) (rows : List RejectionRow)
        → row_schema version row ≡ true
        → row_key host version row ≡ k
        → find (λ x. row_key host version x == k) rows ≡ none
        → rejection_ledger_schema host (of_run version run_id rows) ≡ true
        → rejection_ledger_schema host (of_run version run_id (rows ++ row ∷ [])) ≡ true
    unfolding rejection_ledger_schema
    schema-added v1 rows w e f s =
        ground (arith, all-added (row_key host v1) k row e (row_schema v1) rows)
    schema-added v2 rows w e f s = ground (
      arith,
      s,
      w,
      all-added (row_key host v2) k row e (row_schema v2) rows,
      all-added (row_key host v2) k row e (λ x. x.scope.run_id == run_id) rows,
      no_duplicates-added (row_key host v2) k row e rows f,
      eq_iff row.scope.run_id run_id,
    )

    schema-replaced :
        (version : LedgerVersion) (rows : List RejectionRow)
        → row_schema version row ≡ true
        → row_key host version row ≡ k
        → rejection_ledger_schema host (of_run version run_id rows) ≡ true
        → rejection_ledger_schema host
            (of_run version run_id (map (λ x. if row_key host version x == k then row else x) rows))
          ≡ true
    unfolding rejection_ledger_schema
    schema-replaced v1 rows w e s =
        ground (arith, all-replaced (row_key host v1) k row e (row_schema v1) rows)
    schema-replaced v2 rows w e s = ground (
      arith,
      s,
      w,
      all-replaced (row_key host v2) k row e (row_schema v2) rows,
      all-replaced (row_key host v2) k row e (λ x. x.scope.run_id == run_id) rows,
      map-replaced (row_key host v2) k row e rows,
      eq_iff row.scope.run_id run_id,
    )

  module _ (ledger : RejectionLedger) (scope : RejectionScope) (row : RejectionRow)
      (key_of_scope : row_key host ledger.version row
        ≡ rejection_key host ledger.version scope) where
    abbrev pub with_rows : Option RejectionRow → RejectionLedger
    with_rows o = record ledger { entries = replaced host ledger scope row o }

    pub find_rejection-updated :
        (o : Option RejectionRow)
        → find_rejection host ledger scope ≡ o
        → find_rejection host (with_rows o) scope ≡ some row
    find_rejection-updated none f =
        find-added (row_key host ledger.version) _ row key_of_scope ledger.entries f
    find_rejection-updated (some old) f =
        find-replaced (row_key host ledger.version) _ row key_of_scope ledger.entries old f

    pub find_rejection-updated_other :
        (o : Option RejectionRow) (other : RejectionScope)
        → (rejection_key host ledger.version scope == rejection_key host ledger.version other)
          ≡ false
        → find_rejection host (with_rows o) other ≡ find_rejection host ledger other
    find_rejection-updated_other none other n =
        find-added_other (row_key host ledger.version) _ row key_of_scope _ ledger.entries n
    find_rejection-updated_other (some old) other n =
        find-replaced_other (row_key host ledger.version) _ row key_of_scope _ ledger.entries n

    pub schema-updated :
        (o : Option RejectionRow)
        → find_rejection host ledger scope ≡ o
        → row.scope.run_id ≡ ledger.run_id
        → row_schema ledger.version row ≡ true
        → rejection_ledger_schema host ledger ≡ true
        → rejection_ledger_schema host (with_rows o) ≡ true
    schema-updated none f q w s =
        schema-added ledger.run_id _ row q ledger.version ledger.entries w key_of_scope f s
    schema-updated (some old) f q w s =
        schema-replaced ledger.run_id _ row q ledger.version ledger.entries w key_of_scope s

  pub count_of-bound :
      (ledger : RejectionLedger) (scope : RejectionScope) (o : Option RejectionRow)
      → rejection_ledger_schema host ledger ≡ true
      → find_rejection host ledger scope ≡ o
      → count_of o ≤ 3
  unfolding rejection_ledger_schema
  count_of-bound ledger scope none s f = omega arith
  count_of-bound ledger scope (some old) s f =
      ground
        (arith, s, find-all (row_schema ledger.version) _ ledger.entries old (ground (arith, s)) f)

  empty_schema :
      (version : LedgerVersion) (run_id : String)
      → rejection_ledger_schema host (of_run version run_id []) ≡ true
  unfolding rejection_ledger_schema
  empty_schema v1 run_id = refl
  empty_schema v2 run_id = refl

  pub read_rejections-schema :
      (run : Option Run) (run_id : String) (file : Option RejectionLedger)
      (ledger : RejectionLedger)
      → read_rejections host run run_id file ≡ ok ledger
      → rejection_ledger_schema host ledger ≡ true
  unfolding rejection_ledger_schema
  read_rejections-schema run run_id none ledger e =
      let same_ledger : of_run (fresh_version run) run_id [] ≡ ledger = ground (arith, e) in
      subst (λ l. rejection_ledger_schema host l ≡ true) same_ledger
        (empty_schema (fresh_version run) run_id)
  read_rejections-schema run run_id (some found) ledger e =
      elim (Bool-cases (rejection_ledger_schema host found)) [
        | inl y ↦
            let same_ledger : found ≡ ledger = ground (arith, e, y) in
            subst (λ l. rejection_ledger_schema host l ≡ true) same_ledger y
        | inr n ↦ absurd (ground (arith, e, n))
      ]
