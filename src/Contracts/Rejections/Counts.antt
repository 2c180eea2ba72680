-- ===== src/Contracts/Rejections/Counts.antt =====
-- worker-acceptance-ledger.ts: what a rejection counts.
use omp_lazy.Prelude.{
  ℕ, suc, ◌≡◌, ◌≤◌, refl, sym, ap, subst, ◌∙◌, true, Option, some, if◌then◌else◌, ◌==◌, string_eq,
  nat_eq, arith, ◌⊎◌, inl, inr, Bool-cases, eq_iff,
}
use omp_lazy.Prelude.Result.{Result, ok, ◌>>=◌}
use omp_lazy.State.Domain.{Run}
use omp_lazy.Contracts.LedgerSchema.{LedgerError}
use omp_lazy.Contracts.AcceptanceLedger.{LedgerHost}
use omp_lazy.Contracts.Rejections.{
  RejectionScope, RejectionRow, RejectionLedger, row_schema, count_of, replacement_of,
  rejection_key, row_key, rejection_ledger_schema, read_rejections, find_rejection, rejection_count,
  reject,
}
use omp_lazy.Contracts.Rejections.Updates.{
  row_key-replacement, run_id-replacement, row_schema-replacement, with_rows,
  find_rejection-updated, find_rejection-updated_other, schema-updated, count_of-bound,
  read_rejections-schema,
}

-- The count after one more rejection
abbrev pub counted : ℕ → ℕ
counted n = if n == 3 then 3 else suc n

module _ (host : LedgerHost) where
  module _ (run : Option Run) (file : Option RejectionLedger) (ledger : RejectionLedger)
      (scope other : RejectionScope) (e : read_rejections host run scope.run_id file ≡ ok ledger)
      (same_run : other.run_id ≡ scope.run_id) where
    -- The count `n` is the answer and is read; that of another key stays.
    abbrev pub IsCounted : ℕ → Option RejectionLedger × Result LedgerError ℕ → Type 0
    IsCounted n out =
        (n ≤ 3)
        × (out.1 ≡ ok n)
        × (rejection_count host run out.0 scope ≡ ok n)
        × ((rejection_key host ledger.version scope ≡ rejection_key host ledger.version other)
            ⊎ (rejection_count host run out.0 other ≡ rejection_count host run file other))

    count_read :
        (any_scope : RejectionScope)
        → any_scope.run_id ≡ scope.run_id
        → rejection_count host run file any_scope
          ≡ ok (count_of (find_rejection host ledger any_scope))
    unfolding rejection_count
    count_read any_scope same =
        ap
          (λ r. read_rejections host run r file >>= λ l.
            ok (count_of (find_rejection host l any_scope)))
          same
        ∙ ap (λ m. m >>= λ l. ok (count_of (find_rejection host l any_scope))) e

    full-IsCounted : count_of (find_rejection host ledger scope) ≡ 3 → IsCounted 3 (file, ok 3)
    full-IsCounted full = (omega arith, refl, count_read scope refl ∙ ap ok full, inr refl)

    updated-IsCounted :
        (row : RejectionRow)
        (k : row_key host ledger.version row ≡ rejection_key host ledger.version scope)
        → row.count ≤ 3
        → let updated = with_rows host ledger scope row k (find_rejection host ledger scope) in
          rejection_ledger_schema host updated ≡ true
          → IsCounted row.count (some updated, ok row.count)
    unfolding rejection_count
    updated-IsCounted row k le s =
        let o = find_rejection host ledger scope in
        let updated = with_rows host ledger scope row k o in
        let mine : rejection_count host run (some updated) scope ≡ ok row.count =
          rw (s, find_rejection-updated host ledger scope row k o refl) refl in
        let theirs : (other : RejectionScope)
            → rejection_count host run (some updated) other
              ≡ ok (count_of (find_rejection host updated other)) =
          λ other. rw s refl in
        (
          le,
          refl,
          mine,
          elim (Bool-cases (
              rejection_key host ledger.version scope == rejection_key host ledger.version other)) [
                | inl y ↦ inl (
                    (eq_iff (rejection_key host ledger.version scope)
                        (rejection_key host ledger.version other)).0
                      y)
                | inr n ↦ inr (
                    theirs other
                    ∙ ap (λ x. ok (count_of x))
                        (find_rejection-updated_other host ledger scope row k o other n)
                    ∙ sym (count_read other same_run))
              ],
        )

  -- A rejection in a readable ledger of the run, whose scope fits the ledger's version and whose
  -- write completes, counts one more, up to three; it answers that count, which is then read for
  -- its scope, and the count of any other key of the run stays.
  pub reject-IsCounted :
      (run : Option Run) (file : Option RejectionLedger) (ledger : RejectionLedger)
      (scope other : RejectionScope) (e : read_rejections host run scope.run_id file ≡ ok ledger)
      (same_run : other.run_id ≡ scope.run_id)
      → ledger.run_id ≡ scope.run_id
      → row_schema ledger.version (replacement_of ledger.version scope 1) ≡ true
      → IsCounted run file ledger scope other e same_run
          (counted (count_of (find_rejection host ledger scope)))
          (reject host run true file scope)
  unfolding reject
  reject-IsCounted run file ledger scope other e same_run r w =
      let o = find_rejection host ledger scope in
      let c = count_of o in
      let row = replacement_of ledger.version scope (suc c) in
      let s = read_rejections-schema host run scope.run_id file ledger e in
      let bound = count_of-bound host ledger scope o s refl in
      let k = row_key-replacement host ledger.version scope (suc c) in
      let P = IsCounted run file ledger scope other e same_run in
      elim (Bool-cases (c == 3)) [
        | inl full ↦
            let three : c ≡ 3 = ground (arith, full) in
            let out : reject host run true file scope ≡ (file, ok 3) = ground (arith, e, full) in
            let n : 3 ≡ counted c = ground (arith, full) in
            subst (P (counted c)) (sym out) (
              subst (λ m. P m (file, ok 3)) n
                (full-IsCounted run file ledger scope other e same_run three))
        | inr below ↦
            let least : c ≤ 2 = ground (arith, bound, below) in
            let fits = row_schema-replacement host ledger.version scope c w least in
            let whole =
              schema-updated host ledger scope row k o refl
                (run_id-replacement host ledger.version scope (suc c) ∙ sym r) fits s in
            let updated = with_rows host ledger scope row k o in
            let out : reject host run true file scope ≡ (some updated, ok (suc c)) =
              ground (arith, e, below, fits, whole) in
            let n : suc c ≡ counted c = ground (arith, below) in
            subst (P (counted c)) (sym out) (
              subst (λ m. P m (some updated, ok (suc c))) n
                (updated-IsCounted run file ledger scope other e same_run row k
                  (omega (arith, least)) whole))
      ]
