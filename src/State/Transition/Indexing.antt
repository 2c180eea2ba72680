-- ===== src/State/Transition/Indexing.antt =====
-- state-transition.ts and active-index.ts: whether the index that a transition derives is one that
-- can be read again.
use omp_lazy.Prelude.{
  ℕ, ◌≡◌, refl, true, false, not, ◌&&◌, ◌||◌, List, [], ◌∷◌, ◌++◌, Bool, some, none, Option,
  Bool-cases, inl, inr, arith, any, filter, eq_iff,
}
use omp_lazy.Prelude.Result.{is_ok}
use omp_lazy.State.Domain.{Run, ActiveIndexEntry, ActiveIndex, IndexStatusHint}
use omp_lazy.State.Index.{same_key, same_run, validate_from, validate_active_index, status_hint}
use omp_lazy.State.Transition.{is_entry_of, entry_of, derived_entries, derive_index}

abbrev clashes : ActiveIndexEntry → List ActiveIndexEntry → Bool
clashes x es = any (same_key x) es || any (same_run x) es

validate_from-append :
    (seen es : List ActiveIndexEntry) (x : ActiveIndexEntry)
    → is_ok (validate_from seen (es ++ x ∷ []))
      ≡ (is_ok (validate_from seen es) && not (clashes x es || clashes x seen))
unfolding validate_from
validate_from-append seen [] x = ground arith
validate_from-append seen (e ∷ es) x = ground (arith, validate_from-append (e ∷ seen) es x)

-- Fewer entries seen, fewer clashes.
abbrev IsWithin : List ActiveIndexEntry → List ActiveIndexEntry → Type 0
IsWithin fewer seen = (x : ActiveIndexEntry) → clashes x seen ≡ false → clashes x fewer ≡ false

validate_from-filter :
    (p : ActiveIndexEntry → Bool) (fewer seen es : List ActiveIndexEntry)
    → IsWithin fewer seen
    → is_ok (validate_from seen es) ≡ true
    → is_ok (validate_from fewer (filter p es)) ≡ true
unfolding validate_from
validate_from-filter p fewer seen [] w h = refl
validate_from-filter p fewer seen (e ∷ es) w h = elim (Bool-cases (p e)) [
  | inl kept ↦ ground (
    arith,
    w e,
    kept,
    validate_from-filter p (e ∷ fewer) (e ∷ seen) es (λ x c. ground (arith, w x)),
  )
  | inr dropped ↦
      ground
        (arith, dropped, validate_from-filter p fewer (e ∷ seen) es (λ x c. ground (arith, w x)))
]

any-same_run-filter :
    (x : ActiveIndexEntry) (es : List ActiveIndexEntry)
    → any (same_run x) (filter (λ e. not (is_entry_of x.run_id e)) es) ≡ false
any-same_run-filter x [] = refl
any-same_run-filter x (e ∷ es) =
    ground (arith, any-same_run-filter x es, eq_iff x.run_id e.run_id, eq_iff e.run_id x.run_id)

-- The entries that the derived index keeps: those of other runs.
abbrev pub retained : ActiveIndex → Run → List ActiveIndexEntry
retained index run = filter (λ e. not (is_entry_of run.run_id e)) index.entries

-- Another run holds the place of this run's workflow and session.
abbrev pub is_taken : ActiveIndex → Run → ℕ → Option IndexStatusHint → Bool
is_taken index run sequence none = false
is_taken index run sequence (some hint) =
    any (same_key (entry_of run sequence hint)) (retained index run)

derived_entries-valid :
    (index : ActiveIndex) (run : Run) (sequence : ℕ) (hint : Option IndexStatusHint)
    → is_ok (validate_from [] index.entries) ≡ true
    → is_ok (validate_from [] (derived_entries (retained index run) run sequence hint))
      ≡ not (is_taken index run sequence hint)
derived_entries-valid index run sequence none h =
    validate_from-filter _ [] [] index.entries (λ x c. c) h
derived_entries-valid index run sequence (some hint) h =
    let x = entry_of run sequence hint in
    ground (
      arith,
      validate_from-append [] (retained index run) x,
      validate_from-filter (λ e. not (is_entry_of run.run_id e)) [] [] index.entries (λ y c. c) h,
      any-same_run-filter x index.entries,
    )

-- From an index that validates, the derived index validates exactly when the run is over or no
-- other run of the index has its workflow and session.
pub derive_index-valid :
    (index : ActiveIndex) (run : Run) (sequence : ℕ)
    → is_ok (validate_active_index index) ≡ true
    → is_ok (validate_active_index (derive_index index run sequence))
      ≡ not (is_taken index run sequence (status_hint run))
unfolding validate_active_index derive_index
derive_index-valid index run sequence h =
    derived_entries-valid index run sequence (status_hint run) h
