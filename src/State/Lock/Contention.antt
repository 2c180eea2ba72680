-- ===== src/State/Lock/Contention.antt =====
-- repo-lock.ts: attempts at one lock, interleaved, where a process may die at any moment. An attempt
-- has the metadata that it writes. A confirmed clear takes no lock and trusts its caller's word that
-- the owner is dead, so a step may clear whenever the nonce matches.
use omp_lazy.Prelude.{
  ℕ, ◌≡◌, ◌⊎◌, Bool, true, false, List, [], ◌∷◌, ◌++◌, none, some, if◌then◌else◌, ◌==◌, nat_eq,
}
use omp_lazy.State.Lock.{
  LockMetadata, LockText, shapeless, shaped, LockFile, release_reads, open_exclusive,
}

-- Where the process of an attempt is: in its loop, after the `open`, after the `close`, before the
-- `unlink` of `release`, or past its use of the lock; or dead, after the `open` or the `close`.
pub data Phase : Type 0 where
  waiting creating holding unlinking gone : Phase
  died_creating died_holding : Phase

-- Whether the lock file is the attempt's.
abbrev pub owns : Phase → Bool
owns waiting = false
owns gone = false
owns _ = true

-- What the file of an owner holds.
abbrev pub written : Phase → LockMetadata → LockText
written creating m = shapeless
written died_creating m = shapeless
written _ m = shaped m

abbrev pub update : (ℕ → Phase) → ℕ → Phase → ℕ → Phase
update phases i p j = if i == j then p else phases j

-- `clears` has an entry for each confirmed clear that has read the file and not yet unlinked it: the
-- attempt whose nonce it found.
pub record System : Type 0 where
  pub file : LockFile
  pub phases : ℕ → Phase
  pub clears : List ℕ

abbrev pub start : System
start = record { file = none; phases = λ _. waiting; clears = [] }

abbrev pub move : System → ℕ → Phase → LockFile → System
move s i p file = record { file = file; phases = update s.phases i p; clears = s.clears }

-- A dead owner is past its use of the lock once it is cleared; a live one is not told.
abbrev pub cleared : Phase → Phase
cleared died_holding = gone
cleared p = p

-- What the callers of clears owe, and the source does not enforce: at most one clear is under way,
-- and its owner is dead.
abbrev pub IsCareful : System → Type 0
IsCareful s = (s.clears ≡ []) ⊎ ((i : ℕ) × (s.clears ≡ i ∷ []) × (s.phases i ≡ died_holding))

module _ (metadata : ℕ → LockMetadata) where
  pub data Step (s : System) : System → Type 0 where
    opens :
        (i : ℕ) {file : LockFile}
        → s.phases i ≡ waiting
        → open_exclusive s.file ≡ some file
        → Step s (move s i creating file)
    gives_up : (i : ℕ) → s.phases i ≡ waiting → Step s (move s i gone s.file)
    writes :
        (i : ℕ) → s.phases i ≡ creating → Step s (move s i holding (some (shaped (metadata i))))
    reads :
        (i : ℕ)
        → s.phases i ≡ holding
        → release_reads (metadata i) s.file ≡ true
        → Step s (move s i unlinking s.file)
    refuses :
        (i : ℕ)
        → s.phases i ≡ holding
        → release_reads (metadata i) s.file ≡ false
        → Step s (move s i gone s.file)
    unlinks : (i : ℕ) → s.phases i ≡ unlinking → Step s (move s i gone none)
    dies_creating : (i : ℕ) → s.phases i ≡ creating → Step s (move s i died_creating s.file)
    dies_holding :
        (i : ℕ)
        → (s.phases i ≡ holding) ⊎ (s.phases i ≡ unlinking)
        → Step s (move s i died_holding s.file)
    clear_reads :
        (i : ℕ)
        → release_reads (metadata i) s.file ≡ true
        → Step s (record { file = s.file; phases = s.phases; clears = i ∷ s.clears })
    clear_unlinks :
        (i : ℕ) (before after : List ℕ)
        → s.clears ≡ before ++ i ∷ after
        → Step s (record {
          file = none;
          phases = update s.phases i (cleared (s.phases i));
          clears = before ++ after;
        })

  -- Steps among which confirmed clears are careful.
  pub data Steps (s : System) : System → Type 0 where
    done : Steps s s
    next : {t u : System} → Steps s t → Step t u → IsCareful u → Steps s u
