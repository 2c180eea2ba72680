-- ===== src/State/Lock/Overlap.antt =====
-- recovery.ts, repo-lock.ts: two confirmed clears of one stale lock at the same time.
use omp_lazy.Prelude.{ℕ, [], ◌∷◌, none, some, nat_eq}
use omp_lazy.State.Lock.{LockMetadata, shapeless, shaped}
use omp_lazy.State.Lock.Contention.{creating, holding, cleared, update, System, move, Step}

-- Steps with no care for the clears among them.
pub data AnySteps (metadata : ℕ → LockMetadata) (s : System) : System → Type 0 where
  stay : AnySteps metadata s s
  go : {t u : System} → AnySteps metadata s t → Step metadata t u → AnySteps metadata s u

module _ (metadata : ℕ → LockMetadata) (s : System) (i j k : ℕ) where
  -- The system behind the first of the two unlinks.
  abbrev unlinked : System
  unlinked = record {
    file = none;
    phases = update s.phases i (cleared (s.phases i));
    clears = i ∷ [];
  }

  abbrev taken : System
  taken = move unlinked j creating (some shapeless)

  abbrev held : System
  held = move taken j holding (some (shaped (metadata j)))

  abbrev unlinked_again : System
  unlinked_again = record {
    file = none;
    phases = update held.phases i (cleared (held.phases i));
    clears = [];
  }

  abbrev shared : System
  shared = move unlinked_again k creating (some shapeless)
