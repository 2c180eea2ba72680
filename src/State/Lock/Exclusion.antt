-- ===== src/State/Lock/Exclusion.antt =====
-- repo-lock.ts: one attempt at a time owns the lock, and which deaths it survives.
use omp_lazy.Prelude.{
  ℕ, String, ◌≡◌, ◌≢◌, Bool, true, none, some, arith, nat_eq, string_eq, nat_beq_iff, Bool-cases,
}
use omp_lazy.Prelude.Result.{ok}
use omp_lazy.State.Lock.{
  LockMetadata, LockFile, shapeless, metadata_schema, decode_metadata, read_metadata,
  open_exclusive, clear_confirmed_stale_lock,
}
use omp_lazy.State.Lock.Contention.{
  waiting, holding, died_creating, owns, written, IsCareful, System, start, Step, opens, gives_up,
  writes, reads, refuses, unlinks, dies_creating, dies_holding, clear_reads, clear_unlinks, Steps,
  done, next,
}
use omp_lazy.State.Lock.Ownership.{IsOwned, start-IsOwned, Steps-IsOwned, clears-dead}

module _ (metadata : ℕ → LockMetadata) (valid : (i : ℕ) → metadata_schema (metadata i) ≡ true) where
  -- Of all the attempts at a lock, with positive process identifiers, however their steps
  -- interleave and whichever processes die, no two own the lock together and the file holds what
  -- the owner wrote, while confirmed clears come one at a time and only for dead owners.
  pub mutual_exclusion :
      {s : System}
      → Steps metadata start s
      → (i j : ℕ) → owns (s.phases i) ≡ true
      → owns (s.phases j) ≡ true
      → (i ≡ j) × (s.file ≡ some (written (s.phases i) (metadata i)))
  mutual_exclusion r i j p q =
      let h = Steps-IsOwned metadata valid (start-IsOwned metadata) r in
      (h.unique i j p q, h.present i p)

  dead-Step :
      {s t : System} (i : ℕ)
      → IsOwned metadata s
      → s.phases i ≡ died_creating
      → Step metadata s t
      → t.phases i ≡ died_creating
  dead-Step {s} i h e (opens j w o) = ground (arith, nat_beq_iff j i)
  dead-Step {s} i h e (gives_up j w) = ground (arith, nat_beq_iff j i)
  dead-Step {s} i h e (writes j c) = ground (arith, nat_beq_iff j i)
  dead-Step {s} i h e (reads j p r) = ground (arith, nat_beq_iff j i)
  dead-Step {s} i h e (refuses j p r) = ground (arith, nat_beq_iff j i)
  dead-Step {s} i h e (unlinks j p) = ground (arith, nat_beq_iff j i)
  dead-Step {s} i h e (dies_creating j p) = ground (arith, nat_beq_iff j i)
  dead-Step {s} i h e (dies_holding j p) = ground (arith, nat_beq_iff j i)
  dead-Step {s} i h e (clear_reads j r) = e
  dead-Step {s} i h e (clear_unlinks j before after c) =
      ground (arith, nat_beq_iff j i, clears-dead s j before after h.careful c)

  dead-Steps :
      {s t : System} (i : ℕ)
      → IsOwned metadata s
      → s.phases i ≡ died_creating
      → Steps metadata s t
      → t.phases i ≡ died_creating
  dead-Steps i h e done = e
  dead-Steps i h e (next r x k) =
      dead-Step i (Steps-IsOwned metadata valid h r) (dead-Steps i h e r) x

  -- A process that dies between the creation of the file and its write blocks the lock for good:
  -- after any further steps of processes with positive identifiers, confirmed clears one at a time
  -- and only for dead owners, the file cannot be opened, and no clear succeeds.
  pub died_creating-blocks :
      {s t : System} (i : ℕ)
      → Steps metadata start s
      → s.phases i ≡ died_creating
      → Steps metadata s t
      → (nonce : String) (is_alive confirmed : Bool) (file : LockFile)
      → (open_exclusive t.file ≡ none)
        × (clear_confirmed_stale_lock nonce is_alive confirmed t.file ≢ ok file)
  unfolding open_exclusive clear_confirmed_stale_lock read_metadata decode_metadata
  died_creating-blocks {s} {t} i r e later nonce a c file =
      let h = Steps-IsOwned metadata valid (start-IsOwned metadata) r in
      let d = dead-Steps i h e later in
      let k = Steps-IsOwned metadata valid h later in
      let text : t.file ≡ some shapeless = ground (arith, k.present i, d) in
      (ground (arith, text), ground (arith, text, Bool-cases c, Bool-cases a))

  before :
      {s t u : System} → Step metadata s t → IsCareful t → Steps metadata t u → Steps metadata s u
  before x k done = next done x k
  before x k (next r y m) = next (before x k r) y m

  -- A system that frees the lock, with the attempt `j` still waiting.
  abbrev Frees : System → ℕ → Type 0
  Frees s j = (t : System) × Steps metadata s t × (t.file ≡ none) × (t.phases j ≡ waiting)

  after : {s t : System} {j : ℕ} → Step metadata s t → IsCareful t → Frees t j → Frees s j
  after x k (u, r, e, w) = (u, before x k r, e, w)

  abbrev pub Holds : System → ℕ → Type 0
  Holds s j = (t : System) × Steps metadata s t × (t.phases j ≡ holding)
