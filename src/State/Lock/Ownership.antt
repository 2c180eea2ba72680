-- ===== src/State/Lock/Ownership.antt =====
-- repo-lock.ts: the invariant of attempts at one lock.
use omp_lazy.Prelude.{
  ℕ, ◌≡◌, ◌≢◌, ◌⊎◌, inl, inr, refl, true, false, sym, ◌∙◌, List, [], ◌∷◌, ◌++◌, none, some, arith,
  nat_eq, string_eq, beq_refl, nat_beq_iff,
}
use omp_lazy.State.Lock.{
  LockMetadata, LockFile, metadata_schema, decode_metadata, release_reads, open_exclusive,
}
use omp_lazy.State.Lock.Contention.{
  Phase, waiting, creating, holding, unlinking, gone, died_creating, died_holding, owns, written,
  cleared, IsCareful, update, System, start, move, Step, opens, gives_up, writes, reads, refuses,
  unlinks, dies_creating, dies_holding, clear_reads, clear_unlinks, Steps, done, next,
}

single : (i j : ℕ) (before after : List ℕ) → j ∷ [] ≡ before ++ i ∷ after → i ≡ j
single i j [] after e = ground arith
single i j (x ∷ []) after e = ground arith
single i j (x ∷ y ∷ before) after e = ground arith

not_empty : (i : ℕ) (before after : List ℕ) → [] ≢ before ++ i ∷ after
not_empty i [] after e = cc
not_empty i (x ∷ before) after e = cc

-- The clear that is under way is of a dead owner.
pub clears-dead :
    (s : System) (i : ℕ) (before after : List ℕ)
    → IsCareful s
    → s.clears ≡ before ++ i ∷ after
    → s.phases i ≡ died_holding
clears-dead s i before after (inl e) c = absurd (not_empty i before after (sym e ∙ c))
clears-dead s i before after (inr (j, e, d)) c = rw (single i j before after (sym e ∙ c)) d

-- Other moves leave a clear as it is.
pub move-IsCareful :
    (s : System) (i : ℕ) (p : Phase) (f : LockFile)
    → IsCareful s
    → s.phases i ≢ died_holding
    → IsCareful (move s i p f)
move-IsCareful s i p f (inl e) alive = inl e
move-IsCareful s i p f (inr (j, e, d)) alive = inr (j, e, ground (arith, nat_beq_iff i j))

module _ (metadata : ℕ → LockMetadata) where
  pub record IsOwned (s : System) : Type 0 where
    pub present :
        (i : ℕ) → owns (s.phases i) ≡ true → s.file ≡ some (written (s.phases i) (metadata i))
    pub unique : (i j : ℕ) → owns (s.phases i) ≡ true → owns (s.phases j) ≡ true → i ≡ j
    pub owner : (s.file ≡ none) ⊎ ((i : ℕ) × (owns (s.phases i) ≡ true))
    pub careful : IsCareful s

  pub start-IsOwned : IsOwned start
  start-IsOwned = record {
    present = λ i h. cc;
    unique = λ i j h k. cc;
    owner = inl refl;
    careful = inl refl;
  }

  module _ (s : System) (h : IsOwned s) (i : ℕ) where
    -- the owner goes on with its own text in the file
    goes_on :
        (p : Phase) (f : LockFile)
        → owns (s.phases i) ≡ true
        → s.phases i ≢ died_holding
        → owns p ≡ true
        → f ≡ some (written p (metadata i))
        → IsCareful (move s i p f)
        → IsOwned (move s i p f)
    goes_on p f mine alive keeps text careful = record {
      present = λ j o. ground (arith, h.unique i j mine, text, nat_beq_iff i j);
      unique = λ j k o q.
          ground (arith, h.unique i j mine, h.unique i k mine, nat_beq_iff i j, nat_beq_iff i k);
      owner = inr (i, ground (arith, beq_refl i));
      careful = careful;
    }

    leaves :
        (p : Phase) (clears : List ℕ)
        → owns (s.phases i) ≡ true
        → owns p ≡ false
        → IsCareful (record { file = none; phases = update s.phases i p; clears = clears })
        → IsOwned (record { file = none; phases = update s.phases i p; clears = clears })
    leaves p clears mine left careful = record {
      present = λ j o. ground (arith, h.unique i j mine, nat_beq_iff i j);
      unique = λ j k o q.
          ground (arith, h.unique i j mine, h.unique i k mine, nat_beq_iff i j, nat_beq_iff i k);
      owner = inl refl;
      careful = careful;
    }

    stays_out :
        owns (s.phases i) ≡ false
        → IsCareful (move s i gone s.file)
        → IsOwned (move s i gone s.file)
    stays_out not_mine careful = record {
      present = λ j o. ground (arith, h.present j, nat_beq_iff i j);
      unique = λ j k o q. ground (arith, h.unique j k, nat_beq_iff i j, nat_beq_iff i k);
      owner = elim h.owner [
        | inl e ↦ inl e
        | inr (j, o) ↦ inr (j, ground (arith, nat_beq_iff i j))
      ];
      careful = careful;
    }

    comes_in :
        (f : LockFile)
        → s.phases i ≡ waiting
        → open_exclusive s.file ≡ some f
        → IsCareful (move s i creating f)
        → IsOwned (move s i creating f)
    unfolding open_exclusive
    comes_in f w e careful = record {
      present = λ j o. ground (arith, h.present j, nat_beq_iff i j);
      unique =
          λ j k o q. ground (arith, h.present j, h.present k, nat_beq_iff i j, nat_beq_iff i k);
      owner = inr (i, ground (arith, beq_refl i));
      careful = careful;
    }

  module _ (valid : (i : ℕ) → metadata_schema (metadata i) ≡ true) where
    -- An owner's release finds its own lock.
    pub release_reads-own :
        (s : System) (h : IsOwned s) (i : ℕ)
        → (s.phases i ≡ holding) ⊎ (s.phases i ≡ died_holding)
        → release_reads (metadata i) s.file ≡ true
    unfolding release_reads decode_metadata
    release_reads-own s h i p = ground (arith, h.present i, valid i, beq_refl (metadata i).nonce)

    pub Step-IsOwned : {s t : System} → IsOwned s → Step metadata s t → IsCareful t → IsOwned t
    Step-IsOwned {s} h (opens i w e) k = comes_in s h i _ w e k
    Step-IsOwned {s} h (gives_up i w) k = stays_out s h i (cc) k
    Step-IsOwned {s} h (writes i c) k = goes_on s h i holding _ (cc) (λ e. cc) refl refl k
    Step-IsOwned {s} h (reads i p r) k =
        goes_on s h i unlinking s.file (cc) (λ e. cc) refl (ground (arith, h.present i)) k
    Step-IsOwned {s} h (refuses i p r) k = absurd (ground (arith, release_reads-own s h i))
    Step-IsOwned {s} h (unlinks i p) k = leaves s h i gone s.clears (cc) refl k
    Step-IsOwned {s} h (dies_creating i p) k =
        goes_on s h i died_creating s.file (cc) (λ e. cc) refl (ground (arith, h.present i)) k
    Step-IsOwned {s} h (dies_holding i p) k =
        goes_on s h i died_holding s.file (ground arith) (λ e. ground arith) refl
          (ground (arith, h.present i)) k
    Step-IsOwned {s} h (clear_reads i r) k = record {
      present = h.present;
      unique = h.unique;
      owner = h.owner;
      careful = k;
    }
    Step-IsOwned {s} h (clear_unlinks i before after e) k =
        let died = clears-dead s i before after h.careful e in
        leaves s h i (cleared (s.phases i)) (before ++ after) (rw died) (rw died) k

    pub Steps-IsOwned : {s t : System} → IsOwned s → Steps metadata s t → IsOwned t
    Steps-IsOwned h done = h
    Steps-IsOwned h (next r x k) = Step-IsOwned (Steps-IsOwned h r) x k
