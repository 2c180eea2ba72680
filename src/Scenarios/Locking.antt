-- ===== src/Scenarios/Locking.antt =====
-- Attempts at one lock, a wait for it, and a fence.
use omp_lazy.Prelude.{
  ℕ, ◌+◌, ◌≡◌, ◌≢◌, ◌≤◌, inl, refl, Bool, true, false, ◌&&◌, none, some, [], ◌∷◌, all, ltb,
  if◌then◌else◌, ◌==◌, nat_eq, arith,
}
use omp_lazy.Prelude.Result.{ok}
use omp_lazy.State.Lock.{
  LockMetadata, LockPurpose, shapeless, shaped, metadata_schema, open_exclusive,
  clear_confirmed_stale_lock, acquired, out_of_fuel, try_acquire,
}
use omp_lazy.State.Lock.Contention.{
  creating, holding, died_creating, died_holding, gone, written, System, start, move, Steps, done,
  next, opens, writes, gives_up, dies_creating,
}
use omp_lazy.State.Lock.Exclusion.{mutual_exclusion, died_creating-blocks}
use omp_lazy.State.Lock.Waiting.{try_acquire-ends, try_acquire-free}
use omp_lazy.Continuation.Fence.{fence_is_valid, create_deadline_fence}
use omp_lazy.Continuation.Fence.Closing.{
  is_valid_call, assert_valid_call, call_all, in_time, fence_is_valid-after,
}

-- The first attempt has a nonce of its own.
abbrev lock_of : ℕ → LockMetadata
lock_of i = record {
  nonce = if i == 0 then "n0" else "n1";
  pid = 7;
  session_id = "s1";
  purpose = LockPurpose.command;
  acquired_at = "t1";
}

lock_of-schema : (i : ℕ) → metadata_schema (lock_of i) ≡ true
lock_of-schema i = refl

abbrev created : System
created = move start 0 creating (some shapeless)

abbrev held : System
held = move created 0 holding (some (shaped (lock_of 0)))

created_steps : Steps lock_of start created
unfolding open_exclusive
created_steps = next done (opens 0 refl refl) (inl refl)

held_steps : Steps lock_of start held
held_steps = next created_steps (writes 0 refl) (inl refl)

mutual_exclusion_example :
    ◌≡◌ {A = ℕ} 0 0 × (held.file ≡ some (written (held.phases 0) (lock_of 0)))
mutual_exclusion_example = mutual_exclusion lock_of lock_of-schema held_steps 0 0 refl refl

abbrev dead : System
dead = move created 0 died_creating (some shapeless)

dead_steps : Steps lock_of start dead
dead_steps = next created_steps (dies_creating 0 refl) (inl refl)

died_creating-blocks_example :
    (open_exclusive (move dead 1 gone dead.file).file ≡ none)
    × (clear_confirmed_stale_lock "n0" false true (move dead 1 gone dead.file).file ≢ ok none)
died_creating-blocks_example =
    died_creating-blocks lock_of lock_of-schema 0 dead_steps refl
      (next done (gives_up 1 refl) (inl refl)) "n0" false true none

-- The first attempt dies with the lock, and two clears read it.
abbrev stale : System
stale = move held 0 died_holding (some (shaped (lock_of 0)))

abbrev cleared_twice : System
cleared_twice = record { file = stale.file; phases = stale.phases; clears = 0 ∷ 0 ∷ [] }

-- A sleep lasts as long as asked; the file is there until the time 7.
abbrev wake : ℕ → ℕ → ℕ
wake now ms = now + ms

abbrev taken : ℕ → Bool
taken t = ltb t 7

try_acquire-ends_example : try_acquire wake taken 100 3 9 0 ≢ out_of_fuel
try_acquire-ends_example =
    try_acquire-ends wake taken 100 3 (λ now ms. omega arith) 9 0 (omega arith)

try_acquire-free_example : (at : ℕ) × (try_acquire wake taken 100 50 60 0 ≡ acquired at) × (at ≤ 12)
try_acquire-free_example =
    try_acquire-free wake taken 100 50 (λ now ms. omega arith) 0 (λ now ms. omega arith) 7 60 0
      (λ t h. ground arith) (omega arith) (omega arith) (omega arith) (omega arith)

fence_is_valid-after_example :
    (fence_is_valid
      (call_all (is_valid_call 20 ∷ assert_valid_call 120 ∷ []) (create_deadline_fence 100 10))
      30).0
    ≡ ltb 0 100 && all (in_time 110) (is_valid_call 20 ∷ assert_valid_call 120 ∷ []) && ltb 30 110
fence_is_valid-after_example =
    fence_is_valid-after 100 10 30 (is_valid_call 20 ∷ assert_valid_call 120 ∷ [])
