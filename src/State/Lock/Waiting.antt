-- ===== src/State/Lock/Waiting.antt =====
-- repo-lock.ts: how long an attempt waits, when a sleep lasts at least as long as asked.
use omp_lazy.Prelude.{
  ℕ, zero, suc, ◌+◌, ◌≤◌, ◌<◌, ◌≡◌, ◌≢◌, Bool, false, inl, inr, arith, Bool-cases, ◌-◌,
}
use omp_lazy.State.Lock.{acquired, out_of_fuel, try_acquire, remaining, min}

module _ (wake : ℕ → ℕ → ℕ) (taken : ℕ → Bool) (expires_at wait_until : ℕ)
    (sleeps : (now ms : ℕ) → now + ms ≤ wake now ms) where
  -- An attempt ends before its fuel does, when the fuel exceeds the time left to wait and a sleep
  -- lasts at least as long as asked.
  pub try_acquire-ends :
      (fuel now : ℕ)
      → wait_until - now < fuel
      → try_acquire wake taken expires_at wait_until fuel now ≢ out_of_fuel
  unfolding try_acquire
  try_acquire-ends zero now enough = absurd (omega arith)
  try_acquire-ends (suc fuel) now enough = ground (
    arith,
    try_acquire-ends fuel (wake now (min 5 (remaining expires_at wait_until now))),
    sleeps now (min 5 (remaining expires_at wait_until now)),
  )

  -- What an attempt acquires is free at that time, before the deadline.
  pub try_acquire-IsTimely :
      (fuel now at : ℕ)
      → try_acquire wake taken expires_at wait_until fuel now ≡ acquired at
      → (taken at ≡ false) × (now ≤ at) × (at ≤ wait_until) × (at < expires_at)
  unfolding try_acquire
  try_acquire-IsTimely zero now at e = cc
  try_acquire-IsTimely (suc fuel) now at e = ground (
    arith,
    try_acquire-IsTimely fuel (wake now (min 5 (remaining expires_at wait_until now))) at,
    sleeps now (min 5 (remaining expires_at wait_until now)),
  )

  module _ (late : ℕ) (prompt : (now ms : ℕ) → wake now ms ≤ now + ms + late) where
    -- An attempt acquires a lock that stays free from some time on, at most five milliseconds and
    -- the lateness of a sleep after that time, when neither the deadline nor its own wait ends
    -- before, a sleep is no shorter than asked, and the fuel exceeds the time left to wait.
    pub try_acquire-free :
        (free fuel now : ℕ)
        → ((t : ℕ) → free ≤ t → taken t ≡ false)
        → wait_until - now < fuel
        → now ≤ free + 5 + late
        → free + 5 + late ≤ wait_until
        → free + 5 + late < expires_at
        → (at : ℕ) × (try_acquire wake taken expires_at wait_until fuel now ≡ acquired at)
          × (at ≤ free + 5 + late)
    unfolding try_acquire
    try_acquire-free free zero now open_from enough a b c = absurd (omega arith)
    try_acquire-free free (suc fuel) now open_from enough a b c = elim (Bool-cases (taken now)) [
      | inl busy ↦
          let before : now < free = ground (arith, open_from now) in
          let next = wake now (min 5 (remaining expires_at wait_until now)) in
          let woken : (now < next) × (next ≤ free + 5 + late) = ground (
            arith,
            sleeps now (min 5 (remaining expires_at wait_until now)),
            prompt now (min 5 (remaining expires_at wait_until now)),
          ) in
          let (at, e, le) =
            try_acquire-free free fuel next open_from (omega (arith, woken.0, before, enough, b))
              woken.1 b c in
          (at, ground (arith, e), le)
      | inr idle ↦ (now, ground arith, a)
    ]
