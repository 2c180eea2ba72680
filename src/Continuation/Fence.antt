-- ===== src/Continuation/Fence.antt =====
-- src/continuation/deadline-fence.ts: a deadline that, once passed, stays passed. The clock's answer
-- at a call is an argument of the call; a duration that is not positive is 0.
pub mod Closing
use omp_lazy.Prelude.{ℕ, ◌+◌, ◌-◌, Bool, true, false, if◌then◌else◌, ltb}
use omp_lazy.Prelude.Result.{Result, ok, err}

pub data DeadlineFenceError : Type 0 where
  deadline_expired : DeadlineFenceError

pub record DeadlineFence : Type 0 where
  pub expires_at_ms : ℕ
  pub live : Bool

unfoldable pub create_deadline_fence : ℕ → ℕ → DeadlineFence
create_deadline_fence duration now = record {
  expires_at_ms = now + duration;
  live = ltb 0 duration;
}

unfoldable pub invalidate : DeadlineFence → DeadlineFence
invalidate fence = record { expires_at_ms = fence.expires_at_ms; live = false }

unfoldable pub fence_remaining_ms : DeadlineFence → ℕ → ℕ × DeadlineFence
unfolding invalidate
fence_remaining_ms fence now =
    if fence.live
    then if ltb now fence.expires_at_ms
      then (fence.expires_at_ms - now, fence)
      else (0, invalidate fence)
    else (0, fence)

unfoldable pub fence_is_valid : DeadlineFence → ℕ → Bool × DeadlineFence
fence_is_valid fence now =
    let (remaining, after) = fence_remaining_ms fence now in (ltb 0 remaining, after)

unfoldable pub assert_valid :
    DeadlineFence → ℕ → Result DeadlineFenceError (Unit {0}) × DeadlineFence
assert_valid fence now =
    let (remaining, after) = fence_remaining_ms fence now in
    (if ltb 0 remaining then ok tt else err deadline_expired, after)
