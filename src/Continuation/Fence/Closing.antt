-- ===== src/Continuation/Fence/Closing.antt =====
-- deadline-fence.ts: what a series of calls leaves of a fence.
use omp_lazy.Prelude.{ℕ, ◌+◌, ◌≡◌, Bool, false, ◌&&◌, List, [], ◌∷◌, ltb, arith, all, ap, ◌∙◌}
use omp_lazy.Continuation.Fence.{
  DeadlineFence, create_deadline_fence, invalidate, fence_remaining_ms, fence_is_valid,
  assert_valid,
}

pub data FenceCall : Type 0 where
  remaining_ms_call is_valid_call assert_valid_call : ℕ → FenceCall
  invalidate_call : FenceCall

abbrev pub call : FenceCall → DeadlineFence → DeadlineFence
call (remaining_ms_call now) fence = (fence_remaining_ms fence now).1
call (is_valid_call now) fence = (fence_is_valid fence now).1
call (assert_valid_call now) fence = (assert_valid fence now).1
call invalidate_call fence = invalidate fence

abbrev pub call_all : List FenceCall → DeadlineFence → DeadlineFence
call_all [] fence = fence
call_all (c ∷ cs) fence = call_all cs (call c fence)

-- A call that leaves the fence live, for its deadline.
abbrev pub in_time : ℕ → FenceCall → Bool
in_time expires_at (remaining_ms_call now) = ltb now expires_at
in_time expires_at (is_valid_call now) = ltb now expires_at
in_time expires_at (assert_valid_call now) = ltb now expires_at
in_time expires_at invalidate_call = false

call_lem :
    (c : FenceCall) (fence : DeadlineFence)
    → call c fence ≡ record {
      expires_at_ms = fence.expires_at_ms;
      live = fence.live && in_time fence.expires_at_ms c;
    }
unfolding fence_remaining_ms fence_is_valid assert_valid invalidate
call_lem (remaining_ms_call now) fence = ground arith
call_lem (is_valid_call now) fence = ground arith
call_lem (assert_valid_call now) fence = ground arith
call_lem invalidate_call fence = ground arith

expiry-call_all :
    (cs : List FenceCall) (fence : DeadlineFence)
    → call_all cs fence ≡ record {
      expires_at_ms = fence.expires_at_ms;
      live = fence.live && all (in_time fence.expires_at_ms) cs;
    }
expiry-call_all [] fence = ground arith
expiry-call_all (c ∷ cs) fence =
    ap (call_all cs) (call_lem c fence) ∙ expiry-call_all cs _ ∙ ground arith

-- A fence is valid exactly when its duration was positive, nothing invalidated it, and every call
-- so far and the present one came before its expiry: once expired it is never valid again, even if
-- the clock goes back.
pub fence_is_valid-after :
    (duration created now : ℕ) (cs : List FenceCall)
    → (fence_is_valid (call_all cs (create_deadline_fence duration created)) now).0
      ≡ ltb 0 duration && all (in_time (created + duration)) cs && ltb now (created + duration)
unfolding fence_is_valid fence_remaining_ms create_deadline_fence
fence_is_valid-after duration created now cs =
    ap (λ f. (fence_is_valid f now).0) (expiry-call_all cs (create_deadline_fence duration created))
    ∙ ground arith
