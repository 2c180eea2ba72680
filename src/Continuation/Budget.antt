-- ===== src/Continuation/Budget.antt =====
-- src/continuation/continuation-budget.ts: the counter of a session's idle continuations, and how
-- handleSessionStop uses it. The counter's file is the value that it holds.
pub mod Saturation
use omp_lazy.Prelude.{
  ℕ, ◌+◌, String, Bool, true, false, not, ◌||◌, Option, none, some, ◌==◌, nat_eq, string_eq, leb,
  if◌then◌else◌,
}

abbrev pub max_idle_continuations : ℕ
max_idle_continuations = 8

-- The reason of an exhausted counter has one value, so the field is whether it is there.
pub record ContinuationCounter : Type 0 where
  pub session_id : String
  pub run_id : String
  pub turn_id : ℕ
  pub count : ℕ
  pub exhausted : Bool

abbrev pub is_other : ContinuationCounter → String → ℕ → Bool
is_other counter run_id turn_id = not (counter.run_id == run_id) || not (counter.turn_id == turn_id)

-- `allowed`
unfoldable pub check_budget : Option ContinuationCounter → String → ℕ → Bool
check_budget none run_id turn_id = true
check_budget (some existing) run_id turn_id =
    if is_other existing run_id turn_id
    then true
    else not (leb max_idle_continuations existing.count)

abbrev first_counter : String → String → ℕ → ContinuationCounter
first_counter session_id run_id turn_id = record {
  session_id = session_id;
  run_id = run_id;
  turn_id = turn_id;
  count = 1;
  exhausted = false;
}

unfoldable pub increment_counter :
    Option ContinuationCounter → (session_id run_id : String) (turn_id : ℕ) → ContinuationCounter
increment_counter none session_id run_id turn_id = first_counter session_id run_id turn_id
increment_counter (some existing) session_id run_id turn_id =
    if is_other existing run_id turn_id
    then first_counter session_id run_id turn_id
    else record existing { count = existing.count + 1 }

abbrev full_counter : String → String → ℕ → ContinuationCounter
full_counter session_id run_id turn_id = record {
  session_id = session_id;
  run_id = run_id;
  turn_id = turn_id;
  count = max_idle_continuations;
  exhausted = true;
}

unfoldable pub exhausted_counter :
    Option ContinuationCounter → (session_id run_id : String) (turn_id : ℕ) → ContinuationCounter
exhausted_counter none session_id run_id turn_id = full_counter session_id run_id turn_id
exhausted_counter (some existing) session_id run_id turn_id =
    if is_other existing run_id turn_id
    then full_counter session_id run_id turn_id
    else record existing { exhausted = true }

-- What happens on one idle edge that has come to its budget: whether the counter's file can be read,
-- whether the fence is valid behind the reading, whether `writeContinuationCounter` has put the new
-- counter in place (its answer is ignored), and whether the rest of the handler gets to its end: the
-- fence valid behind the write, the suppression done, and the fence still valid.
pub record Edge : Type 0 where
  pub readable : Bool
  pub in_time : Bool
  pub written : Bool
  pub delivered : Bool

abbrev kept : Edge → Option ContinuationCounter → ContinuationCounter → Option ContinuationCounter
kept edge counter updated = if edge.written then some updated else counter

-- The budget's part of `handleSessionStop`: whether the continuation goes out, and the counter's
-- file behind it.
unfoldable pub spend :
    Edge
    → Option ContinuationCounter
    → (session_id run_id : String) (turn_id : ℕ) → Bool × Option ContinuationCounter
spend edge counter session_id run_id turn_id =
    let seen = if edge.readable then counter else none in
    if not edge.in_time
    then (false, counter)
    else if check_budget seen run_id turn_id
    then (edge.delivered, kept edge counter (increment_counter seen session_id run_id turn_id))
    else (false, kept edge counter (exhausted_counter seen session_id run_id turn_id))
