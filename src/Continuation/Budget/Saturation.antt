-- ===== src/Continuation/Budget/Saturation.antt =====
-- continuation-budget.ts, register-session-stop.ts: a turn gets so many continuations and no more,
-- but for those that go out with the counter's file left as it was.
use omp_lazy.Prelude.{
  ℕ, beq_refl, ◌+◌, ◌-◌, ◌≤◌, ◌≡◌, true, Bool, String, List, [], ◌∷◌, Option, none, some, arith,
  not, leb, ◌&&◌, all, length, if◌then◌else◌, ◌==◌, string_eq, nat_eq,
}
use omp_lazy.Continuation.Budget.{
  ContinuationCounter, max_idle_continuations, is_other, check_budget, increment_counter,
  exhausted_counter, Edge, spend,
}

-- The smaller of two numbers.
abbrev pub least : ℕ → ℕ → ℕ
least a b = if leb a b then a else b

abbrev pub is_readable : Edge → Bool
is_readable edge = edge.readable

-- Nothing goes wrong on the edge.
abbrev pub is_calm : Edge → Bool
is_calm edge = edge.readable && edge.in_time && edge.written && edge.delivered

-- The edges whose continuation may go out with the counter's file left as it was.
abbrev unwritten : Edge → ℕ
unwritten edge = if edge.delivered && not edge.written then 1 else 0

abbrev pub lost : List Edge → ℕ
lost [] = 0
lost (edge ∷ edges) = unwritten edge + lost edges

module _ (session_id run_id : String) (turn_id : ℕ) where
  abbrev after : Edge → Option ContinuationCounter → Bool × Option ContinuationCounter
  after edge counter = spend edge counter session_id run_id turn_id

  abbrev one : Bool → ℕ
  one sent = if sent then 1 else 0

  -- The continuations that go out on idle edges of one run and one turn.
  abbrev pub emitted : Option ContinuationCounter → List Edge → ℕ
  emitted counter [] = 0
  emitted counter (edge ∷ edges) = one (after edge counter).0 + emitted (after edge counter).1 edges

  -- What the counter has of this run and turn.
  abbrev pub spent : Option ContinuationCounter → ℕ
  spent none = 0
  spent (some c) = if is_other c run_id turn_id then 0 else c.count

  abbrev left : Option ContinuationCounter → ℕ
  left counter = max_idle_continuations - spent counter

  after-left :
      (edge : Edge) (counter : Option ContinuationCounter)
      → edge.readable ≡ true
      → one (after edge counter).0 + left (after edge counter).1 ≤ left counter + unwritten edge
  unfolding spend check_budget increment_counter exhausted_counter
  after-left edge none h =
      let same : (run_id == run_id) ≡ true = beq_refl run_id in
      let turn : (turn_id == turn_id) ≡ true = beq_refl turn_id in ground (arith, same, turn)
  after-left edge (some c) h =
      let same : (run_id == run_id) ≡ true = beq_refl run_id in
      let turn : (turn_id == turn_id) ≡ true = beq_refl turn_id in ground (arith, same, turn)

  after-calm :
      (edge : Edge) (counter : Option ContinuationCounter)
      → is_calm edge ≡ true
      → (one (after edge counter).0 ≡ least 1 (left counter))
        × (left (after edge counter).1 ≡ left counter - 1)
  unfolding spend check_budget increment_counter exhausted_counter
  after-calm edge none h =
      let same : (run_id == run_id) ≡ true = beq_refl run_id in
      let turn : (turn_id == turn_id) ≡ true = beq_refl turn_id in ground (arith, same, turn)
  after-calm edge (some c) h =
      let same : (run_id == run_id) ≡ true = beq_refl run_id in
      let turn : (turn_id == turn_id) ≡ true = beq_refl turn_id in ground (arith, same, turn)

  -- When the counter can be read on each of the idle edges of one run and one turn, no more
  -- continuations go out than the counter leaves of the eight and there are edges with a delivery
  -- behind a counter that was not written.
  pub emitted_le :
      (counter : Option ContinuationCounter) (edges : List Edge)
      → all is_readable edges ≡ true
      → emitted counter edges ≤ (max_idle_continuations - spent counter) + lost edges
  emitted_le counter [] h = ground arith
  emitted_le counter (edge ∷ edges) h =
      let first : edge.readable ≡ true = ground arith in
      let rest : all is_readable edges ≡ true = ground arith in
      omega (arith, after-left edge counter first, emitted_le (after edge counter).1 edges rest)

  -- When nothing goes wrong on the idle edges of one run and one turn, exactly as many continuations
  -- go out as the counter leaves of the eight, and never more than there are edges.
  pub emitted-saturates :
      (counter : Option ContinuationCounter) (edges : List Edge)
      → all is_calm edges ≡ true
      → emitted counter edges ≡ least (length edges) (max_idle_continuations - spent counter)
  emitted-saturates counter [] h = ground arith
  emitted-saturates counter (edge ∷ edges) h =
      let first : is_calm edge ≡ true = ground arith in
      let rest : all is_calm edges ≡ true = ground arith in
      let (sent, remaining) = after-calm edge counter first in
      let rest_sent = emitted-saturates (after edge counter).1 edges rest in ground arith
