-- ===== src/State/Codec/Unique.antt =====
-- codec-schemas.ts: what distinct identifiers give, and which changes of goals keep a ULW payload
-- within its schema.
use omp_lazy.Prelude.{
  ◌≡◌, refl, String, Bool, true, false, List, [], ◌∷◌, Option, none, some, map, arith, eq_iff, ◌==◌,
  string_eq, Bool-cases, inl, inr, all, any, find, filter, All,
}
use omp_lazy.State.Domain.{Goal, UlwLoopPayload}
use omp_lazy.State.Codec.{
  no_duplicates, goal_id, criterion_id, criterion_ids, is_in_progress, active_matches,
  refine_ulw_loop,
}

module _ {ℓ} {A : Type ℓ} where
  pub all-map :
      (p q : A → Bool) (f : A → A) (xs : List A)
      → All (λ x. p x ≡ true → q (f x) ≡ true) xs
      → all p xs ≡ true
      → all q (map f xs) ≡ true
  all-map p q f [] h a = refl
  all-map p q f (x ∷ xs) (hx, hs) a = ground (arith, hx, all-map p q f xs hs)

  pub All-imp {κ μ} :
      (P : A → Type κ) (Q : A → Type μ) (xs : List A) → ((x : A) → P x → Q x) → All P xs → All Q xs
  All-imp P Q [] h a = tt
  All-imp P Q (x ∷ xs) h (ax, as') = (h x ax, All-imp P Q xs h as')

  pub map-eq : (f g : A → A) (xs : List A) → All (λ x. f x ≡ g x) xs → map f xs ≡ map g xs
  map-eq f g [] h = refl
  map-eq f g (x ∷ xs) (hx, hs) = cc (hx, map-eq f g xs hs)

  module _ (id : A → String) where
    -- What carries the identifier is the value given.
    abbrev pub IsOnly : String → A → A → Type ℓ
    IsOnly k g x = (id x == k) ≡ true → x ≡ g

    none_else :
        (k : String) (g : A) (xs : List A)
        → any (λ y. y == k) (map id xs) ≡ false
        → All (IsOnly k g) xs
    none_else k g [] h = tt
    none_else k g (x ∷ xs) h = (λ e. absurd (ground arith), none_else k g xs (ground arith))

    pub find-IsOnly :
        (k : String) (g : A) (xs : List A)
        → no_duplicates (map id xs) ≡ true
        → find (λ x. id x == k) xs ≡ some g
        → All (IsOnly k g) xs
    find-IsOnly k g [] d f = tt
    find-IsOnly k g (x ∷ xs) d f = elim (Bool-cases (id x == k)) [
      | inl here ↦
          let same : id x ≡ k = (eq_iff _ _).0 here in
          (λ e. ground arith, none_else k g xs (rw (← same) (ground arith)))
      | inr there ↦ (λ e. absurd (ground arith), find-IsOnly k g xs (ground arith) (ground arith))
    ]

-- A change of goals that keeps what `refineUlwLoop` reads.
pub record KeepsShape (f : Goal → Goal) : Type 0 where
  pub id : (g : Goal) → goal_id (f g) ≡ goal_id g
  pub criteria : (g : Goal) → map criterion_id (f g).criteria ≡ map criterion_id g.criteria
  pub progress : (g : Goal) → is_in_progress (f g) ≡ is_in_progress g

module _ {f : Goal → Goal} (keeps : KeepsShape f) where
  map-goal_id : (gs : List Goal) → map goal_id (map f gs) ≡ map goal_id gs
  map-goal_id [] = refl
  map-goal_id (g ∷ gs) = cc (keeps.id g, map-goal_id gs)

  criterion_ids-map : (gs : List Goal) → criterion_ids (map f gs) ≡ criterion_ids gs
  criterion_ids-map [] = refl
  criterion_ids-map (g ∷ gs) = cc (keeps.criteria g, criterion_ids-map gs)

  filter-map :
      (gs : List Goal) → filter is_in_progress (map f gs) ≡ map f (filter is_in_progress gs)
  filter-map [] = refl
  filter-map (g ∷ gs) = ground (arith, keeps.progress g, filter-map gs)

  active_matches-map :
      (active : Option String) (gs : List Goal)
      → active_matches active (map f gs) ≡ active_matches active gs
  active_matches-map none [] = refl
  active_matches-map none (g ∷ gs) = refl
  active_matches-map (some a) [] = refl
  active_matches-map (some a) (g ∷ []) = rw (keeps.id g)
  active_matches-map (some a) (g ∷ h ∷ gs) = refl

  pub refine_ulw_loop-map :
      (p : UlwLoopPayload)
      → refine_ulw_loop (record p { goals = map f p.goals }) ≡ refine_ulw_loop p
  refine_ulw_loop-map p =
      rw (map-goal_id p.goals, criterion_ids-map p.goals, filter-map p.goals)
        (rw (active_matches-map p.active_goal_id (filter is_in_progress p.goals)))
