-- ===== src/Contracts/RetrievalBudget/Limits.antt =====
-- retrieval-budget.ts: the limits of a tier hold over any series of retrievals.
use omp_lazy.Prelude.{
  ℕ, ◌≤◌, ◌≡◌, refl, ◌∙◌, true, String, List, [], ◌∷◌, Option, none, some, arith, subst,
}
use omp_lazy.Contracts.TaskPacket.{TaskTier, fast, standard, deep, tier_budgets}
use omp_lazy.Contracts.RetrievalBudget.{
  RetrievalBudget, retrieval_budget_schema, RetrievalResult, delivered, empty, status,
  create_retrieval_budget, meter_retrieval_result,
}

module _ (text_length byte_length : String → ℕ) where
  -- The budget behind one result.
  abbrev metered : RetrievalBudget → Option RetrievalResult → RetrievalBudget
  metered budget result =
      (meter_retrieval_result text_length byte_length (some budget) result).budget

  -- The budget behind a series of results, each metered with the budget before it.
  abbrev pub meter_all : RetrievalBudget → List (Option RetrievalResult) → RetrievalBudget
  meter_all budget [] = budget
  meter_all budget (r ∷ rs) = meter_all (metered budget r) rs

  metered-schema :
      (budget : RetrievalBudget) (result : Option RetrievalResult)
      → retrieval_budget_schema budget ≡ true
      → (retrieval_budget_schema (metered budget result) ≡ true)
        × ((metered budget result).tier ≡ budget.tier)
  unfolding meter_retrieval_result retrieval_budget_schema
  metered-schema budget none h = ground arith
  metered-schema budget (some (delivered content)) h = ground arith
  metered-schema budget (some empty) h = ground arith
  metered-schema budget (some status) h = ground arith

  meter_all-schema :
      (budget : RetrievalBudget) (results : List (Option RetrievalResult))
      → retrieval_budget_schema budget ≡ true
      → (retrieval_budget_schema (meter_all budget results) ≡ true)
        × ((meter_all budget results).tier ≡ budget.tier)
  meter_all-schema budget [] h = (h, refl)
  meter_all-schema budget (r ∷ rs) h =
      let (fine, same) = metered-schema budget r h in
      let (rest, kept) = meter_all-schema (metered budget r) rs fine in (rest, kept ∙ same)

  fresh-schema : (tier : TaskTier) → retrieval_budget_schema (create_retrieval_budget tier) ≡ true
  unfolding retrieval_budget_schema
  fresh-schema fast = refl
  fresh-schema standard = refl
  fresh-schema deep = refl

  -- However many results are metered from a fresh budget, refused ones included, and whatever they
  -- are: the calls and the bytes counted stay within the tier's limits, and the budget satisfies its
  -- schema.
  pub meter_all-limits :
      (tier : TaskTier) (results : List (Option RetrievalResult))
      → ((meter_all (create_retrieval_budget tier) results).general_calls
          ≤ (tier_budgets tier).max_calls)
        × ((meter_all (create_retrieval_budget tier) results).retrieval_bytes
            ≤ (tier_budgets tier).max_retrieval_bytes)
        × (retrieval_budget_schema (meter_all (create_retrieval_budget tier) results) ≡ true)
  unfolding retrieval_budget_schema
  meter_all-limits tier results =
      let (fine, same) =
        meter_all-schema (create_retrieval_budget tier) results (fresh-schema tier) in
      (
        subst
            (λ t.
              (meter_all (create_retrieval_budget tier) results).general_calls
              ≤ (tier_budgets t).max_calls)
            same (ground arith),
        subst
            (λ t.
              (meter_all (create_retrieval_budget tier) results).retrieval_bytes
              ≤ (tier_budgets t).max_retrieval_bytes)
            same (ground arith),
        fine,
      )
