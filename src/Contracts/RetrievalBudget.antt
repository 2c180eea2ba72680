-- ===== src/Contracts/RetrievalBudget.antt =====
-- src/contracts/retrieval-budget.ts: the meter of the retrievals of a task.
pub mod Limits
use omp_lazy.Prelude.{
  ℕ, ◌+◌, String, Bool, true, not, ◌&&◌, Option, none, some, leb, ltb, if◌then◌else◌,
}
use omp_lazy.Contracts.TaskPacket.{TaskTier, fast, TierBudget, tier_budgets}

pub record RetrievalBudget : Type 0 where
  pub tier : TaskTier
  pub general_calls : ℕ
  pub retrieval_calls : ℕ
  pub retrieval_bytes : ℕ

-- `RetrievalBudgetSchema`, the shape given
unfoldable pub retrieval_budget_schema : RetrievalBudget → Bool
retrieval_budget_schema budget =
    let limits = tier_budgets budget.tier in
    leb budget.general_calls limits.max_calls
    && leb budget.retrieval_calls limits.max_retrieval_calls
    && leb budget.retrieval_calls budget.general_calls
    && leb budget.retrieval_bytes limits.max_retrieval_bytes

pub data RetrievalResult : Type 0 where
  delivered : (content : String) → RetrievalResult
  empty status : RetrievalResult

pub data RetrievalMeterCode : Type 0 where
  malformed_retrieval_budget malformed_retrieval_result : RetrievalMeterCode
  general_call_budget_exceeded retrieval_call_budget_exceeded : RetrievalMeterCode
  retrieval_byte_budget_exceeded : RetrievalMeterCode

-- `RetrievalMeterResult`: no code where `ok` is true.
pub record RetrievalMeterResult : Type 0 where
  pub code : Option RetrievalMeterCode
  pub budget : RetrievalBudget

abbrev pub create_retrieval_budget : TaskTier → RetrievalBudget
create_retrieval_budget tier = record {
  tier = tier;
  general_calls = 0;
  retrieval_calls = 0;
  retrieval_bytes = 0;
}

abbrev pub count_call : RetrievalBudget → RetrievalBudget
count_call budget = record budget { general_calls = budget.general_calls + 1 }

-- The two measures of a text are the runtime's: its length in UTF-16 units, and in UTF-8 bytes.
module _ (text_length byte_length : String → ℕ) where
  -- `RetrievalResultSchema`, the shape given
  abbrev pub retrieval_result_schema : RetrievalResult → Bool
  retrieval_result_schema (delivered content) =
      leb 1 (text_length content) && leb (text_length content) 163840
  retrieval_result_schema empty = true
  retrieval_result_schema status = true

  abbrev meter_delivered : RetrievalBudget → String → RetrievalMeterResult
  meter_delivered budget content =
      let limits = tier_budgets budget.tier in
      let retrieval_bytes = budget.retrieval_bytes + byte_length content in
      if ltb limits.max_retrieval_calls (budget.retrieval_calls + 1)
      then record { code = some retrieval_call_budget_exceeded; budget = budget }
      else if ltb limits.max_retrieval_bytes retrieval_bytes
      then record { code = some retrieval_byte_budget_exceeded; budget = budget }
      else record {
        code = none;
        budget = record (count_call budget) {
          retrieval_calls = budget.retrieval_calls + 1;
          retrieval_bytes = retrieval_bytes;
        };
      }

  abbrev meter_kind : RetrievalBudget → RetrievalResult → RetrievalMeterResult
  meter_kind budget (delivered content) = meter_delivered budget content
  meter_kind budget empty = record { code = none; budget = count_call budget }
  meter_kind budget status = record { code = none; budget = count_call budget }

  abbrev meter_parsed : RetrievalBudget → Option RetrievalResult → RetrievalMeterResult
  meter_parsed budget none = record { code = some malformed_retrieval_result; budget = budget }
  meter_parsed budget (some result) =
      if not (retrieval_result_schema result)
      then record { code = some malformed_retrieval_result; budget = budget }
      else if ltb (tier_budgets budget.tier).max_calls (budget.general_calls + 1)
      then record { code = some general_call_budget_exceeded; budget = budget }
      else meter_kind budget result

  -- `none` is a value that has not the shape of a budget, or of a result.
  unfoldable pub meter_retrieval_result :
      Option RetrievalBudget → Option RetrievalResult → RetrievalMeterResult
  meter_retrieval_result none result = record {
    code = some malformed_retrieval_budget;
    budget = create_retrieval_budget fast;
  }
  meter_retrieval_result (some budget) result =
      if not (retrieval_budget_schema budget)
      then record { code = some malformed_retrieval_budget; budget = create_retrieval_budget fast }
      else meter_parsed budget result
