-- ===== src/Budgets/Charges.antt =====
-- `Budget` and `BudgetState` (aegis/harness/budgets.py).
use aegis_quant.Common.{ℕ, ◌+◌, List, [], ◌∷◌, ltb, if◌then◌else◌, Call, returned, raised}
use aegis_quant.Common.Int.{ℤ, pos, ltb_ℤ, magnitude}
use aegis_quant.Num.{FloatOps}

-- The messages of `BudgetExceeded`, and the two of `ValueError`.
pub data BudgetError : Type 0 where
  tool_calls_exhausted cost_exhausted tokens_exhausted retries_exhausted : BudgetError
  negative_cost negative_count : BudgetError

module _ (fl : FloatOps) where
  pub record Budget : Type 0 where
    pub max_tool_calls : ℕ
    pub max_cost_usd : fl.F
    pub max_tokens : ℕ
    pub max_retries : ℕ

  pub record BudgetState : Type 0 where
    pub budget : Budget
    pub tool_calls : ℕ
    pub cost_usd : fl.F
    pub tokens : ℕ
    pub retries : ℕ

  unfoldable pub new_state : Budget → BudgetState
  new_state b = record { budget = b; tool_calls = 0; cost_usd = fl.zero; tokens = 0; retries = 0 }

  unfoldable pub charge_tool : fl.F → BudgetState → Call BudgetError BudgetState
  charge_tool cost s =
      if fl.lt cost fl.zero
      then raised negative_cost
      else if ltb s.budget.max_tool_calls (s.tool_calls + 1)
      then raised tool_calls_exhausted
      else if fl.lt (fl.add s.budget.max_cost_usd fl.tolerance) (fl.add s.cost_usd cost)
      then raised cost_exhausted
      else returned (record s { tool_calls = s.tool_calls + 1; cost_usd = fl.add s.cost_usd cost })

  unfoldable pub charge_tokens : ℤ → BudgetState → Call BudgetError BudgetState
  charge_tokens count s =
      if ltb_ℤ count (pos 0)
      then raised negative_count
      else if ltb s.budget.max_tokens (s.tokens + magnitude count)
      then raised tokens_exhausted
      else returned (record s { tokens = s.tokens + magnitude count })

  unfoldable pub charge_retry : BudgetState → Call BudgetError BudgetState
  charge_retry s =
      if ltb s.budget.max_retries (s.retries + 1)
      then raised retries_exhausted
      else returned (record s { retries = s.retries + 1 })

  -- A call of one of the three methods.
  pub data Charge : Type 0 where
    tool : fl.F → Charge
    token : ℤ → Charge
    retry : Charge

  unfoldable pub charge : Charge → BudgetState → Call BudgetError BudgetState
  unfolding charge_tool charge_tokens charge_retry
  charge (tool cost) = charge_tool cost
  charge (token count) = charge_tokens count
  charge retry = charge_retry

  -- The state after a call, which an exception leaves as it was.
  unfoldable pub attempt : Charge → BudgetState → BudgetState
  attempt c s = elim (charge c s) [ returned s' ↦ s' | raised _ ↦ s ]

  unfoldable pub attempt_all : List Charge → BudgetState → BudgetState
  attempt_all [] s = s
  attempt_all (c ∷ cs) s = attempt_all cs (attempt c s)
