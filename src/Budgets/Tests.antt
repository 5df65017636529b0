-- ===== src/Budgets/Tests.antt =====
-- A budget of two tool calls and one retry, over fixed-point numbers.
use aegis_quant.Common.{ℕ, true, false, List, [], ◌∷◌, ◌≡◌, refl, arith}
use aegis_quant.Common.Int.{pos}
use aegis_quant.Num.Fixed.{fixed, fixed-FloatLaws}
use aegis_quant.Budgets.Charges.{
  Budget, BudgetState, new_state, Charge, tool, token, retry, attempt_all,
}
use aegis_quant.Budgets.Within.{IsWithin, attempt_all-IsWithin}

abbrev small : Budget fixed
small = record {
  max_tool_calls = 2;
  max_cost_usd = pos 1000000000000000;
  max_tokens = 100;
  max_retries = 1;
}

abbrev started : BudgetState fixed
started = record { budget = small; tool_calls = 0; cost_usd = pos 0; tokens = 0; retries = 0 }

started-new : new_state fixed small ≡ started
unfolding new_state
started-new = refl

started-IsWithin : IsWithin small started
unfolding aegis_quant.Common.Int.◌+ℤ◌
started-IsWithin = (refl, omega arith, omega arith, omega arith, refl)

abbrev calls : List (Charge fixed)
calls = tool (pos 500000000000000) ∷ token (pos 60) ∷ retry ∷ token (pos 60) ∷ retry ∷ []

attempt_all-IsWithin_example : IsWithin small (attempt_all fixed calls started)
attempt_all-IsWithin_example =
    attempt_all-IsWithin fixed-FloatLaws calls small started refl (refl, (tt, (tt, (tt, (tt, tt)))))
      started-IsWithin
