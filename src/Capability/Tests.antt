-- ===== src/Capability/Tests.antt =====
-- A skill with two calls, and the theorems applied to it.
use aegis_quant.Common.{
  ℕ, ◌≤◌, true, some, [], ◌∷◌, List, Text, codes, has_text, ◌≡◌, refl, returned,
}
use aegis_quant.Common.Int.{ℤ, pos, ◌+ℤ◌}
use aegis_quant.Num.Fixed.{fixed}
use aegis_quant.Budgets.Charges.{BudgetState, new_state, charge_tool}
use aegis_quant.Capability.Broker.{
  historical, Skill, CapabilityBroker, is_offline, is_historical, find_budget, put_budget,
  budget_of, register, decide, charge_entry, authorize,
}
use aegis_quant.Capability.Grants.{IsAllowed, authorize-IsAllowed, grants, grants-register}

abbrev reader : Skill fixed
reader = record {
  name = codes "filings";
  roles = codes "analyst" ∷ [];
  allowed_tools = codes "pit.read" ∷ codes "source.scrapling.get" ∷ [];
  historical_safe = true;
  max_tool_calls = 2;
  max_cost_usd = pos 1_000_000_000_000_000;
}

abbrev broker : CapabilityBroker fixed
broker = record { mode = historical; budgets = [] }

abbrev state_of : ℕ → BudgetState fixed
state_of n = record {
  budget = record {
    max_tool_calls = 2;
    max_cost_usd = pos 1_000_000_000_000_000;
    max_tokens = 20000;
    max_retries = 1;
  };
  tool_calls = n;
  cost_usd = pos 0;
  tokens = 0;
  retries = 0;
}

abbrev broker_after : ℕ → CapabilityBroker fixed
broker_after n = record {
  mode = historical;
  budgets = record { role = codes "analyst"; skill = codes "filings"; state = state_of n } ∷ [];
}

registered : register fixed (codes "analyst") reader broker ≡ returned (broker_after 0)
unfolding register put_budget budget_of new_state
registered = refl

granted :
    authorize fixed (codes "analyst") reader (codes "pit.read") (pos 0) (broker_after 0)
    ≡ returned (broker_after 1)
unfolding authorize decide charge_entry charge_tool put_budget find_budget is_offline is_historical
    ◌+ℤ◌
granted = refl

authorize-IsAllowed_example :
    IsAllowed (codes "analyst") reader (codes "pit.read") (broker_after 0)
    × ((s : BudgetState fixed) × (s' : BudgetState fixed) × (find_budget fixed
            (codes "analyst")
            (codes "filings")
            (broker_after 0).budgets
          ≡ some s)
        × (charge_tool fixed (pos 0) s ≡ returned s')
        × (find_budget fixed (codes "analyst") (codes "filings") (broker_after 1).budgets ≡ some s')
        × ((broker_after 1).mode ≡ (broker_after 0).mode))
authorize-IsAllowed_example =
    authorize-IsAllowed (codes "analyst") reader (codes "pit.read") (pos 0) (broker_after 0)
      (broker_after 1) granted

abbrev calls : List (Text × ℤ)
calls = (codes "pit.read", pos 0) ∷ (codes "pit.read", pos 0) ∷ (codes "pit.read", pos 0) ∷ []

grants-register_example :
    (has_text (codes "analyst") (codes "analyst" ∷ []) ≡ true)
    × (grants (codes "analyst") reader calls (broker_after 0) ≤ 2)
grants-register_example =
    grants-register (codes "analyst") reader broker (broker_after 0) calls registered
