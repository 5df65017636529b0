-- ===== src/Budgets/Within.antt =====
-- Charges stay within the budget of aegis/harness/budgets.py.
use aegis_quant.Common.{
  ◌+◌, ◌≤◌, false, List, [], ◌∷◌, All, ◌≡◌, refl, subst, inl, inr, Bool-cases, ltb, Call, returned,
  raised, arith,
}
use aegis_quant.Common.Int.{ℤ, pos, ltb_ℤ, magnitude}
use aegis_quant.Num.{FloatOps}
use aegis_quant.Num.Laws.{FloatLaws, Finite, Le, IsNumber}
use aegis_quant.Budgets.Charges.{
  BudgetError, Budget, BudgetState, charge_tool, charge_tokens, charge_retry, Charge, tool, token,
  retry, charge, attempt, attempt_all,
}

module _ {fl : FloatOps} where
  -- It is a state of this budget, no counter is above its limit, and the cost is a number that is
  -- at most the limit and the tolerance.
  abbrev pub IsWithin : Budget fl → BudgetState fl → Type 0
  IsWithin b s =
      (s.budget ≡ b)
      × (s.tool_calls ≤ b.max_tool_calls)
      × (s.tokens ≤ b.max_tokens)
      × (s.retries ≤ b.max_retries)
      × Le fl s.cost_usd (fl.add b.max_cost_usd fl.tolerance)

  -- The cost of a tool call is finite.
  abbrev pub HasFiniteCost : Charge fl → Type 0
  HasFiniteCost (tool cost) = Finite fl cost
  HasFiniteCost (token count) = Unit
  HasFiniteCost retry = Unit

  charge_retry-IsWithin :
      (b : Budget fl) (s s' : BudgetState fl)
      → charge_retry fl s ≡ returned s'
      → IsWithin b s
      → IsWithin b s'
  unfolding charge_retry
  charge_retry-IsWithin b s s' e (same, calls, tokens, retries, cost) =
      elim (Bool-cases (ltb s.budget.max_retries (s.retries + 1))) [
        | inl full ↦ absurd (cc (rw full at e))
        | inr room ↦
            let room' = rw same at room in
            let done : record s { retries = s.retries + 1 } ≡ s' = cc (rw room at e) in
            subst (IsWithin b) done (same, calls, tokens, ground (arith, room'), cost)
      ]

  charge_tokens-IsWithin :
      (count : ℤ) (b : Budget fl) (s s' : BudgetState fl)
      → charge_tokens fl count s ≡ returned s'
      → IsWithin b s
      → IsWithin b s'
  unfolding charge_tokens
  charge_tokens-IsWithin count b s s' e (same, calls, tokens, retries, cost) =
      elim (Bool-cases (ltb_ℤ count (pos 0))) [
        | inl bad ↦ absurd (cc (rw bad at e))
        | inr good ↦ elim (Bool-cases (ltb s.budget.max_tokens (s.tokens + magnitude count))) [
          | inl full ↦ absurd (cc (rw (good, full) at e))
          | inr room ↦
              let room' = rw same at room in
              let done : record s { tokens = s.tokens + magnitude count } ≡ s' =
                cc (rw (good, room) at e) in
              subst (IsWithin b) done (same, calls, ground (arith, room'), retries, cost)
        ]
      ]

  module _ (laws : FloatLaws fl) where
    cost_within :
        (b : Budget fl) (s : BudgetState fl) (cost : fl.F)
        → Finite fl b.max_cost_usd
        → Finite fl cost
        → Le fl s.cost_usd (fl.add b.max_cost_usd fl.tolerance)
        → fl.lt (fl.add b.max_cost_usd fl.tolerance) (fl.add s.cost_usd cost) ≡ false
        → Le fl (fl.add s.cost_usd cost) (fl.add b.max_cost_usd fl.tolerance)
    cost_within b s cost limit finite before cheap =
        let total = fl.add b.max_cost_usd fl.tolerance in
        let total_number : IsNumber fl total =
          laws.add_number b.max_cost_usd fl.tolerance limit
            (laws.le_refl fl.tolerance laws.tolerance_finite) in
        let sum_number : IsNumber fl (fl.add s.cost_usd cost) =
          laws.add_number_right s.cost_usd cost (laws.number_of_le s.cost_usd total before)
            finite in
        laws.le_of_not_lt total (fl.add s.cost_usd cost) total_number sum_number cheap

    charge_tool-IsWithin :
        (cost : fl.F) (b : Budget fl) (s s' : BudgetState fl)
        → Finite fl b.max_cost_usd
        → Finite fl cost
        → charge_tool fl cost s ≡ returned s'
        → IsWithin b s
        → IsWithin b s'
    unfolding charge_tool
    charge_tool-IsWithin cost b s s' limit finite e (same, calls, tokens, retries, before) =
        elim (Bool-cases (fl.lt cost fl.zero)) [
          | inl bad ↦ absurd (cc (rw bad at e))
          | inr good ↦ elim (Bool-cases (ltb s.budget.max_tool_calls (s.tool_calls + 1))) [
            | inl full ↦ absurd (cc (rw (good, full) at e))
            | inr room ↦
                elim (Bool-cases
                  (fl.lt (fl.add s.budget.max_cost_usd fl.tolerance) (fl.add s.cost_usd cost))) [
                    | inl dear ↦ absurd (cc (rw (good, room, dear) at e))
                    | inr cheap ↦
                        let room' = rw same at room in
                        let cheap' = rw same at cheap in
                        let done : record s {
                          tool_calls = s.tool_calls + 1;
                          cost_usd = fl.add s.cost_usd cost;
                        }
                            ≡ s' =
                          cc (rw (good, room, cheap) at e) in
                        subst (IsWithin b) done (
                          same,
                          ground (arith, room'),
                          tokens,
                          retries,
                          cost_within b s cost limit finite before cheap',
                        )
                  ]
          ]
        ]

    charge-IsWithin :
        (c : Charge fl) (b : Budget fl) (s s' : BudgetState fl)
        → Finite fl b.max_cost_usd
        → HasFiniteCost c
        → charge fl c s ≡ returned s'
        → IsWithin b s
        → IsWithin b s'
    unfolding charge
    charge-IsWithin (tool cost) b s s' limit finite = charge_tool-IsWithin cost b s s' limit finite
    charge-IsWithin (token count) b s s' limit finite = charge_tokens-IsWithin count b s s'
    charge-IsWithin retry b s s' limit finite = charge_retry-IsWithin b s s'

    attempt-IsWithin :
        (c : Charge fl) (b : Budget fl) (s : BudgetState fl)
        → Finite fl b.max_cost_usd
        → HasFiniteCost c
        → IsWithin b s
        → IsWithin b (attempt fl c s)
    unfolding attempt
    attempt-IsWithin c b s limit finite h = after (charge fl c s) refl
      where
        after :
            (o : Call BudgetError (BudgetState fl))
            → charge fl c s ≡ o
            → IsWithin b (elim o [ returned s' ↦ s' | raised _ ↦ s ])
        after (returned s') e = charge-IsWithin c b s s' limit finite e h
        after (raised _) e = h

    -- With a finite cost limit, whatever calls of finite cost are made, and whichever of them
    -- raise, a state that is within the budget stays within this budget: its counters are at most
    -- their limits, and its cost is a number that is at most the limit and the tolerance.
    pub attempt_all-IsWithin :
        (cs : List (Charge fl)) (b : Budget fl) (s : BudgetState fl)
        → Finite fl b.max_cost_usd
        → All HasFiniteCost cs
        → IsWithin b s
        → IsWithin b (attempt_all fl cs s)
    unfolding attempt_all
    attempt_all-IsWithin [] b s limit finite h = h
    attempt_all-IsWithin (c ∷ cs) b s limit finite h =
        attempt_all-IsWithin cs b (attempt fl c s) limit finite.1
          (attempt-IsWithin c b s limit finite.0 h)
