-- ===== src/Capability/Grants.antt =====
-- What `CapabilityBroker.authorize` (aegis/harness/capability_broker.py) grants.
use aegis_quant.Common.{
  ℕ, suc, ◌+◌, ◌≤◌, Bool, true, false, not, ◌&&◌, some, List, [], ◌∷◌, Text, same_text_iff,
  has_text, ltb, ◌≡◌, refl, subst, ap, inl, inr, Bool-cases, Option-cases, Call, returned, raised,
  arith,
}
use aegis_quant.Num.{FloatOps}
use aegis_quant.Budgets.Charges.{BudgetError, BudgetState, new_state, charge_tool}
use aegis_quant.Capability.Broker.{
  forbidden_agent_prefixes, live_only_prefixes, starts_with_any, CapabilityError, over_budget,
  is_offline, is_historical, Skill, Entry, CapabilityBroker, is_entry, judge, find_budget,
  put_budget, budget_of, register, decide, charge_entry, authorize,
}

judge_lem :
    (a b c d : Bool)
    → (judge a b c d).0 ≡ true
    → (a ≡ true) × (b ≡ false) × (c ≡ false) × (d ≡ false)
judge_lem true false false false e = (refl, refl, refl, refl)
judge_lem true false false true e = cc
judge_lem true false true d e = cc
judge_lem true true c d e = cc
judge_lem false b c d e = cc

module _ {fl : FloatOps} where
  find-put :
      (role skill : Text) (s : BudgetState fl) (es : List (Entry fl))
      → find_budget fl role skill (put_budget fl role skill s es) ≡ some s
  unfolding find_budget put_budget
  find-put role skill s [] =
      let a = (same_text_iff role role).1 refl in
      let b = (same_text_iff skill skill).1 refl in rw (a, b) refl
  find-put role skill s (e ∷ es) = elim (Bool-cases (is_entry fl role skill e)) [
    | inl hit ↦ rw hit (rw hit refl)
    | inr miss ↦ rw miss (rw miss (find-put role skill s es))
  ]

  -- The conditions of a call that is allowed.
  abbrev pub IsAllowed : Text → Skill fl → Text → CapabilityBroker fl → Type 0
  IsAllowed role k tool b =
      (has_text tool k.allowed_tools ≡ true)
      × (starts_with_any forbidden_agent_prefixes tool ≡ false)
      × ((is_offline b.mode && starts_with_any live_only_prefixes tool) ≡ false)
      × ((is_historical b.mode && not k.historical_safe) ≡ false)

  decide-IsAllowed :
      (role : Text) (k : Skill fl) (tool : Text) (b : CapabilityBroker fl)
      → (decide fl role k tool b).0 ≡ true
      → (s : BudgetState fl) × (find_budget fl role k.name b.budgets ≡ some s)
        × IsAllowed role k tool b
  unfolding decide
  decide-IsAllowed role k tool b e = elim (Option-cases (find_budget fl role k.name b.budgets)) [
    | inl no_budget ↦ absurd (cc (rw (no_budget, decide) at e))
    | inr (s, found) ↦ (s, found, judge_lem _ _ _ _ (rw (found, decide) at e))
  ]

  charge_tool-counts :
      (cost : fl.F) (s s' : BudgetState fl)
      → charge_tool fl cost s ≡ returned s'
      → (s'.tool_calls ≡ s.tool_calls + 1)
        × (s'.tool_calls ≤ s.budget.max_tool_calls)
        × (s'.budget ≡ s.budget)
  unfolding charge_tool
  charge_tool-counts cost s s' e = elim (Bool-cases (fl.lt cost fl.zero)) [
    | inl bad ↦ absurd (cc (rw bad at e))
    | inr good ↦ elim (Bool-cases (ltb s.budget.max_tool_calls (s.tool_calls + 1))) [
      | inl full ↦ absurd (cc (rw (good, full) at e))
      | inr room ↦
          elim (Bool-cases
            (fl.lt (fl.add s.budget.max_cost_usd fl.tolerance) (fl.add s.cost_usd cost))) [
              | inl dear ↦ absurd (cc (rw (good, room, dear) at e))
              | inr cheap ↦
                  let same : record s {
                    tool_calls = s.tool_calls + 1;
                    cost_usd = fl.add s.cost_usd cost;
                  }
                      ≡ s' =
                    cc (rw (good, room, cheap) at e) in
                  subst
                    (λ (q : BudgetState fl).
                      (q.tool_calls ≡ s.tool_calls + 1)
                      × (q.tool_calls ≤ s.budget.max_tool_calls)
                      × (q.budget ≡ s.budget))
                    same (refl, ground (arith, room), refl)
            ]
    ]
  ]

  -- The state and the table after the charge of a call that was granted.
  abbrev pub Charges : Text → Skill fl → fl.F → CapabilityBroker fl → CapabilityBroker fl → Type 0
  Charges role k cost b b' =
      (s : BudgetState fl) × (s' : BudgetState fl) × (find_budget fl role k.name b.budgets ≡ some s)
      × (charge_tool fl cost s ≡ returned s')
      × (record b { budgets = put_budget fl role k.name s' b.budgets } ≡ b')

  charge_entry-Charges :
      (role : Text) (k : Skill fl) (cost : fl.F) (b b' : CapabilityBroker fl)
      → charge_entry fl role k cost b ≡ returned b'
      → Charges role k cost b b'
  unfolding charge_entry
  charge_entry-Charges role k cost b b' e =
      elim (Option-cases (find_budget fl role k.name b.budgets)) [
        | inl no_budget ↦ absurd (cc (rw (no_budget, charge_entry) at e))
        | inr (s, found) ↦
            charged s found (charge_tool fl cost s) refl (rw (found, charge_entry) at e)
      ]
    where
      charged :
          (s : BudgetState fl)
          → find_budget fl role k.name b.budgets ≡ some s
          → (c : Call BudgetError (BudgetState fl)) → charge_tool fl cost s ≡ c
          → (elim c as (λ _. Call CapabilityError (CapabilityBroker fl)) [
            | raised why ↦ raised (over_budget why)
            | returned s' ↦ returned (record b { budgets = put_budget fl role k.name s' b.budgets })
          ])
            ≡ returned b'
          → Charges role k cost b b'
      charged s found (raised why) c h = absurd (cc (h))
      charged s found (returned s') c h = (s, s', found, c, cc (h))

  -- A call that authorize grants is of a registered pair of role and skill, of a tool that the
  -- skill declares and that is not capital-critical; in the replay and historical modes it is not
  -- a live source, and in the historical mode the skill is historical-safe. Its cost is charged to
  -- the budget of the pair, which the broker then holds.
  pub authorize-IsAllowed :
      (role : Text) (k : Skill fl) (tool : Text) (cost : fl.F) (b b' : CapabilityBroker fl)
      → authorize fl role k tool cost b ≡ returned b'
      → IsAllowed role k tool b
        × ((s : BudgetState fl) × (s' : BudgetState fl) × (find_budget fl role k.name b.budgets
              ≡ some s)
            × (charge_tool fl cost s ≡ returned s')
            × (find_budget fl role k.name b'.budgets ≡ some s')
            × (b'.mode ≡ b.mode))
  unfolding authorize
  authorize-IsAllowed role k tool cost b b' e = elim (Bool-cases (decide fl role k tool b).0) [
    | inl yes_granted ↦
        let (_, _, allowed) = decide-IsAllowed role k tool b yes_granted in
        let (s, s', found, charge, same) =
          charge_entry-Charges role k cost b b' (rw yes_granted at e) in
        (
          allowed,
          (
            s,
            s',
            found,
            charge,
            subst (λ (c : CapabilityBroker fl). find_budget fl role k.name c.budgets ≡ some s') same
                (find-put role k.name s' b.budgets),
            subst (λ (c : CapabilityBroker fl). c.mode ≡ b.mode) same refl,
          ),
        )
    | inr refused ↦ absurd (cc (rw refused at e))
  ]

  -- How many of a run of calls, each of a tool at a cost, are granted.
  unfoldable pub grants : Text → Skill fl → List (Text × fl.F) → CapabilityBroker fl → ℕ
  grants role k [] b = 0
  grants role k ((tool, cost) ∷ calls) b = elim (authorize fl role k tool cost b) [
    | raised _ ↦ grants role k calls b
    | returned b' ↦ suc (grants role k calls b')
  ]

  grants-le :
      (role : Text) (k : Skill fl) (calls : List (Text × fl.F)) (b : CapabilityBroker fl)
      (s : BudgetState fl)
      → find_budget fl role k.name b.budgets ≡ some s
      → s.tool_calls ≤ s.budget.max_tool_calls
      → s.tool_calls + grants role k calls b ≤ s.budget.max_tool_calls
  unfolding grants
  grants-le role k [] b s found h = omega (arith, h)
  grants-le role k ((tool, cost) ∷ calls) b s found h =
      go (grants-le role k calls) (authorize fl role k tool cost b) refl
    where
      go :
          ((c : CapabilityBroker fl) (q : BudgetState fl)
            → find_budget fl role k.name c.budgets ≡ some q
            → q.tool_calls ≤ q.budget.max_tool_calls
            → q.tool_calls + grants role k calls c ≤ q.budget.max_tool_calls)
          → (c : Call CapabilityError (CapabilityBroker fl)) → authorize fl role k tool cost b ≡ c
          → s.tool_calls + (elim c [
            | raised _ ↦ grants role k calls b
            | returned b' ↦ suc (grants role k calls b')
          ])
            ≤ s.budget.max_tool_calls
      go later (raised _) e = later b s found h
      go later (returned b') e =
          let (_, (q, q', here, charge, there, _)) = authorize-IsAllowed role k tool cost b b' e in
          let same : q ≡ s = cc (here, found) in
          let (counted, bounded, kept) = charge_tool-counts cost q q' charge in
          let limit : q'.budget.max_tool_calls ≡ s.budget.max_tool_calls = cc (kept, same) in
          let rest = later b' q' there (
            omega
              (arith, bounded, limit, ap (λ (t : BudgetState fl). t.budget.max_tool_calls) same)) in
          omega (arith, rest, counted, limit, ap (λ (t : BudgetState fl). t.tool_calls) same)

  -- After a skill is registered for a role, authorize grants at most as many of its calls as the
  -- skill declares, whatever tools are called at whatever costs, until it is registered again.
  pub grants-register :
      (role : Text) (k : Skill fl) (b b' : CapabilityBroker fl) (calls : List (Text × fl.F))
      → register fl role k b ≡ returned b'
      → (has_text role k.roles ≡ true) × (grants role k calls b' ≤ k.max_tool_calls)
  unfolding register new_state budget_of
  grants-register role k b b' calls e = elim (Bool-cases (has_text role k.roles)) [
    | inl may ↦
        let s = new_state fl (budget_of fl k) in
        let same : record b { budgets = put_budget fl role k.name s b.budgets } ≡ b' =
          cc (rw may at e) in
        let found : find_budget fl role k.name b'.budgets ≡ some s =
          subst (λ (c : CapabilityBroker fl). find_budget fl role k.name c.budgets ≡ some s) same
            (find-put role k.name s b.budgets) in
        (may, omega (arith, grants-le role k calls b' s found (omega arith)))
    | inr may_not ↦ absurd (cc (rw may_not at e))
  ]
