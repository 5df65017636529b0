-- ===== src/Capability/Broker.antt =====
-- `CapabilityBroker` (aegis/harness/capability_broker.py), with the fields of `SkillMetadata`
-- (aegis/harness/skill_loader.py) that it reads.
use aegis_quant.Common.{
  ℕ, Bool, true, false, not, ◌&&◌, Option, none, some, List, [], ◌∷◌, any, Text, codes, same_text,
  has_text, starts_with, if◌then◌else◌, Call, returned, raised,
}
use aegis_quant.Num.{FloatOps}
use aegis_quant.Budgets.Charges.{BudgetError, Budget, BudgetState, new_state, charge_tool}

pub data RunMode : Type 0 where
  replay historical live_research research_lab : RunMode

-- `_FORBIDDEN_AGENT_PREFIXES`
abbrev pub forbidden_agent_prefixes : List Text
forbidden_agent_prefixes =
    codes "broker." ∷ codes "execution." ∷ codes "risk." ∷ codes "promotion." ∷ []

-- `_LIVE_ONLY_PREFIXES`
abbrev pub live_only_prefixes : List Text
live_only_prefixes =
    codes "source.agent_reach."
    ∷ codes "source.scrapling."
    ∷ codes "source.browser."
    ∷ codes "source.direct_http."
    ∷ []

-- `tool.startswith(prefixes)`
abbrev pub starts_with_any : List Text → Text → Bool
starts_with_any prefixes tool = any (starts_with tool) prefixes

-- The texts of `CapabilityDecision.reason`.
pub data Reason : Type 0 where
  allowed_by_skill not_registered not_declared capital_critical disabled_by_mode : Reason
  not_historical_safe : Reason

pub data CapabilityError : Type 0 where
  role_not_permitted : CapabilityError
  denied : Reason → CapabilityError
  over_budget : BudgetError → CapabilityError

unfoldable pub is_offline : RunMode → Bool
is_offline replay = true
is_offline historical = true
is_offline _ = false

unfoldable pub is_historical : RunMode → Bool
is_historical historical = true
is_historical _ = false

-- The branches of `decide` for a registered pair, from its four tests.
abbrev pub judge : Bool → Bool → Bool → Bool → Bool × Reason
judge declared critical live unsafe =
    if not declared
    then (false, not_declared)
    else if critical
    then (false, capital_critical)
    else if live
    then (false, disabled_by_mode)
    else if unsafe
    then (false, not_historical_safe)
    else (true, allowed_by_skill)

module _ (fl : FloatOps) where
  pub record Skill : Type 0 where
    pub name : Text
    pub roles : List Text
    pub allowed_tools : List Text
    pub historical_safe : Bool
    pub max_tool_calls : ℕ
    pub max_cost_usd : fl.F

  -- An entry of `_budgets`, under its role and skill name.
  pub record Entry : Type 0 where
    pub role : Text
    pub skill : Text
    pub state : BudgetState fl

  pub record CapabilityBroker : Type 0 where
    pub mode : RunMode
    pub budgets : List Entry

  abbrev pub is_entry : Text → Text → Entry → Bool
  is_entry role skill e = same_text role e.role && same_text skill e.skill

  -- `_budgets[(role, skill)]`
  unfoldable pub find_budget : Text → Text → List Entry → Option (BudgetState fl)
  find_budget role skill [] = none
  find_budget role skill (e ∷ es) =
      if is_entry role skill e then some e.state else find_budget role skill es

  -- `_budgets[(role, skill)] = state`
  unfoldable pub put_budget : Text → Text → BudgetState fl → List Entry → List Entry
  put_budget role skill s [] = record { role = role; skill = skill; state = s } ∷ []
  put_budget role skill s (e ∷ es) =
      if is_entry role skill e then record e { state = s } ∷ es else e ∷ put_budget role skill s es

  -- The budget of a skill, with the defaults of `Budget` for tokens and retries.
  unfoldable pub budget_of : Skill → Budget fl
  budget_of k = record {
    max_tool_calls = k.max_tool_calls;
    max_cost_usd = k.max_cost_usd;
    max_tokens = 20000;
    max_retries = 1;
  }

  unfoldable pub register : Text → Skill → CapabilityBroker → Call CapabilityError CapabilityBroker
  register role k b =
      if not (has_text role k.roles)
      then raised role_not_permitted
      else returned
          (record b { budgets = put_budget role k.name (new_state fl (budget_of k)) b.budgets })

  -- `decide`: the reason, and whether the call is allowed.
  unfoldable pub decide : Text → Skill → Text → CapabilityBroker → Bool × Reason
  decide role k tool b = elim (find_budget role k.name b.budgets) [
    | none ↦ (false, not_registered)
    | some _ ↦
        judge (has_text tool k.allowed_tools) (starts_with_any forbidden_agent_prefixes tool)
          (is_offline b.mode && starts_with_any live_only_prefixes tool)
          (is_historical b.mode && not k.historical_safe)
  ]

  -- The charge of `authorize`, on the state that stands under the role and the skill.
  unfoldable pub charge_entry :
      Text → Skill → fl.F → CapabilityBroker → Call CapabilityError CapabilityBroker
  charge_entry role k cost b = elim (find_budget role k.name b.budgets) [
    | none ↦ raised (denied not_registered)
    | some s ↦ elim (charge_tool fl cost s) [
      | raised why ↦ raised (over_budget why)
      | returned s' ↦ returned (record b { budgets = put_budget role k.name s' b.budgets })
    ]
  ]

  unfoldable pub authorize :
      Text → Skill → Text → fl.F → CapabilityBroker → Call CapabilityError CapabilityBroker
  authorize role k tool cost b =
      let decision = decide role k tool b in
      if not decision.0 then raised (denied decision.1) else charge_entry role k cost b
