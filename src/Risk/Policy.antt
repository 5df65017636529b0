-- ===== src/Risk/Policy.antt =====
-- `RiskPolicy` and the other records of the gate (aegis/contracts/risk.py, aegis/risk/checks.py).
use aegis_quant.Common.{ℕ, Bool, true, false, not, ◌&&◌, Option, List, Dict, ◌==◌}
use Prim.Native.String.{String}
use text.Mathlib.Text.{◌==◌ as str_eq}
use aegis_quant.Num.{FloatOps}

-- The gate reads no clock and places no order: a rule names the constraint that was applied.
pub data Rule : Type 0 where
  no_shorting max_position_pct maximum_sector_pct : Rule
  gross_net_and_cash max_turnover_pct de_risk_overrides_turnover : Rule

-- The messages of `violations`, with what each of them renders.
pub data Violation : Type 0 where
  missing_sector : List ℕ → Violation
  strategy_exceeds : ℕ → String → Violation
  sector_exceeds : ℕ → String → Violation
  non_finite short_position position_cap gross_cap net_cap leverage minimum_cash : Violation

same_list : List ℕ → List ℕ → Bool
same_list List.[] List.[] = true
same_list (List.◌∷◌ a as') (List.◌∷◌ b bs) = a == b && same_list as' bs
same_list _ _ = false

-- `message == other`
unfoldable pub same_violation : Violation → Violation → Bool
unfolding same_list
same_violation (Violation.missing_sector a) (Violation.missing_sector b) = same_list a b
same_violation (Violation.strategy_exceeds s x) (Violation.strategy_exceeds t y) =
    s == t && str_eq x y
same_violation (Violation.sector_exceeds s x) (Violation.sector_exceeds t y) = s == t && str_eq x y
same_violation Violation.non_finite Violation.non_finite = true
same_violation Violation.short_position Violation.short_position = true
same_violation Violation.position_cap Violation.position_cap = true
same_violation Violation.gross_cap Violation.gross_cap = true
same_violation Violation.net_cap Violation.net_cap = true
same_violation Violation.leverage Violation.leverage = true
same_violation Violation.minimum_cash Violation.minimum_cash = true
same_violation _ _ = false

module _ (fl : FloatOps) where
  open fl use {F, zero, one, tolerance, add, lt, le, is_finite}

  pub record RiskPolicy : Type 0 where
    pub max_position_pct : F
    pub max_gross_exposure : F
    pub max_net_exposure : F
    pub max_turnover_pct : F
    pub minimum_cash_pct : F
    pub minimum_confidence : F
    pub maximum_sector_pct : F
    pub maximum_single_strategy_pct : F
    pub stale_price_minutes : ℕ
    pub allow_shorting : Bool
    pub allow_leverage : Bool
    pub commission_bps : F
    pub slippage_bps : F
    pub version : String

  -- `Fraction`
  unfoldable pub is_fraction : F → Bool
  is_fraction x = le zero x && le x one && is_finite x

  -- `Annotated[float, Field(gt=0.0, allow_inf_nan=False)]`
  unfoldable pub is_positive : F → Bool
  is_positive x = lt zero x && is_finite x

  -- The field constraints of `RiskPolicy`.
  unfoldable pub has_valid_fields : RiskPolicy → Bool
  has_valid_fields p =
      is_fraction p.max_position_pct
      && is_positive p.max_gross_exposure
      && is_fraction p.max_net_exposure
      && is_fraction p.max_turnover_pct
      && is_fraction p.minimum_cash_pct
      && is_fraction p.minimum_confidence
      && is_fraction p.maximum_sector_pct
      && is_fraction p.maximum_single_strategy_pct
      && is_positive p.commission_bps
      && is_positive p.slippage_bps
      && not (str_eq p.version "")

  -- `policy_is_coherent`
  unfoldable pub policy_is_coherent : RiskPolicy → Bool
  policy_is_coherent p =
      not (not p.allow_leverage && lt one p.max_gross_exposure)
      && not (lt p.max_gross_exposure p.max_position_pct)
      && not (lt (add one tolerance) (add p.minimum_cash_pct p.max_net_exposure))

  -- A ticker and a sector name are numbers in the order of their texts.
  pub record RiskClamp : Type 0 where
    pub rule : Rule
    pub ticker : Option ℕ
    pub group : Option ℕ
    pub before : F
    pub after : F

  abbrev pub Weights : Type 0
  Weights = Dict F
