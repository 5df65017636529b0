-- ===== src/Risk/Evaluate.antt =====
-- `evaluate_risk` (aegis/risk/checks.py).
use aegis_quant.Common.{
  ℕ, Bool, not, ◌&&◌, Option, none, some, List, [], ◌∷◌, ◌++◌, map, all, select, is_empty, Dict,
  get_or, insert, has_key, keys, values, if◌then◌else◌,
}
use aegis_quant.Common.Sort.{sort_items, sort_set}
use aegis_quant.Num.{FloatOps}
use aegis_quant.Risk.Policy.{Rule, Violation, RiskPolicy, RiskClamp, Weights}
use aegis_quant.Risk.Clamps.{Book, apply_safety_clamps}
use aegis_quant.Risk.Checks.{record_if, record_safety_violations}
use Prim.Native.String.{String}

-- `{ticker.upper(): sector for ticker, sector in sector_by_ticker.items()}`
unfoldable pub upper_sectors : (ℕ → ℕ) → Dict ℕ → Dict ℕ → Dict ℕ
upper_sectors upper acc [] = acc
upper_sectors upper acc ((t, s) ∷ d) = upper_sectors upper (insert (upper t) s acc) d

module _ (fl : FloatOps) where
  open fl use {
    F, zero, half, tolerance, dust, add, sub, mul, div, abs, lt, eq, is_finite, sum, text,
  }

  -- `_finite_mapping`; `none` is its ValueError.
  unfoldable pub finite_mapping : Dict F → Option (Dict F)
  finite_mapping d = if all is_finite (values d) then some (sort_items d) else none

  -- `_turnover`
  unfoldable pub turnover : Weights fl → Weights fl → F
  turnover target current = mul half (
      sum (
        map (λ t. abs (sub (get_or zero t target) (get_or zero t current)))
          (sort_set (keys target ++ keys current))))

  -- `current + scale * (target - current)`
  unfoldable pub interpolate : F → Weights fl → Weights fl → ℕ → F
  interpolate scale ws current t =
      add (get_or zero t current) (mul scale (sub (get_or zero t ws) (get_or zero t current)))

  -- One ticker of a book that the turnover limit delays: a reduction of its absolute exposure is
  -- carried out whole.
  unfoldable pub limited_weight : F → Weights fl → Weights fl → ℕ → F × List (RiskClamp fl)
  limited_weight scale target current t =
      let before = interpolate scale target current t in
      let target_weight = get_or zero t target in
      if lt (abs target_weight) (abs (get_or zero t current)) && not (eq before target_weight)
      then (
        target_weight,
        record {
          rule = Rule.de_risk_overrides_turnover;
          ticker = some t;
          group = none;
          before = before;
          after = target_weight;
        }
            ∷ [],
      )
      else (before, [])

  unfoldable pub limited_book :
      F → Weights fl → Weights fl → List ℕ → Weights fl × List (RiskClamp fl)
  limited_book scale target current [] = ([], [])
  limited_book scale target current (t ∷ ts) =
      let (w, logged) = limited_weight scale target current t in
      let (ws, clamps) = limited_book scale target current ts in ((t, w) ∷ ws, logged ++ clamps)

  -- The turnover limit, and the second run of every clamp after it.
  unfoldable pub apply_turnover_limit : RiskPolicy fl → Dict ℕ → Weights fl → Book fl → Book fl
  apply_turnover_limit p sectors current b =
      let moved = turnover b.weights current in
      let (limited, clamps) =
        limited_book (div p.max_turnover_pct moved) b.weights current
          (sort_set (keys b.weights ++ keys current)) in
      let logged : RiskClamp fl = record {
        rule = Rule.max_turnover_pct;
        ticker = none;
        group = none;
        before = moved;
        after = p.max_turnover_pct;
      } in
      if lt p.max_turnover_pct moved
      then apply_safety_clamps fl p sectors (record {
        weights = limited;
        clamps = b.clamps ++ (logged ∷ clamps);
        violations = b.violations;
      })
      else b

  -- The loop over `strategies`.
  unfoldable pub record_strategies : RiskPolicy fl → Dict F → List Violation → List Violation
  record_strategies p [] vs = vs
  record_strategies p ((name, allocation) ∷ d) vs = record_strategies p d (
      record_if (lt (add p.maximum_single_strategy_pct tolerance) allocation)
        (Violation.strategy_exceeds name (text allocation)) vs)

  -- `{ticker: weight for ... if abs(weight) > 1e-15}`
  unfoldable pub drop_dust : Weights fl → Weights fl
  drop_dust ws = select (λ e. lt dust (abs e.1)) (sort_items ws)

  -- `warned` says whether the one warning, on an overridden turnover limit, was recorded.
  pub record RiskDecision : Type 0 where
    pub approved : Bool
    pub final_weights : Weights fl
    pub violations : List Violation
    pub warned : Bool
    pub policy_version : String

  pub record RiskEvaluation : Type 0 where
    pub decision : RiskDecision
    pub clamps : List (RiskClamp fl)

  -- From the two checked mappings on.
  unfoldable pub decide : RiskPolicy fl → Weights fl → Weights fl → Dict ℕ → Dict F → RiskEvaluation
  decide p target current sectors strategies =
      let start : Book fl = record { weights = sort_items target; clamps = []; violations = [] } in
      let safe = apply_safety_clamps fl p sectors start in
      let checked = record safe { violations = record_strategies p strategies safe.violations } in
      let limited = apply_turnover_limit p sectors current checked in
      let final = drop_dust limited.weights in
      let violations = record_safety_violations fl p sectors final limited.violations in
      record {
        decision = record {
          approved = is_empty violations;
          final_weights = final;
          violations = violations;
          warned = lt (add p.max_turnover_pct tolerance) (turnover final current);
          policy_version = p.version;
        };
        clamps = limited.clamps;
      }

  -- `normalize_ticker_map`, after the entries that it has accepted. A ticker stands for a text
  -- that is stripped and in upper case, and `is_ticker` is the match of the pattern on it; `none`
  -- is a ValueError.
  unfoldable pub normalize_ticker_map : (ℕ → Bool) → Weights fl → Weights fl → Option (Weights fl)
  normalize_ticker_map is_ticker normalized [] = some normalized
  normalize_ticker_map is_ticker normalized ((t, w) ∷ d) =
      let rest = normalize_ticker_map is_ticker (normalized ++ (t, w) ∷ []) d in
      if is_ticker t && not (has_key t normalized) && is_finite w then rest else none

  -- `approval_matches_violations`
  unfoldable pub matches_violations : Bool → List Violation → Bool
  matches_violations approved vs = if approved then is_empty vs else not (is_empty vs)

  -- The validators of `RiskDecision`; `none` is their ValidationError.
  unfoldable pub validated : (ℕ → Bool) → RiskEvaluation → Option RiskEvaluation
  validated is_ticker ev = elim (normalize_ticker_map is_ticker [] ev.decision.final_weights) [
    | none ↦ none
    | some ws ↦
        if matches_violations ev.decision.approved ev.decision.violations
        then some (record ev { decision = record ev.decision { final_weights = ws } })
        else none
  ]

  -- `evaluate_risk`; `upper` is `str.upper`, and `none` the ValueError of a weight that is not
  -- finite or the ValidationError of the decision. The hash of the inputs is left out.
  unfoldable pub evaluate_risk :
      (ℕ → ℕ)
      → (ℕ → Bool)
      → Weights fl
      → RiskPolicy fl
      → Weights fl
      → Dict ℕ
      → Dict F
      → Option RiskEvaluation
  evaluate_risk upper is_ticker target p current_weights sector_by_ticker strategy_allocations =
      elim (finite_mapping current_weights) [
        | none ↦ none
        | some current ↦ elim (finite_mapping strategy_allocations) [
          | none ↦ none
          | some strategies ↦
              validated is_ticker
                (decide p target current (upper_sectors upper [] sector_by_ticker) strategies)
        ]
      ]
