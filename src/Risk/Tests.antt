-- ===== src/Risk/Tests.antt =====
-- The gate at a small book, over fixed-point numbers: two technology names and one bank.
use aegis_quant.Common.{ℕ, ◌≡◌, refl, true, false, some, [], ◌∷◌, Dict, lookup}
use aegis_quant.Common.Int.{ℤ, pos, negsuc, ◌+ℤ◌, ◌-ℤ◌}
use aegis_quant.Common.Sort.{sort_items}
use aegis_quant.Num.Fixed.{fixed, fixed-FloatLaws}
use aegis_quant.Num.Laws.{Le, Finite}
use aegis_quant.Risk.Policy.{
  RiskPolicy, Weights, has_valid_fields, is_fraction, is_positive, policy_is_coherent,
}
use aegis_quant.Risk.Clamps.{
  Book, append_violation, missing_sectors, sector_names, sweep, swept, no_shorting, cap_position,
  members, sector_exposure, scale_long, scale_sector, limit_sector, limit_sectors, gross_exposure,
  net_exposure, book_scale, scale_book, limit_book, apply_sector_limits, apply_book_limit,
  apply_safety_clamps,
}
use aegis_quant.Risk.Checks.{
  record_if, record_sectors, record_classification, record_positions, record_totals,
  record_safety_violations,
}
use aegis_quant.Risk.Evaluate.{
  upper_sectors, finite_mapping, turnover, interpolate, limited_weight, limited_book,
  apply_turnover_limit, record_strategies, drop_dust, RiskEvaluation, decide, normalize_ticker_map,
  matches_violations, validated, evaluate_risk,
}
use aegis_quant.Risk.Guarantees.{clamps_remove_exposure}
use aegis_quant.Risk.LongOnly.{clamps_deny_shorting}
use aegis_quant.Risk.Approval.{IsSafe}
use aegis_quant.Risk.FailClosed.{StrategiesWithin, approved-IsSafe}
use Prim.Native.Nat.{◌*◌}

-- Percentages of the unit.
abbrev pct : ℕ → ℤ
pct n = pos (n * 10_000_000_000_000)

abbrev policy : RiskPolicy fixed
policy = record {
  max_position_pct = pct 15;
  max_gross_exposure = pct 90;
  max_net_exposure = pct 90;
  max_turnover_pct = pct 30;
  minimum_cash_pct = pct 10;
  minimum_confidence = pct 55;
  maximum_sector_pct = pct 25;
  maximum_single_strategy_pct = pct 60;
  stale_price_minutes = 10080;
  allow_shorting = false;
  allow_leverage = false;
  commission_bps = pct 500;
  slippage_bps = pct 500;
  version = "risk-v1";
}

-- 20% and 14% in sector 7, a short position of 5% in sector 8.
abbrev target : Weights fixed
target = (3, pct 20) ∷ (1, pct 14) ∷ (2, negsuc 49_999_999_999_999) ∷ []

abbrev current : Weights fixed
current = (1, pct 40) ∷ []

abbrev sectors : Dict ℕ
sectors = (1, 7) ∷ (2, 8) ∷ (3, 7) ∷ []

abbrev allocations : Dict ℤ
allocations = (1, pct 50) ∷ (2, pct 50) ∷ []

abbrev book : Book fixed
book = record { weights = target; clamps = []; violations = [] }

abbrev run : RiskEvaluation fixed
run = decide fixed policy target current sectors allocations

policy_valid : has_valid_fields fixed policy ≡ true
unfolding has_valid_fields is_fraction is_positive
policy_valid = refl

policy_coherent : policy_is_coherent fixed policy ≡ true
unfolding policy_is_coherent ◌+ℤ◌
policy_coherent = refl

clamped :
    lookup 1 (apply_safety_clamps fixed policy sectors book).weights
    ≡ some (pos 120_689_655_172_413)
unfolding apply_safety_clamps sweep swept no_shorting cap_position members sector_exposure
    scale_long scale_sector limit_sector limit_sectors gross_exposure net_exposure book_scale
    scale_book limit_book apply_sector_limits apply_book_limit append_violation missing_sectors
    sector_names ◌+ℤ◌ ◌-ℤ◌
clamped = refl

-- A reduction from 40% to 12% is more than the turnover limit allows, and is made whole.
run-approved : run.decision.approved ≡ true
unfolding decide apply_turnover_limit turnover limited_book limited_weight interpolate
    record_strategies record_if append_violation drop_dust record_safety_violations record_totals
    record_classification record_sectors record_positions apply_safety_clamps sweep swept
    no_shorting cap_position members sector_exposure scale_long scale_sector limit_sector
    limit_sectors gross_exposure net_exposure book_scale scale_book limit_book apply_sector_limits
    apply_book_limit missing_sectors sector_names upper_sectors ◌+ℤ◌ ◌-ℤ◌
run-approved = refl

evaluated :
    evaluate_risk fixed (λ t. t) (λ t. true) target policy current sectors allocations ≡ some run
unfolding evaluate_risk finite_mapping validated normalize_ticker_map matches_violations decide
    apply_turnover_limit turnover limited_book limited_weight interpolate record_strategies
    record_if append_violation drop_dust record_safety_violations record_totals
    record_classification record_sectors record_positions apply_safety_clamps sweep swept
    no_shorting cap_position members sector_exposure scale_long scale_sector limit_sector
    limit_sectors gross_exposure net_exposure book_scale scale_book limit_book apply_sector_limits
    apply_book_limit missing_sectors sector_names upper_sectors ◌+ℤ◌ ◌-ℤ◌
evaluated = refl

approved-IsSafe_example :
    IsSafe fixed policy (upper_sectors (λ t. t) [] sectors) run.decision.final_weights
    × StrategiesWithin fixed policy (sort_items allocations)
    × (run.decision.violations ≡ [])
approved-IsSafe_example =
    approved-IsSafe fixed fixed-FloatLaws (λ t. t) (λ t. true) target policy current sectors
      allocations policy_valid evaluated run-approved

clamps_remove_exposure_example :
    (w : ℤ) × (lookup 1 target ≡ some w)
    × Finite fixed (pos 120_689_655_172_413)
    × Le fixed (pos 120_689_655_172_413) (fixed.abs w)
    × Le fixed (pos 120_689_655_172_413) policy.max_position_pct
clamps_remove_exposure_example =
    clamps_remove_exposure fixed fixed-FloatLaws policy sectors book policy_valid
      (refl, (refl, (refl, tt))) 1 (refl, (refl, (refl, tt))) clamped

clamps_deny_shorting_example : Le fixed (pos 0) (pos 120_689_655_172_413)
clamps_deny_shorting_example =
    clamps_deny_shorting fixed fixed-FloatLaws policy sectors book 1 policy_valid refl
      (refl, (refl, (refl, tt))) clamped

limited : lookup 1 (limited_book fixed (pct 50) target current (1 ∷ 2 ∷ [])).0 ≡ some (pct 14)
unfolding limited_book limited_weight interpolate ◌+ℤ◌ ◌-ℤ◌
limited = refl
