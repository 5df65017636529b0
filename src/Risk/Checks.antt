-- ===== src/Risk/Checks.antt =====
-- `_record_safety_violations` (aegis/risk/checks.py): the last look at the clamped book.
use aegis_quant.Common.{
  ℕ, Bool, not, ◌&&◌, List, [], ◌∷◌, any, is_empty, Dict, values, if◌then◌else◌,
}
use aegis_quant.Num.{FloatOps}
use aegis_quant.Risk.Policy.{Violation, RiskPolicy, Weights}
use aegis_quant.Risk.Clamps.{
  append_violation, missing_sectors, sector_names, sector_exposure, gross_exposure, net_exposure,
}

unfoldable pub record_if : Bool → Violation → List Violation → List Violation
record_if test v vs = if test then append_violation vs v else vs

module _ (fl : FloatOps) where
  open fl use {F, one, tolerance, add, sub, neg, abs, lt, is_finite, sum, text}

  -- The loop over the sectors.
  unfoldable pub record_sectors :
      RiskPolicy fl → Dict ℕ → Weights fl → List ℕ → List Violation → List Violation
  record_sectors p sectors ws [] vs = vs
  record_sectors p sectors ws (s ∷ ss) vs =
      let exposure = sector_exposure fl sectors s ws in
      record_sectors p sectors ws ss (
        record_if (lt (add p.maximum_sector_pct tolerance) exposure)
          (Violation.sector_exceeds s (text exposure)) vs)

  unfoldable pub record_classification :
      RiskPolicy fl → Dict ℕ → Weights fl → List Violation → List Violation
  record_classification p sectors ws vs =
      let missing = missing_sectors ws sectors in
      if is_empty missing
      then record_sectors p sectors ws (sector_names ws sectors) vs
      else append_violation vs (Violation.missing_sector missing)

  -- The tests on single positions.
  unfoldable pub record_positions : RiskPolicy fl → Weights fl → List Violation → List Violation
  record_positions p ws vs =
      record_if (any (λ w. lt (add p.max_position_pct tolerance) (abs w)) (values ws))
        Violation.position_cap
        (record_if (not p.allow_shorting && any (λ w. lt w (neg tolerance)) (values ws))
          Violation.short_position vs)

  -- The tests on the whole book.
  unfoldable pub record_totals : RiskPolicy fl → Weights fl → List Violation → List Violation
  record_totals p ws vs =
      let gross = gross_exposure fl ws in
      let signed_net = sum (values ws) in
      let vs₁ = record_if (lt (add p.max_gross_exposure tolerance) gross) Violation.gross_cap vs in
      let vs₂ =
        record_if (lt (add p.max_net_exposure tolerance) (net_exposure fl ws)) Violation.net_cap
          vs₁ in
      let vs₃ =
        record_if (not p.allow_leverage && lt (add one tolerance) gross) Violation.leverage vs₂ in
      record_if (lt (sub one signed_net) (sub p.minimum_cash_pct tolerance)) Violation.minimum_cash
        vs₃

  unfoldable pub record_safety_violations :
      RiskPolicy fl → Dict ℕ → Weights fl → List Violation → List Violation
  record_safety_violations p sectors ws vs =
      if any (λ w. not (is_finite w)) (values ws)
      then append_violation vs Violation.non_finite
      else record_totals p ws (record_classification p sectors ws (record_positions p ws vs))
