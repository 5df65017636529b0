-- ===== src/Risk/Clamps.antt =====
-- `_apply_safety_clamps` and the helpers of the gate (aegis/risk/checks.py).
use aegis_quant.Common.{
  ℕ, not, none, some, List, [], ◌∷◌, ◌++◌, map, any, select, is_empty, Dict, get_or, has_key, keys,
  values, if◌then◌else◌, ◌==◌,
}
use aegis_quant.Common.Sort.{sort_items, sort_set}
use aegis_quant.Num.{FloatOps, max, min, truthy}
use aegis_quant.Risk.Policy.{Rule, Violation, same_violation, RiskPolicy, RiskClamp, Weights}

-- `_append_violation`
unfoldable pub append_violation : List Violation → Violation → List Violation
append_violation vs v = if any (same_violation v) vs then vs else vs ++ v ∷ []

-- `sorted(set(weights).difference(sectors))`
unfoldable pub missing_sectors {ℓ} : {V : Type ℓ} → Dict V → Dict ℕ → List ℕ
missing_sectors ws sectors = select (λ t. not (has_key t sectors)) (sort_set (keys ws))

-- `sorted({sectors[ticker] for ticker in weights})`
unfoldable pub sector_names {ℓ} : {V : Type ℓ} → Dict V → Dict ℕ → List ℕ
sector_names ws sectors = sort_set (map (λ t. get_or 0 t sectors) (keys ws))

module _ (fl : FloatOps) where
  open fl use {F, zero, half, one, tolerance, dust, sub, mul, div, neg, abs, lt, eq, is_finite, sum}

  -- What `_apply_safety_clamps` works on: its dict, and the two lists that it appends to.
  pub record Book : Type 0 where
    pub weights : Weights fl
    pub clamps : List (RiskClamp fl)
    pub violations : List Violation

  -- A loop over the tickers in order that may replace a weight and log a clamp.
  unfoldable pub sweep :
      (ℕ → F → F × List (RiskClamp fl)) → Weights fl → Weights fl × List (RiskClamp fl)
  sweep f [] = ([], [])
  sweep f ((t, w) ∷ ws) =
      let (w', logged) = f t w in
      let (ws', clamps) = sweep f ws in ((t, w') ∷ ws', logged ++ clamps)

  unfoldable pub no_shorting : ℕ → F → F × List (RiskClamp fl)
  no_shorting t w =
      if lt w zero
      then (
        zero,
        record { rule = Rule.no_shorting; ticker = some t; group = none; before = w; after = zero }
            ∷ [],
      )
      else (w, [])

  unfoldable pub position_limit : F → F → F
  position_limit cap w = if lt zero w then cap else neg cap

  unfoldable pub cap_position : F → ℕ → F → F × List (RiskClamp fl)
  unfolding position_limit
  cap_position cap t w =
      if lt cap (abs w)
      then (
        position_limit cap w,
        record {
          rule = Rule.max_position_pct;
          ticker = some t;
          group = none;
          before = w;
          after = position_limit cap w;
        }
            ∷ [],
      )
      else (w, [])

  -- `[ticker for ticker in sorted(result) if sectors[ticker] == sector]`
  unfoldable pub members : Dict ℕ → ℕ → Weights fl → Weights fl
  members sectors s ws = select (λ e. get_or 0 e.0 sectors == s) ws

  -- `sum(max(result[ticker], 0.0) for ticker in members)`
  unfoldable pub sector_exposure : Dict ℕ → ℕ → Weights fl → F
  unfolding members
  sector_exposure sectors s ws = sum (map (λ e. max fl e.1 zero) (members sectors s ws))

  unfoldable pub scale_long : F → F → F
  scale_long scale w = if lt zero w then mul w scale else w

  -- `for ticker in members: if result[ticker] > 0.0: result[ticker] *= scale`
  unfoldable pub scale_sector : Dict ℕ → ℕ → F → Weights fl → Weights fl
  unfolding scale_long
  scale_sector sectors s scale [] = []
  scale_sector sectors s scale ((t, w) ∷ ws) =
      (t, (if get_or 0 t sectors == s then scale_long scale w else w))
      ∷ scale_sector sectors s scale ws

  -- One round of the loop over the sectors.
  unfoldable pub limit_sector :
      RiskPolicy fl → Dict ℕ → ℕ → Weights fl → Weights fl × List (RiskClamp fl)
  limit_sector p sectors s ws =
      let exposure = sector_exposure sectors s ws in
      if lt p.maximum_sector_pct exposure
      then (
        scale_sector sectors s (div p.maximum_sector_pct exposure) ws,
        record {
          rule = Rule.maximum_sector_pct;
          ticker = none;
          group = some s;
          before = exposure;
          after = p.maximum_sector_pct;
        }
            ∷ [],
      )
      else (ws, [])

  unfoldable pub limit_sectors :
      RiskPolicy fl → Dict ℕ → List ℕ → Weights fl → Weights fl × List (RiskClamp fl)
  limit_sectors p sectors [] ws = (ws, [])
  limit_sectors p sectors (s ∷ ss) ws =
      let (ws', logged) = limit_sector p sectors s ws in
      let (ws'', clamps) = limit_sectors p sectors ss ws' in (ws'', logged ++ clamps)

  -- `sum(abs(result[ticker]) for ticker in sorted(result))`
  unfoldable pub gross_exposure : Weights fl → F
  gross_exposure ws = sum (map abs (values ws))

  -- `abs(sum(result[ticker] for ticker in sorted(result)))`
  unfoldable pub net_exposure : Weights fl → F
  net_exposure ws = abs (sum (values ws))

  unfoldable pub ratio : F → F → F
  ratio cap exposure = if truthy fl exposure then div cap exposure else one

  -- The factor of the last clamp, for the gross, net and cash limits at once.
  unfoldable pub book_scale : RiskPolicy fl → Weights fl → F
  unfolding ratio
  book_scale p ws =
      let cap = min fl p.max_gross_exposure (sub one p.minimum_cash_pct) in
      min fl (min fl one (ratio cap (gross_exposure ws)))
        (ratio p.max_net_exposure (net_exposure ws))

  unfoldable pub scale_book : F → Weights fl → Weights fl
  scale_book scale [] = []
  scale_book scale ((t, w) ∷ ws) = (t, mul w scale) ∷ scale_book scale ws

  unfoldable pub limit_book : RiskPolicy fl → Weights fl → Weights fl × List (RiskClamp fl)
  limit_book p ws =
      let scale = book_scale p ws in
      let scaled = scale_book scale ws in
      if lt scale one
      then (
        scaled,
        record {
          rule = Rule.gross_net_and_cash;
          ticker = none;
          group = none;
          before = gross_exposure ws;
          after = gross_exposure scaled;
        }
            ∷ [],
      )
      else (ws, [])

  -- The sector limits, or the violation that stands in their place.
  unfoldable pub apply_sector_limits : RiskPolicy fl → Dict ℕ → Book → Book
  apply_sector_limits p sectors b =
      let missing = missing_sectors b.weights sectors in
      let (ws, clamps) = limit_sectors p sectors (sector_names b.weights sectors) b.weights in
      if is_empty missing
      then record b { weights = ws; clamps = b.clamps ++ clamps }
      else record b {
        violations = append_violation b.violations (Violation.missing_sector missing);
      }

  -- A sweep that goes on from a book.
  unfoldable pub swept : (ℕ → F → F × List (RiskClamp fl)) → Book → Book
  swept f b =
      let (ws, clamps) = sweep f b.weights in record b { weights = ws; clamps = b.clamps ++ clamps }

  unfoldable pub apply_book_limit : RiskPolicy fl → Book → Book
  apply_book_limit p b =
      let (ws, clamps) = limit_book p b.weights in
      record b { weights = ws; clamps = b.clamps ++ clamps }

  -- `_apply_safety_clamps`
  unfoldable pub apply_safety_clamps : RiskPolicy fl → Dict ℕ → Book → Book
  apply_safety_clamps p sectors b =
      let start = record b { weights = sort_items b.weights } in
      let long = if p.allow_shorting then start else swept no_shorting start in
      let capped = swept (cap_position p.max_position_pct) long in
      apply_book_limit p (apply_sector_limits p sectors capped)
