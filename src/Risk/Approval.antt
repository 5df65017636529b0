-- ===== src/Risk/Approval.antt =====
-- The gate fails closed: an approved evaluation has no violation, and a book without violations
-- is within every hard limit.
use aegis_quant.Common.{
  ℕ, ◌≡◌, refl, ◌∙◌, ◌⊎◌, inl, inr, Bool, true, false, not, List, [], ◌∷◌, map, any, select-nil,
  contains-All, All, Dict, get_or, has_key, keys, values, is_empty, Bool-cases, arith,
}
use aegis_quant.Common.Sort.{sort_set, contains-sort_set}
use aegis_quant.Num.{FloatOps}
use aegis_quant.Num.Laws.{FloatLaws, Le, Finite}
use aegis_quant.Risk.Policy.{
  Violation, RiskPolicy, Weights, has_valid_fields, is_fraction, is_positive,
}
use aegis_quant.Risk.Clamps.{
  missing_sectors, sector_names, sector_exposure, gross_exposure, net_exposure,
}
use aegis_quant.Risk.Bounds.{
  keys-All, sectors-All, record_if-nil, append_violation-nonempty, add_tolerance-IsNumber,
  below-All, above-All, members-Finite, values-Finite, values-All, values-false,
}
use aegis_quant.Risk.Checks.{
  record_sectors, record_classification, record_positions, record_totals, record_safety_violations,
}

module _ (fl : FloatOps) where
  open fl use {F, zero, one, tolerance, abs, lt, add, sub, neg, sum, is_finite}

  -- The hard limits of a policy, each with the tolerance of the gate.
  pub record IsSafe (p : RiskPolicy fl) (sectors : Dict ℕ) (ws : Weights fl) : Type 0 where
    pub finite : All (λ (e : ℕ × F). Finite fl e.1) ws
    pub positions : All (λ (e : ℕ × F). Le fl (abs e.1) (add p.max_position_pct tolerance)) ws
    pub long : (p.allow_shorting ≡ true) ⊎ All (λ (e : ℕ × F). Le fl (neg tolerance) e.1) ws
    pub classified : All (λ (e : ℕ × F). has_key e.0 sectors ≡ true) ws
    pub sector_exposures :
        All
          (λ (e : ℕ × F).
            Le fl
              (sector_exposure fl sectors (get_or 0 e.0 sectors) ws)
              (add p.maximum_sector_pct tolerance))
          ws
    pub gross : Le fl (gross_exposure fl ws) (add p.max_gross_exposure tolerance)
    pub net : Le fl (net_exposure fl ws) (add p.max_net_exposure tolerance)
    pub leverage : (p.allow_leverage ≡ true) ⊎ Le fl (gross_exposure fl ws) (add one tolerance)
    pub cash : Le fl (sub p.minimum_cash_pct tolerance) (sub one (sum (values ws)))

  record_sectors-nil :
      (p : RiskPolicy fl) (sectors : Dict ℕ) (ws : Weights fl) (ss : List ℕ) (vs : List Violation)
      → record_sectors fl p sectors ws ss vs ≡ []
      → (All
          (λ s. lt (add p.maximum_sector_pct tolerance) (sector_exposure fl sectors s ws) ≡ false)
          ss)
        × (vs ≡ [])
  unfolding record_sectors
  record_sectors-nil p sectors ws [] vs h = (tt, h)
  record_sectors-nil p sectors ws (s ∷ ss) vs h =
      let (rest, before) = record_sectors-nil p sectors ws ss _ h in
      let (test, empty) = record_if-nil _ _ vs before in ((test, rest), empty)

  -- Every ticker has a sector, and no sector is above its limit.
  record_classification-nil :
      (p : RiskPolicy fl) (sectors : Dict ℕ) (ws : Weights fl) (vs : List Violation)
      → record_classification fl p sectors ws vs ≡ []
      → (All (λ (e : ℕ × F). has_key e.0 sectors ≡ true) ws)
        × (All
            (λ (e : ℕ × F).
              lt
                (add p.maximum_sector_pct tolerance)
                (sector_exposure fl sectors (get_or 0 e.0 sectors) ws)
              ≡ false)
            ws)
        × (vs ≡ [])
  unfolding record_classification missing_sectors sector_names
  record_classification-nil p sectors ws vs h =
      elim (Bool-cases (is_empty (missing_sectors ws sectors))) [
        | inl e ↦
            let (tests, empty) =
              record_sectors-nil p sectors ws (sector_names ws sectors) vs (rw e at h) in
            let known = select-nil (λ t. not (has_key t sectors)) (sort_set (keys ws)) e in
            (
              keys-All (λ t. has_key t sectors ≡ true) ws (sort_set (keys ws))
                  (λ t m.
                    not_false (has_key t sectors) (contains-All _ t (sort_set (keys ws)) known m))
                  (λ t m. contains-sort_set t (keys ws) ∙ m),
              sectors-All _ (λ t. get_or 0 t sectors) ws (sector_names ws sectors)
                  (λ s m. contains-All _ s (sector_names ws sectors) tests m)
                  (λ s m. contains-sort_set s (map (λ t. get_or 0 t sectors) (keys ws)) ∙ m),
              empty,
            )
        | inr e ↦ absurd (append_violation-nonempty vs _ (rw e at h))
      ]
    where
      not_false : (b : Bool) → not b ≡ false → b ≡ true
      not_false true q = refl
      not_false false q = cc

  record_positions-nil :
      (p : RiskPolicy fl) (ws : Weights fl) (vs : List Violation)
      → record_positions fl p ws vs ≡ []
      → (All (λ (e : ℕ × F). lt (add p.max_position_pct tolerance) (abs e.1) ≡ false) ws)
        × ((p.allow_shorting ≡ true) ⊎ All (λ (e : ℕ × F). lt e.1 (neg tolerance) ≡ false) ws)
        × (vs ≡ [])
  unfolding record_positions
  record_positions-nil p ws vs h =
      let (large, before) = record_if-nil _ _ _ h in
      let (short, empty) = record_if-nil _ _ vs before in
      (
        values-false (λ w. lt (add p.max_position_pct tolerance) (abs w)) ws large,
        elim (Bool-cases p.allow_shorting) [
          | inl e ↦ inl e
          | inr e ↦ inr (values-false (λ w. lt w (neg tolerance)) ws (rw e at short))
        ],
        empty,
      )

  record_totals-nil :
      (p : RiskPolicy fl) (ws : Weights fl) (vs : List Violation)
      → record_totals fl p ws vs ≡ []
      → (lt (add p.max_gross_exposure tolerance) (gross_exposure fl ws) ≡ false)
        × (lt (add p.max_net_exposure tolerance) (net_exposure fl ws) ≡ false)
        × ((p.allow_leverage ≡ true) ⊎ (lt (add one tolerance) (gross_exposure fl ws) ≡ false))
        × (lt (sub one (sum (values ws))) (sub p.minimum_cash_pct tolerance) ≡ false)
        × (vs ≡ [])
  unfolding record_totals
  record_totals-nil p ws vs h =
      let (cash, h₃) = record_if-nil _ _ _ h in
      let (leverage, h₂) = record_if-nil _ _ _ h₃ in
      let (net, h₁) = record_if-nil _ _ _ h₂ in
      let (gross, empty) = record_if-nil _ _ vs h₁ in
      (
        gross,
        net,
        elim (Bool-cases p.allow_leverage) [ inl e ↦ inl e | inr e ↦ inr (rw e at leverage) ],
        cash,
        empty,
      )

  module _ (laws : FloatLaws fl) where
    open laws use {
      le_refl, le_of_not_lt, number_of_ge, tolerance_finite, one_finite, sub_number, sum_number,
      abs_finite, neg_finite, sum-abs_nonneg, abs-sum_nonneg,
    }

    -- The finite limits of a policy.
    limits-Finite :
        (p : RiskPolicy fl)
        → has_valid_fields fl p ≡ true
        → Finite fl p.max_position_pct
          × Finite fl p.maximum_sector_pct
          × Finite fl p.max_gross_exposure
          × Finite fl p.max_net_exposure
          × Finite fl p.minimum_cash_pct
    unfolding has_valid_fields is_fraction is_positive
    limits-Finite p h = ground arith

    sectors-Le :
        (p : RiskPolicy fl) (sectors : Dict ℕ) (ws es : Weights fl)
        → Finite fl p.maximum_sector_pct
        → All (λ (e : ℕ × F). Finite fl e.1) ws
        → All
            (λ (e : ℕ × F).
              lt
                (add p.maximum_sector_pct tolerance)
                (sector_exposure fl sectors (get_or 0 e.0 sectors) ws)
              ≡ false)
            es
        → All
            (λ (e : ℕ × F).
              Le fl
                (sector_exposure fl sectors (get_or 0 e.0 sectors) ws)
                (add p.maximum_sector_pct tolerance))
            es
    unfolding sector_exposure
    sectors-Le p sectors ws [] top finite h = tt
    sectors-Le p sectors ws (e ∷ es) top finite h = (
      le_of_not_lt (add p.maximum_sector_pct tolerance) _
          (add_tolerance-IsNumber fl laws p.maximum_sector_pct top)
          (sum_number _ (members-Finite fl laws sectors (get_or 0 e.0 sectors) ws finite)) h.0,
      sectors-Le p sectors ws es top finite h.1,
    )

    pub record_safety_violations-IsSafe :
        (p : RiskPolicy fl) (sectors : Dict ℕ) (ws : Weights fl) (vs : List Violation)
        → has_valid_fields fl p ≡ true
        → record_safety_violations fl p sectors ws vs ≡ []
        → IsSafe p sectors ws × (vs ≡ [])
    unfolding record_safety_violations gross_exposure net_exposure
    record_safety_violations-IsSafe p sectors ws vs valid h =
        elim (Bool-cases (any (λ w. not (is_finite w)) (values ws))) [
          | inl e ↦ absurd (append_violation-nonempty vs _ (rw e at h))
          | inr e ↦
              let (top, top_sector, top_gross, top_net, least) = limits-Finite p valid in
              let (gross, net, leverage, cash, h₂) = record_totals-nil p ws _ (rw e at h) in
              let (known, sector, h₁) = record_classification-nil p sectors ws _ h₂ in
              let (large, short, empty) = record_positions-nil p ws vs h₁ in
              let finite = values-Finite fl laws ws e in
              let all_finite = values-All fl laws ws finite in
              let gross_number =
                number_of_ge zero (gross_exposure fl ws) (sum-abs_nonneg (values ws) all_finite) in
              let net_number =
                number_of_ge zero (net_exposure fl ws) (abs-sum_nonneg (values ws) all_finite) in
              let with_tolerance = add_tolerance-IsNumber fl laws in
              (
                record {
                  finite = finite;
                  positions =
                      below-All fl laws abs (add p.max_position_pct tolerance) ws
                        (λ x k. le_refl (abs x) (abs_finite x k))
                        (with_tolerance p.max_position_pct top) finite large;
                  long = elim short [
                    | inl allowed ↦ inl allowed
                    | inr above ↦ inr (
                        above-All fl laws (neg tolerance) ws
                          (le_refl (neg tolerance) (neg_finite tolerance tolerance_finite)) finite
                          above)
                  ];
                  classified = known;
                  sector_exposures = sectors-Le p sectors ws ws top_sector finite sector;
                  gross =
                      le_of_not_lt (add p.max_gross_exposure tolerance) (gross_exposure fl ws)
                        (with_tolerance p.max_gross_exposure top_gross) gross_number gross;
                  net =
                      le_of_not_lt (add p.max_net_exposure tolerance) (net_exposure fl ws)
                        (with_tolerance p.max_net_exposure top_net) net_number net;
                  leverage = elim leverage [
                    | inl allowed ↦ inl allowed
                    | inr under ↦ inr (
                        le_of_not_lt (add one tolerance) (gross_exposure fl ws)
                          (with_tolerance one one_finite) gross_number under)
                  ];
                  cash =
                      le_of_not_lt (sub one (sum (values ws))) (sub p.minimum_cash_pct tolerance)
                        (sub_number one (sum (values ws)) one_finite
                          (sum_number (values ws) all_finite))
                        (sub_number p.minimum_cash_pct tolerance least
                          (le_refl tolerance tolerance_finite))
                        cash;
                },
                empty,
              )
        ]
