-- ===== src/Risk/FailClosed.antt =====
-- `evaluate_risk` as a whole: an approved decision is within the hard limits, whatever the book
-- and the proposal were, and a violation that was recorded once is never dropped.
use aegis_quant.Common.{
  ℕ, Bool, not, ◌&&◌, ◌++◌, has_key, ap, ◌∙◌, append-nil, append_assoc, ◌≡◌, refl, subst, sym, inl,
  inr, true, false, some, List, [], ◌∷◌, All, Dict, is_empty, if◌then◌else◌, Bool-cases,
  Option-cases, arith,
}
use aegis_quant.Common.Sort.{sort_items}
use aegis_quant.Num.{FloatOps}
use aegis_quant.Num.Laws.{FloatLaws}
use aegis_quant.Risk.Policy.{Violation, RiskPolicy, Weights, has_valid_fields}
use aegis_quant.Risk.Clamps.{
  Book, missing_sectors, swept, no_shorting, cap_position, apply_sector_limits, apply_book_limit,
  apply_safety_clamps,
}
use aegis_quant.Risk.Evaluate.{
  finite_mapping, upper_sectors, turnover, apply_turnover_limit, record_strategies, RiskEvaluation,
  decide, normalize_ticker_map, matches_violations, validated, evaluate_risk,
}
use aegis_quant.Risk.Bounds.{record_if-nil, append_violation-nonempty}
use aegis_quant.Risk.Approval.{IsSafe, record_safety_violations-IsSafe}

module _ (fl : FloatOps) where
  open fl use {F, add, lt, tolerance, is_finite}

  apply_safety_clamps-nil :
      (p : RiskPolicy fl) (sectors : Dict ℕ) (b : Book fl)
      → (apply_safety_clamps fl p sectors b).violations ≡ []
      → b.violations ≡ []
  unfolding apply_safety_clamps apply_book_limit apply_sector_limits swept
  apply_safety_clamps-nil p sectors b h =
      let start = record b { weights = sort_items b.weights } in
      let long = if p.allow_shorting then start else swept fl (no_shorting fl) start in
      let capped = swept fl (cap_position fl p.max_position_pct) long in
      let kept : long.violations ≡ b.violations = ground arith in
      elim (Bool-cases (is_empty (missing_sectors capped.weights sectors))) [
        | inl e ↦ subst (λ vs. vs ≡ []) kept (rw e at h)
        | inr e ↦ absurd (append_violation-nonempty long.violations _ (rw e at h))
      ]

  -- Each allocation of a strategy is at most its limit.
  abbrev pub StrategiesWithin : RiskPolicy fl → Dict F → Type 0
  StrategiesWithin p d =
      All (λ (e : ℕ × F). lt (add p.maximum_single_strategy_pct tolerance) e.1 ≡ false) d

  record_strategies-nil :
      (p : RiskPolicy fl) (d : Dict F) (vs : List Violation)
      → record_strategies fl p d vs ≡ []
      → StrategiesWithin p d × (vs ≡ [])
  unfolding record_strategies
  record_strategies-nil p [] vs h = (tt, h)
  record_strategies-nil p (e ∷ d) vs h =
      let (rest, before) = record_strategies-nil p d _ h in
      let (test, empty) = record_if-nil _ _ vs before in ((test, rest), empty)

  apply_turnover_limit-nil :
      (p : RiskPolicy fl) (sectors : Dict ℕ) (current : Weights fl) (b : Book fl)
      → (apply_turnover_limit fl p sectors current b).violations ≡ []
      → b.violations ≡ []
  unfolding apply_turnover_limit
  apply_turnover_limit-nil p sectors current b h =
      elim (Bool-cases (lt p.max_turnover_pct (turnover fl b.weights current))) [
        | inl e ↦ apply_safety_clamps-nil p sectors _ (rw e at h)
        | inr e ↦ rw e at h
      ]

  is_empty-nil : (vs : List Violation) → is_empty vs ≡ true → vs ≡ []
  is_empty-nil [] h = refl
  is_empty-nil (v ∷ vs) h = cc

  module _ (laws : FloatLaws fl) where
    decide-IsSafe :
        (p : RiskPolicy fl) (target current : Weights fl) (sectors : Dict ℕ) (strategies : Dict F)
        → has_valid_fields fl p ≡ true
        → (decide fl p target current sectors strategies).decision.approved ≡ true
        → IsSafe fl p sectors (decide fl p target current sectors strategies).decision.final_weights
          × StrategiesWithin p strategies
          × ((decide fl p target current sectors strategies).decision.violations ≡ [])
    unfolding decide
    decide-IsSafe p target current sectors strategies valid h =
        let ev = decide fl p target current sectors strategies in
        let empty = is_empty-nil ev.decision.violations h in
        let (safe, limited) =
          record_safety_violations-IsSafe fl laws p sectors ev.decision.final_weights _ valid
            empty in
        let checked = apply_turnover_limit-nil p sectors current _ limited in
        (safe, (record_strategies-nil p strategies _ checked).0, empty)

  -- The allocations that the gate reads, in order; the same as the caller's.
  finite_mapping-some :
      (d : Dict F) {d' : Dict F} → finite_mapping fl d ≡ some d' → d' ≡ sort_items d
  unfolding finite_mapping
  finite_mapping-some d h = ground arith

  -- The validators of a decision let its weights through as they are.
  normalize_ticker_map-some :
      (is_ticker : ℕ → Bool) (acc ws : Weights fl) {out : Weights fl}
      → normalize_ticker_map fl is_ticker acc ws ≡ some out
      → acc ++ ws ≡ out
  unfolding normalize_ticker_map
  normalize_ticker_map-some is_ticker acc [] e = append-nil acc ∙ cc (e)
  normalize_ticker_map-some is_ticker acc ((t, w) ∷ d) {out} e =
      elim (Bool-cases (is_ticker t && not (has_key t acc) && fl.is_finite w)) [
        | inl good ↦
            sym (append_assoc acc ((t, w) ∷ []) d)
            ∙ normalize_ticker_map-some is_ticker (acc ++ (t, w) ∷ []) d (rw good at e)
        | inr bad ↦ absurd (cc (rw bad at e))
      ]

  validated-some :
      (is_ticker : ℕ → Bool) (ev : RiskEvaluation fl) {ev' : RiskEvaluation fl}
      → validated fl is_ticker ev ≡ some ev'
      → ev ≡ ev'
  unfolding validated
  validated-some is_ticker ev {ev'} e =
      let d = ev.decision in
      elim (Option-cases (normalize_ticker_map fl is_ticker [] d.final_weights)) [
        | inl bad ↦ absurd (cc (rw (bad, validated) at e))
        | inr (ws, good) ↦ elim (Bool-cases (matches_violations fl d.approved d.violations)) [
          | inr bad ↦ absurd (cc (rw (good, bad, validated) at e))
          | inl fine ↦
              let same : d.final_weights ≡ ws =
                normalize_ticker_map-some is_ticker [] d.final_weights good in
              let made : record ev { decision = record d { final_weights = ws } } ≡ ev' =
                cc (rw (good, fine, validated) at e) in
              ap (λ (v : Weights fl). record ev { decision = record d { final_weights = v } }) same
              ∙ made
        ]
      ]

  module _ (laws : FloatLaws fl) where
    -- Whenever `evaluate_risk` returns an approved decision under a policy with valid fields, the
    -- final weights keep every hard limit up to the tolerance: each weight is finite, within the
    -- position cap and, if shorting is denied, not below minus the tolerance; each ticker has a
    -- sector and no such sector is above its limit; the gross, net, leverage and cash limits
    -- hold. No strategy allocation is above its limit, and no violation is recorded.
    pub approved-IsSafe :
        (upper : ℕ → ℕ) (is_ticker : ℕ → Bool) (target : Weights fl) (p : RiskPolicy fl)
        (current : Weights fl) (sector_by_ticker : Dict ℕ) (allocations : Dict F)
        {ev : RiskEvaluation fl}
        → has_valid_fields fl p ≡ true
        → evaluate_risk fl upper is_ticker target p current sector_by_ticker allocations ≡ some ev
        → ev.decision.approved ≡ true
        → IsSafe fl p (upper_sectors upper [] sector_by_ticker) ev.decision.final_weights
          × StrategiesWithin p (sort_items allocations)
          × (ev.decision.violations ≡ [])
    unfolding evaluate_risk
    approved-IsSafe upper is_ticker target p current sector_by_ticker allocations {ev} valid
          returned approved =
        elim (Option-cases (finite_mapping fl current)) [
          | inl bad ↦ absurd (cc (rw (bad, evaluate_risk) at returned))
          | inr (c, good) ↦ elim (Option-cases (finite_mapping fl allocations)) [
            | inl bad ↦ absurd (cc (rw (good, bad, evaluate_risk) at returned))
            | inr (s, fine) ↦
                let sectors = upper_sectors upper [] sector_by_ticker in
                let run : decide fl p target c sectors s ≡ ev =
                  validated-some is_ticker (decide fl p target c sectors s)
                    (rw (good, fine, evaluate_risk) at returned) in
                subst
                  (λ d.
                    IsSafe fl p sectors ev.decision.final_weights
                    × StrategiesWithin p d
                    × (ev.decision.violations ≡ []))
                  (finite_mapping-some allocations fine)
                  (subst
                    (λ (e : RiskEvaluation fl).
                      IsSafe fl p sectors e.decision.final_weights
                      × StrategiesWithin p s
                      × (e.decision.violations ≡ []))
                    run
                    (decide-IsSafe laws p target c sectors s valid (
                      subst (λ (e : RiskEvaluation fl). e.decision.approved ≡ true) (sym run)
                        approved)))
          ]
        ]
