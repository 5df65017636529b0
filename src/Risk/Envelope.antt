-- ===== src/Risk/Envelope.antt =====
-- What a run of every clamp leaves: a book no larger than the one that it was given, each of its
-- weights within the position cap, and none of them short where shorting is denied.
use aegis_quant.Common.{
  ℕ, ◌≡◌, inl, inr, true, List, Dict, values, is_empty, if◌then◌else◌, Bool-cases, arith,
}
use aegis_quant.Common.Sort.{sort_items}
use aegis_quant.Num.{FloatOps, min}
use aegis_quant.Num.Laws.{FloatLaws, Le, Finite}
use aegis_quant.Risk.Policy.{
  RiskPolicy, RiskClamp, Weights, has_valid_fields, is_fraction, is_positive,
}
use aegis_quant.Risk.Clamps.{
  Book, swept, no_shorting, cap_position, book_scale, limit_book, apply_sector_limits,
  apply_book_limit, apply_safety_clamps, missing_sectors, sector_names, ratio, gross_exposure,
  net_exposure,
}
use aegis_quant.Risk.Exposure.{
  Tamed, Shrinks, AllFinite, Shrinks-AllFinite, values-AllFinite, Shrinks-refl, Shrinks-trans,
  sweep-Shrinks, no_shorting-Tamed, cap_position-Tamed, scale_book-Shrinks, limit_sectors-Shrinks,
}

module _ (fl : FloatOps) where
  open fl use {F, zero, one, abs, lt, mul, div, neg, sub, eq}

  -- The limits that the clamps divide by and cap with.
  pub record IsPolicy (p : RiskPolicy fl) : Type 0 where
    pub position_finite : Finite fl p.max_position_pct
    pub position_nonneg : Le fl zero p.max_position_pct
    pub sector_nonneg : Le fl zero p.maximum_sector_pct
    pub gross_finite : Finite fl p.max_gross_exposure
    pub gross_nonneg : Le fl zero p.max_gross_exposure
    pub net_finite : Finite fl p.max_net_exposure
    pub net_nonneg : Le fl zero p.max_net_exposure
    pub cash_finite : Finite fl p.minimum_cash_pct
    pub cash_nonneg : Le fl zero p.minimum_cash_pct
    pub cash-le-one : Le fl p.minimum_cash_pct one

  module _ (laws : FloatLaws fl) where
    open laws use {
      le_trans, le_of_lt, zero-le-one, div_nonneg, sum-abs_nonneg, abs-sum_nonneg, one_finite,
      sub_nonneg, sub_finite, le_of_not_lt,
    }

    -- The contract of `RiskPolicy` gives what the clamps need.
    pub has_valid_fields-IsPolicy : (p : RiskPolicy fl) → has_valid_fields fl p ≡ true → IsPolicy p
    unfolding has_valid_fields is_fraction is_positive
    has_valid_fields-IsPolicy p h = ground (arith, le_of_lt zero p.max_gross_exposure)

    ratio_nonneg :
        (cap x : F) → Finite fl cap → Le fl zero cap → Le fl zero x → Le fl zero (ratio fl cap x)
    unfolding ratio
    ratio_nonneg cap x h p q = elim (Bool-cases (eq x zero)) [
      | inl e ↦ rw e zero-le-one
      | inr e ↦ rw e (div_nonneg cap x h p q e)
    ]

    min_nonneg : (a b : F) → Le fl zero a → Le fl zero b → Le fl zero (min fl a b)
    min_nonneg a b p q = ground arith

    module _ (p : RiskPolicy fl) (policy : IsPolicy p) where
      open policy use {
        gross_finite, gross_nonneg, net_finite, net_nonneg, cash_finite, cash_nonneg, cash-le-one,
        sector_nonneg, position_finite, position_nonneg,
      }

      cash_room_nonneg : Le fl zero (sub one p.minimum_cash_pct)
      cash_room_nonneg = sub_nonneg p.minimum_cash_pct one cash_finite one_finite cash-le-one

      cash_room-Finite : Finite fl (sub one p.minimum_cash_pct)
      cash_room-Finite =
          sub_finite p.minimum_cash_pct one cash_finite one_finite cash_nonneg cash-le-one

      pub book_scale_nonneg : (ws : Weights fl) → AllFinite fl ws → Le fl zero (book_scale fl p ws)
      unfolding book_scale gross_exposure net_exposure
      book_scale_nonneg ws h =
          let finite = values-AllFinite fl ws h in
          let cap = min fl p.max_gross_exposure (sub one p.minimum_cash_pct) in
          let cap_finite : Finite fl cap = ground (arith, cash_room-Finite) in
          min_nonneg _ _
            (min_nonneg one _ zero-le-one (
              ratio_nonneg cap _ cap_finite
                (min_nonneg p.max_gross_exposure _ gross_nonneg cash_room_nonneg)
                (sum-abs_nonneg (values ws) finite)))
            (ratio_nonneg p.max_net_exposure _ net_finite net_nonneg
              (abs-sum_nonneg (values ws) finite))

      limit_book-Shrinks :
          (ws : Weights fl) → AllFinite fl ws → Shrinks fl ws (limit_book fl p ws).0
      unfolding limit_book
      limit_book-Shrinks ws h = elim (Bool-cases (lt (book_scale fl p ws) one)) [
        | inl e ↦ rw e (
            scale_book-Shrinks fl laws (book_scale fl p ws) ws (book_scale_nonneg ws h)
              (le_of_lt (book_scale fl p ws) one e) h)
        | inr e ↦ rw e (Shrinks-refl fl laws ws h)
      ]

      apply_book_limit-Shrinks :
          (b : Book fl)
          → AllFinite fl b.weights
          → Shrinks fl b.weights (apply_book_limit fl p b).weights
      unfolding apply_book_limit
      apply_book_limit-Shrinks b h = limit_book-Shrinks b.weights h

      pub apply_sector_limits-Shrinks :
          (sectors : Dict ℕ) (b : Book fl)
          → AllFinite fl b.weights
          → Shrinks fl b.weights (apply_sector_limits fl p sectors b).weights
      unfolding apply_sector_limits
      apply_sector_limits-Shrinks sectors b h =
          elim (Bool-cases (is_empty (missing_sectors b.weights sectors))) [
            | inl e ↦ rw e (
                limit_sectors-Shrinks fl laws sectors p (sector_names b.weights sectors) b.weights
                  sector_nonneg h)
            | inr e ↦ rw e (Shrinks-refl fl laws b.weights h)
          ]

      pub swept-Shrinks :
          (f : ℕ → F → F × List (RiskClamp fl))
          → ((t : ℕ) (w : F) → Finite fl w → Tamed fl w (f t w).0)
          → (b : Book fl) → AllFinite fl b.weights
          → Shrinks fl b.weights (swept fl f b).weights
      unfolding swept
      swept-Shrinks f step b h = sweep-Shrinks fl laws f step b.weights h

      pub cap-Shrinks :
          (b : Book fl)
          → AllFinite fl b.weights
          → Shrinks fl b.weights (swept fl (cap_position fl p.max_position_pct) b).weights
      cap-Shrinks b h =
          swept-Shrinks (cap_position fl p.max_position_pct)
            (λ t w k.
              cap_position-Tamed fl laws p.max_position_pct t w position_finite position_nonneg k)
            b h

      pub long_stage-Shrinks :
          (b : Book fl)
          → AllFinite fl b.weights
          → Shrinks fl b.weights
              (if p.allow_shorting then b else swept fl (no_shorting fl) b).weights
      long_stage-Shrinks b h = elim (Bool-cases p.allow_shorting) [
        | inl e ↦ rw e (Shrinks-refl fl laws b.weights h)
        | inr e ↦ rw e (swept-Shrinks (no_shorting fl) (no_shorting-Tamed fl laws) b h)
      ]

      -- The sector and book limits, which follow the two sweeps.
      pub limits-Shrinks :
          (sectors : Dict ℕ) (b : Book fl)
          → AllFinite fl b.weights
          → Shrinks fl b.weights
              (apply_book_limit fl p (apply_sector_limits fl p sectors b)).weights
      limits-Shrinks sectors b h =
          let first = apply_sector_limits-Shrinks sectors b h in
          Shrinks-trans fl laws b.weights (apply_sector_limits fl p sectors b).weights _ first (
            apply_book_limit-Shrinks (apply_sector_limits fl p sectors b)
              (Shrinks-AllFinite fl b.weights _ first))

      pub apply_safety_clamps-Shrinks :
          (sectors : Dict ℕ) (b : Book fl)
          → AllFinite fl (sort_items b.weights)
          → Shrinks fl (sort_items b.weights) (apply_safety_clamps fl p sectors b).weights
      unfolding apply_safety_clamps
      apply_safety_clamps-Shrinks sectors b h =
          let start = record b { weights = sort_items b.weights } in
          let long = if p.allow_shorting then start else swept fl (no_shorting fl) start in
          let capped = swept fl (cap_position fl p.max_position_pct) long in
          let first = long_stage-Shrinks start h in
          let second = cap-Shrinks long (Shrinks-AllFinite fl start.weights long.weights first) in
          let both = Shrinks-trans fl laws start.weights long.weights capped.weights first second in
          Shrinks-trans fl laws start.weights capped.weights _ both
            (limits-Shrinks sectors capped (Shrinks-AllFinite fl start.weights capped.weights both))
