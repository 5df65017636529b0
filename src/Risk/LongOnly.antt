-- ===== src/Risk/LongOnly.antt =====
-- Where the policy denies shorting, no clamp leaves a negative weight.
use aegis_quant.Common.{
  subst, ℕ, ◌≡◌, inl, inr, Bool, true, false, List, [], ◌∷◌, All, Dict, lookup, get_or, is_empty,
  if◌then◌else◌, ◌==◌, Bool-cases, some, arith,
}
use aegis_quant.Common.Sort.{sort_items}
use aegis_quant.Num.{FloatOps}
use aegis_quant.Num.Laws.{FloatLaws, Le, Finite}
use aegis_quant.Risk.Policy.{RiskPolicy, Weights, has_valid_fields}
use aegis_quant.Risk.Clamps.{
  Book, sweep, swept, no_shorting, position_limit, cap_position, scale_long, scale_sector,
  limit_sector, limit_sectors, book_scale, scale_book, limit_book, missing_sectors, sector_names,
  sector_exposure, apply_sector_limits, apply_book_limit, apply_safety_clamps,
}
use aegis_quant.Risk.Exposure.{
  AllFinite, Shrinks-AllFinite, limit_sector-Shrinks, no_shorting-Tamed,
}
use aegis_quant.Risk.Envelope.{
  IsPolicy, has_valid_fields-IsPolicy, book_scale_nonneg, swept-Shrinks, cap-Shrinks,
  apply_sector_limits-Shrinks,
}
use aegis_quant.Risk.Guarantees.{sort_items-AllFinite}

module _ (fl : FloatOps) where
  open fl use {F, zero, one, abs, lt, mul, div, neg}

  -- No weight is negative.
  abbrev pub IsLong : Weights fl → Type 0
  IsLong ws = All (λ (e : ℕ × F). Le fl zero e.1) ws

  lookup-IsLong :
      (ws : Weights fl) (t : ℕ) (w : F) → IsLong ws → lookup t ws ≡ some w → Le fl zero w
  lookup-IsLong [] t w h e = cc
  lookup-IsLong (x ∷ ws) t w h e = ground (arith, lookup-IsLong ws t w h.1)

  module _ (laws : FloatLaws fl) where
    open laws use {
      le_refl, le_trans, le_of_lt, le_of_not_lt, not_le_of_lt, zero_finite, abs-le, mul_nonneg,
      div_nonneg_of_lt, div-le-one,
    }

    no_shorting_nonneg : (t : ℕ) (w : F) → Finite fl w → Le fl zero (no_shorting fl t w).0
    unfolding no_shorting
    no_shorting_nonneg t w h = elim (Bool-cases (lt w zero)) [
      | inl e ↦ rw e (le_refl zero zero_finite)
      | inr e ↦ rw e (le_of_not_lt w zero (le_refl w h) (le_refl zero zero_finite) e)
    ]

    -- A weight that is not positive cannot be above the cap once it is not negative either.
    position_limit_nonneg :
        (top w : F)
        → Le fl zero top
        → Finite fl w
        → Le fl zero w
        → lt top (abs w) ≡ true
        → Le fl zero (position_limit fl top w)
    unfolding position_limit
    position_limit_nonneg top w p h q over = elim (Bool-cases (lt zero w)) [
      | inl e ↦ rw e p
      | inr e ↦
          let below =
            le_trans (abs w) w zero (abs-le w q)
              (le_of_not_lt zero w (le_refl zero zero_finite) (le_refl w h) e) in
          absurd (cc (not_le_of_lt top (abs w) over, le_trans (abs w) zero top below p))
    ]

    cap_position_nonneg :
        (top : F) (t : ℕ) (w : F)
        → Le fl zero top
        → Finite fl w
        → Le fl zero w
        → Le fl zero (cap_position fl top t w).0
    unfolding cap_position
    cap_position_nonneg top t w p h q = elim (Bool-cases (lt top (abs w))) [
      | inl e ↦ rw e (position_limit_nonneg top w p h q e)
      | inr e ↦ rw e q
    ]

    no_shorting-IsLong :
        (ws : Weights fl) → AllFinite fl ws → IsLong (sweep fl (no_shorting fl) ws).0
    unfolding sweep
    no_shorting-IsLong [] h = tt
    no_shorting-IsLong ((t, w) ∷ ws) h = (no_shorting_nonneg t w h.0, no_shorting-IsLong ws h.1)

    cap_position-IsLong :
        (top : F) (ws : Weights fl)
        → Le fl zero top
        → AllFinite fl ws
        → IsLong ws
        → IsLong (sweep fl (cap_position fl top) ws).0
    unfolding sweep
    cap_position-IsLong top [] p h k = tt
    cap_position-IsLong top ((t, w) ∷ ws) p h k =
        (cap_position_nonneg top t w p h.0 k.0, cap_position-IsLong top ws p h.1 k.1)

    scale_long_nonneg :
        (s w : F)
        → Le fl zero s
        → Le fl s one
        → Finite fl w
        → Le fl zero w
        → Le fl zero (scale_long fl s w)
    unfolding scale_long
    scale_long_nonneg s w p q h k = elim (Bool-cases (lt zero w)) [
      | inl e ↦ rw e (mul_nonneg w s h k p q)
      | inr e ↦ rw e k
    ]

    scale_book-IsLong :
        (s : F) (ws : Weights fl)
        → Le fl zero s
        → Le fl s one
        → AllFinite fl ws
        → IsLong ws
        → IsLong (scale_book fl s ws)
    unfolding scale_book
    scale_book-IsLong s [] p q h k = tt
    scale_book-IsLong s ((t, w) ∷ ws) p q h k =
        (mul_nonneg w s h.0 k.0 p q, scale_book-IsLong s ws p q h.1 k.1)

    module _ (sectors : Dict ℕ) where
      scale_sector-IsLong :
          (c : ℕ) (s : F) (ws : Weights fl)
          → Le fl zero s
          → Le fl s one
          → AllFinite fl ws
          → IsLong ws
          → IsLong (scale_sector fl sectors c s ws)
      unfolding scale_sector
      scale_sector-IsLong c s [] p q h k = tt
      scale_sector-IsLong c s ((t, w) ∷ ws) p q h k = elim (Bool-cases (get_or 0 t sectors == c)) [
        | inl e ↦ rw e (scale_long_nonneg s w p q h.0 k.0, scale_sector-IsLong c s ws p q h.1 k.1)
        | inr e ↦ rw e (k.0, scale_sector-IsLong c s ws p q h.1 k.1)
      ]

      module _ (p : RiskPolicy fl) (policy : IsPolicy fl p) where
        limit_sector-IsLong :
            (c : ℕ) (ws : Weights fl)
            → AllFinite fl ws
            → IsLong ws
            → IsLong (limit_sector fl p sectors c ws).0
        unfolding limit_sector
        limit_sector-IsLong c ws h k =
            let top = p.maximum_sector_pct in
            let exposure = sector_exposure fl sectors c ws in
            elim (Bool-cases (lt top exposure)) [
              | inl e ↦ rw e (
                  scale_sector-IsLong c (div top exposure) ws
                    (div_nonneg_of_lt top exposure policy.sector_nonneg e)
                    (div-le-one top exposure policy.sector_nonneg e) h k)
              | inr e ↦ rw e k
            ]

        limit_sectors-IsLong :
            (cs : List ℕ) (ws : Weights fl)
            → AllFinite fl ws
            → IsLong ws
            → IsLong (limit_sectors fl p sectors cs ws).0
        unfolding limit_sectors
        limit_sectors-IsLong [] ws h k = k
        limit_sectors-IsLong (c ∷ cs) ws h k =
            let once = (limit_sector fl p sectors c ws).0 in
            limit_sectors-IsLong cs once
              (Shrinks-AllFinite fl ws once
                (limit_sector-Shrinks fl laws sectors p c ws policy.sector_nonneg h))
              (limit_sector-IsLong c ws h k)

        apply_sector_limits-IsLong :
            (b : Book fl)
            → AllFinite fl b.weights
            → IsLong b.weights
            → IsLong (apply_sector_limits fl p sectors b).weights
        unfolding apply_sector_limits
        apply_sector_limits-IsLong b h k =
            elim (Bool-cases (is_empty (missing_sectors b.weights sectors))) [
              | inl e ↦ rw e (limit_sectors-IsLong (sector_names b.weights sectors) b.weights h k)
              | inr e ↦ rw e k
            ]

        apply_book_limit-IsLong :
            (b : Book fl)
            → AllFinite fl b.weights
            → IsLong b.weights
            → IsLong (apply_book_limit fl p b).weights
        unfolding apply_book_limit limit_book
        apply_book_limit-IsLong b h k = elim (Bool-cases (lt (book_scale fl p b.weights) one)) [
          | inl e ↦ rw e (
              scale_book-IsLong (book_scale fl p b.weights) b.weights
                (book_scale_nonneg fl laws p policy b.weights h)
                (le_of_lt (book_scale fl p b.weights) one e) h k)
          | inr e ↦ rw e k
        ]

    -- Where the policy has valid fields and denies shorting, every weight of the clamped book
    -- is at least zero, for a book of finite weights.
    pub clamps_deny_shorting :
        (p : RiskPolicy fl) (sectors : Dict ℕ) (b : Book fl) (t : ℕ) {v : F}
        → has_valid_fields fl p ≡ true
        → p.allow_shorting ≡ false
        → AllFinite fl b.weights
        → lookup t (apply_safety_clamps fl p sectors b).weights ≡ some v
        → Le fl zero v
    unfolding apply_safety_clamps swept
    clamps_deny_shorting p sectors b t {v} valid denied finite found =
        let policy = has_valid_fields-IsPolicy fl laws p valid in
        let start = record b { weights = sort_items b.weights } in
        let long = swept fl (no_shorting fl) start in
        let capped = swept fl (cap_position fl p.max_position_pct) long in
        let sorted_finite = sort_items-AllFinite fl b.weights finite in
        let long_finite = Shrinks-AllFinite fl start.weights long.weights (
          swept-Shrinks fl laws p policy (no_shorting fl) (no_shorting-Tamed fl laws) start
            sorted_finite) in
        let capped_finite =
          Shrinks-AllFinite fl long.weights capped.weights
            (cap-Shrinks fl laws p policy long long_finite) in
        let sectored = apply_sector_limits fl p sectors capped in
        let capped_long =
          cap_position-IsLong p.max_position_pct long.weights policy.position_nonneg long_finite
            (no_shorting-IsLong start.weights sorted_finite) in
        lookup-IsLong (apply_book_limit fl p sectored).weights t v
          (apply_book_limit-IsLong sectors p policy sectored
            (Shrinks-AllFinite fl capped.weights sectored.weights
              (apply_sector_limits-Shrinks fl laws p policy sectors capped capped_finite))
            (apply_sector_limits-IsLong sectors p policy capped capped_finite capped_long))
          (subst
            (λ (a : Bool).
              lookup t
                (apply_book_limit fl p (
                  apply_sector_limits fl p sectors (
                    swept fl (cap_position fl p.max_position_pct)
                      (if a then start else long)))).weights
              ≡ some v)
            denied found)
