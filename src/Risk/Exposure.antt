-- ===== src/Risk/Exposure.antt =====
-- The clamps only remove absolute exposure: every step of `_apply_safety_clamps`.
use aegis_quant.Common.{
  ℕ, ◌≡◌, refl, inl, inr, List, [], ◌∷◌, All, Dict, get_or, values, ◌==◌, Bool-cases, ◌∙◌,
}
use aegis_quant.Num.{FloatOps}
use aegis_quant.Num.Laws.{FloatLaws, Le, Finite}
use aegis_quant.Risk.Policy.{RiskPolicy, RiskClamp, Weights}
use aegis_quant.Risk.Clamps.{
  sweep, no_shorting, position_limit, cap_position, scale_long, scale_sector, limit_sector,
  limit_sectors, scale_book, sector_exposure,
}

module _ (fl : FloatOps) where
  open fl use {F, zero, one, abs, lt, mul, div, neg, sub}

  -- A weight that took the place of another has no larger absolute value.
  abbrev pub Tamed : F → F → Type 0
  Tamed w v = Finite fl v × Le fl (abs v) (abs w)

  -- The tickers are the same, and every weight is tamed.
  abbrev pub Shrinks : Weights fl → Weights fl → Type 0
  Shrinks [] [] = Unit
  Shrinks [] (_ ∷ _) = ⊥
  Shrinks (_ ∷ _) [] = ⊥
  Shrinks ((t, w) ∷ ws) ((u, v) ∷ vs) = (t ≡ u) × Tamed w v × Shrinks ws vs

  -- Every weight is finite.
  abbrev pub AllFinite : Weights fl → Type 0
  AllFinite ws = All (λ (e : ℕ × F). Finite fl e.1) ws

  pub Shrinks-AllFinite : (ws vs : Weights fl) → Shrinks ws vs → AllFinite vs
  Shrinks-AllFinite [] [] h = tt
  Shrinks-AllFinite [] (_ ∷ _) h = absurd h
  Shrinks-AllFinite (_ ∷ _) [] h = absurd h
  Shrinks-AllFinite ((t, w) ∷ ws) ((u, v) ∷ vs) h = (h.1.0, Shrinks-AllFinite ws vs h.2)

  pub values-AllFinite : (ws : Weights fl) → AllFinite ws → All (Finite fl) (values ws)
  values-AllFinite [] h = tt
  values-AllFinite (e ∷ ws) h = (h.0, values-AllFinite ws h.1)

  module _ (laws : FloatLaws fl) where
    open laws use {
      le_refl, le_trans, le_of_lt, le_of_not_lt, zero_finite, zero-le-one, abs_finite, abs_nonneg,
      abs-le, abs-neg, neg_finite, mul_finite, abs-mul-le, div_nonneg_of_lt, div-le-one, div_nonneg,
      sum-abs_nonneg, abs-sum_nonneg, one_finite, sub_nonneg, sub_finite,
    }

    pub Shrinks-refl : (ws : Weights fl) → AllFinite ws → Shrinks ws ws
    Shrinks-refl [] h = tt
    Shrinks-refl ((t, w) ∷ ws) h =
        (refl, (h.0, le_refl (abs w) (abs_finite w h.0)), Shrinks-refl ws h.1)

    pub Shrinks-trans : (us vs ws : Weights fl) → Shrinks us vs → Shrinks vs ws → Shrinks us ws
    Shrinks-trans [] [] [] h k = tt
    Shrinks-trans [] [] (_ ∷ _) h k = absurd k
    Shrinks-trans [] (_ ∷ _) ws h k = absurd h
    Shrinks-trans (_ ∷ _) [] ws h k = absurd h
    Shrinks-trans (_ ∷ _) (_ ∷ _) [] h k = absurd k
    Shrinks-trans ((t, a) ∷ us) ((u, b) ∷ vs) ((v, c) ∷ ws) h k = (
      h.0 ∙ k.0,
      (k.1.0, le_trans (abs c) (abs b) (abs a) k.1.1 h.1.1),
      Shrinks-trans us vs ws h.2 k.2,
    )

    pub Tamed-refl : (w : F) → Finite fl w → Tamed w w
    Tamed-refl w h = (h, le_refl (abs w) (abs_finite w h))

    -- A number between zero and the absolute value of `w` tames it.
    Tamed-of_le : (w v : F) → Finite fl v → Le fl zero v → Le fl v (abs w) → Tamed w v
    Tamed-of_le w v h p q = (h, le_trans (abs v) v (abs w) (abs-le v p) q)

    pub no_shorting-Tamed : (t : ℕ) (w : F) → Finite fl w → Tamed w (no_shorting fl t w).0
    unfolding no_shorting
    no_shorting-Tamed t w h = elim (Bool-cases (lt w zero)) [
      | inl e ↦ rw e (Tamed-of_le w zero zero_finite (le_refl zero zero_finite) (abs_nonneg w h))
      | inr e ↦ rw e (Tamed-refl w h)
    ]

    position_limit-Tamed :
        (cap w : F)
        → Finite fl cap
        → Le fl zero cap
        → Le fl cap (abs w)
        → Tamed w (position_limit fl cap w)
    unfolding position_limit
    position_limit-Tamed cap w h p q = elim (Bool-cases (lt zero w)) [
      | inl e ↦ rw e (Tamed-of_le w cap h p q)
      | inr e ↦ rw e (neg_finite cap h, rw (abs-neg cap) (Tamed-of_le w cap h p q).1)
    ]

    pub cap_position-Tamed :
        (cap : F) (t : ℕ) (w : F)
        → Finite fl cap
        → Le fl zero cap
        → Finite fl w
        → Tamed w (cap_position fl cap t w).0
    unfolding cap_position
    cap_position-Tamed cap t w h p k = elim (Bool-cases (lt cap (abs w))) [
      | inl e ↦ rw e (position_limit-Tamed cap w h p (le_of_lt cap (abs w) e))
      | inr e ↦ rw e (Tamed-refl w k)
    ]

    pub sweep-Shrinks :
        (f : ℕ → F → F × List (RiskClamp fl))
        → ((t : ℕ) (w : F) → Finite fl w → Tamed w (f t w).0)
        → (ws : Weights fl) → AllFinite ws
        → Shrinks ws (sweep fl f ws).0
    unfolding sweep
    sweep-Shrinks f step [] h = tt
    sweep-Shrinks f step ((t, w) ∷ ws) h = (refl, step t w h.0, sweep-Shrinks f step ws h.1)

    mul-Tamed : (s w : F) → Le fl zero s → Le fl s one → Finite fl w → Tamed w (mul w s)
    mul-Tamed s w p q h = (mul_finite w s h p q, abs-mul-le w s h p q)

    scale_long-Tamed :
        (s w : F) → Le fl zero s → Le fl s one → Finite fl w → Tamed w (scale_long fl s w)
    unfolding scale_long
    scale_long-Tamed s w p q h = elim (Bool-cases (lt zero w)) [
      | inl e ↦ rw e (mul-Tamed s w p q h)
      | inr e ↦ rw e (Tamed-refl w h)
    ]

    module _ (sectors : Dict ℕ) where
      scale_sector-Shrinks :
          (c : ℕ) (s : F) (ws : Weights fl)
          → Le fl zero s
          → Le fl s one
          → AllFinite ws
          → Shrinks ws (scale_sector fl sectors c s ws)
      unfolding scale_sector
      scale_sector-Shrinks c s [] p q h = tt
      scale_sector-Shrinks c s ((t, w) ∷ ws) p q h = elim (Bool-cases (get_or 0 t sectors == c)) [
        | inl e ↦ rw e (refl, scale_long-Tamed s w p q h.0, scale_sector-Shrinks c s ws p q h.1)
        | inr e ↦ rw e (refl, Tamed-refl w h.0, scale_sector-Shrinks c s ws p q h.1)
      ]

      pub limit_sector-Shrinks :
          (p : RiskPolicy fl) (c : ℕ) (ws : Weights fl)
          → Le fl zero p.maximum_sector_pct
          → AllFinite ws
          → Shrinks ws (limit_sector fl p sectors c ws).0
      unfolding limit_sector
      limit_sector-Shrinks p c ws z h =
          let top = p.maximum_sector_pct in
          let exposure = sector_exposure fl sectors c ws in
          elim (Bool-cases (lt top exposure)) [
            | inl e ↦ rw e (
                scale_sector-Shrinks c (div top exposure) ws (div_nonneg_of_lt top exposure z e)
                  (div-le-one top exposure z e) h)
            | inr e ↦ rw e (Shrinks-refl ws h)
          ]

      pub limit_sectors-Shrinks :
          (p : RiskPolicy fl) (cs : List ℕ) (ws : Weights fl)
          → Le fl zero p.maximum_sector_pct
          → AllFinite ws
          → Shrinks ws (limit_sectors fl p sectors cs ws).0
      unfolding limit_sectors
      limit_sectors-Shrinks p [] ws z h = Shrinks-refl ws h
      limit_sectors-Shrinks p (c ∷ cs) ws z h =
          let once = (limit_sector fl p sectors c ws).0 in
          let first = limit_sector-Shrinks p c ws z h in
          Shrinks-trans ws once (limit_sectors fl p sectors cs once).0 first
            (limit_sectors-Shrinks p cs once z (Shrinks-AllFinite ws once first))

    pub scale_book-Shrinks :
        (s : F) (ws : Weights fl)
        → Le fl zero s
        → Le fl s one
        → AllFinite ws
        → Shrinks ws (scale_book fl s ws)
    unfolding scale_book
    scale_book-Shrinks s [] p q h = tt
    scale_book-Shrinks s ((t, w) ∷ ws) p q h =
        (refl, mul-Tamed s w p q h.0, scale_book-Shrinks s ws p q h.1)
