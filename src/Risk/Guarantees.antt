-- ===== src/Risk/Guarantees.antt =====
-- `_apply_safety_clamps` ticker by ticker: no weight grows, none leaves the position limit.
use aegis_quant.Common.{
  ℕ, ◌≡◌, subst, inl, inr, true, some, [], ◌∷◌, All, Dict, lookup, IsDict, if◌then◌else◌, ◌==◌,
  Bool-cases, arith,
}
use aegis_quant.Common.Sort.{sort_items, insert_item, lookup-sort_items}
use aegis_quant.Num.{FloatOps}
use aegis_quant.Num.Laws.{FloatLaws, Le, Finite}
use aegis_quant.Risk.Policy.{RiskPolicy, Weights, has_valid_fields}
use aegis_quant.Risk.Clamps.{
  Book, sweep, swept, no_shorting, position_limit, cap_position, apply_safety_clamps,
}
use aegis_quant.Risk.Exposure.{Tamed, Shrinks, AllFinite, Shrinks-AllFinite}
use aegis_quant.Risk.Envelope.{
  IsPolicy, has_valid_fields-IsPolicy, cap-Shrinks, long_stage-Shrinks, limits-Shrinks,
  apply_safety_clamps-Shrinks,
}

module _ (fl : FloatOps) where
  open fl use {F, abs, lt, neg, zero}

  -- Every weight is within the limit.
  abbrev pub WithinCap : F → Weights fl → Type 0
  WithinCap limit ws = All (λ (e : ℕ × F). Le fl (abs e.1) limit) ws

  insert_item-AllFinite :
      (t : ℕ) (w : F) (ws : Weights fl)
      → Finite fl w
      → AllFinite fl ws
      → AllFinite fl (insert_item t w ws)
  insert_item-AllFinite t w [] h k = (h, tt)
  insert_item-AllFinite t w (e ∷ ws) h k = ground (arith, insert_item-AllFinite t w ws h)

  pub sort_items-AllFinite : (ws : Weights fl) → AllFinite fl ws → AllFinite fl (sort_items ws)
  sort_items-AllFinite [] h = tt
  sort_items-AllFinite (e ∷ ws) h =
      insert_item-AllFinite e.0 e.1 (sort_items ws) h.0 (sort_items-AllFinite ws h.1)

  lookup-Shrinks :
      (ws vs : Weights fl) (t : ℕ) {v : F}
      → Shrinks fl ws vs
      → lookup t vs ≡ some v
      → (w : F) × (lookup t ws ≡ some w) × Tamed fl w v
  lookup-Shrinks [] [] t h e = absurd (cc)
  lookup-Shrinks [] (_ ∷ _) t h e = absurd h
  lookup-Shrinks (_ ∷ _) [] t h e = absurd h
  lookup-Shrinks ((u, w) ∷ ws) ((u', v') ∷ vs) t {v} h e = elim (Bool-cases (t == u)) [
    | inl hit ↦ (w, rw hit, ground arith)
    | inr miss ↦
        let (w', found, tamed) = lookup-Shrinks ws vs t {v = v} h.2 (ground arith) in
        (w', ground arith, tamed)
  ]

  lookup-WithinCap :
      (limit : F) (ws : Weights fl) (t : ℕ) (w : F)
      → WithinCap limit ws
      → lookup t ws ≡ some w
      → Le fl (abs w) limit
  lookup-WithinCap limit [] t w h e = cc
  lookup-WithinCap limit (x ∷ ws) t w h e = ground (arith, lookup-WithinCap limit ws t w h.1)

  module _ (laws : FloatLaws fl) where
    open laws use {le_refl, le_trans, le_of_not_lt, abs_finite, abs-le, abs-neg}

    Shrinks-WithinCap :
        (limit : F) (ws vs : Weights fl)
        → Shrinks fl ws vs
        → WithinCap limit ws
        → WithinCap limit vs
    Shrinks-WithinCap limit [] [] h k = tt
    Shrinks-WithinCap limit [] (_ ∷ _) h k = absurd h
    Shrinks-WithinCap limit (_ ∷ _) [] h k = absurd h
    Shrinks-WithinCap limit ((t, w) ∷ ws) ((u, v) ∷ vs) h k =
        (le_trans (abs v) (abs w) limit h.1.1 k.0, Shrinks-WithinCap limit ws vs h.2 k.1)

    position_limit-le :
        (limit w : F) → Le fl zero limit → Le fl (abs (position_limit fl limit w)) limit
    unfolding position_limit
    position_limit-le limit w p = elim (Bool-cases (lt zero w)) [
      | inl e ↦ rw e (abs-le limit p)
      | inr e ↦ rw e (rw (abs-neg limit) (abs-le limit p))
    ]

    cap_position-le :
        (limit : F) (t : ℕ) (w : F)
        → Finite fl limit
        → Le fl zero limit
        → Finite fl w
        → Le fl (abs (cap_position fl limit t w).0) limit
    unfolding cap_position
    cap_position-le limit t w h p k = elim (Bool-cases (lt limit (abs w))) [
      | inl e ↦ rw e (position_limit-le limit w p)
      | inr e ↦
          rw e (le_of_not_lt limit (abs w) (le_refl limit h) (le_refl (abs w) (abs_finite w k)) e)
    ]

    sweep-WithinCap :
        (limit : F) (ws : Weights fl)
        → Finite fl limit
        → Le fl zero limit
        → AllFinite fl ws
        → WithinCap limit (sweep fl (cap_position fl limit) ws).0
    unfolding sweep
    sweep-WithinCap limit [] h p k = tt
    sweep-WithinCap limit ((t, w) ∷ ws) h p k =
        (cap_position-le limit t w h p k.0, sweep-WithinCap limit ws h p k.1)

    swept-WithinCap :
        (limit : F) (b : Book fl)
        → Finite fl limit
        → Le fl zero limit
        → AllFinite fl b.weights
        → WithinCap limit (swept fl (cap_position fl limit) b).weights
    unfolding swept
    swept-WithinCap limit b h p k = sweep-WithinCap limit b.weights h p k

    module _ (p : RiskPolicy fl) (sectors : Dict ℕ) (b : Book fl)
        (valid : has_valid_fields fl p ≡ true) (finite : AllFinite fl b.weights) where
      policy : IsPolicy fl p
      policy = has_valid_fields-IsPolicy fl laws p valid

      sorted_finite : AllFinite fl (sort_items b.weights)
      sorted_finite = sort_items-AllFinite b.weights finite

      apply_safety_clamps-WithinCap :
          WithinCap p.max_position_pct (apply_safety_clamps fl p sectors b).weights
      unfolding apply_safety_clamps
      apply_safety_clamps-WithinCap =
          let start = record b { weights = sort_items b.weights } in
          let long = if p.allow_shorting then start else swept fl (no_shorting fl) start in
          let capped = swept fl (cap_position fl p.max_position_pct) long in
          let long_finite =
            Shrinks-AllFinite fl start.weights long.weights
              (long_stage-Shrinks fl laws p policy start sorted_finite) in
          Shrinks-WithinCap p.max_position_pct capped.weights _
            (limits-Shrinks fl laws p policy sectors capped (
              Shrinks-AllFinite fl long.weights capped.weights
                (cap-Shrinks fl laws p policy long long_finite)))
            (swept-WithinCap p.max_position_pct long policy.position_finite policy.position_nonneg
              long_finite)

      -- For a policy with valid fields and a book whose weights are finite, every ticker of the
      -- clamped book was in the book, its weight is finite, and the absolute value of the weight
      -- is at most what it was and at most the position limit.
      pub clamps_remove_exposure :
          (t : ℕ) {v : F}
          → IsDict b.weights
          → lookup t (apply_safety_clamps fl p sectors b).weights ≡ some v
          → (w : F) × (lookup t b.weights ≡ some w)
            × Finite fl v
            × Le fl (abs v) (abs w)
            × Le fl (abs v) p.max_position_pct
      clamps_remove_exposure t {v} dict found =
          let clamped = (apply_safety_clamps fl p sectors b).weights in
          let (w, old, tamed) =
            lookup-Shrinks (sort_items b.weights) clamped t {v = v}
              (apply_safety_clamps-Shrinks fl laws p policy sectors b sorted_finite) found in
          (
            w,
            subst (λ o. o ≡ some w) (lookup-sort_items t b.weights dict) old,
            tamed.0,
            tamed.1,
            lookup-WithinCap p.max_position_pct clamped t v apply_safety_clamps-WithinCap found,
          )
