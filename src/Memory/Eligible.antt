-- ===== src/Memory/Eligible.antt =====
-- Which items `search` of `LocalMemoryBackend` (aegis/memory/local_backend.py) admits.
use aegis_quant.Common.{
  ℕ, ◌≤◌, ◌<◌, true, ◌||◌, &&-true, some, List, [], ◌∷◌, contains, is_empty, ltb, leb, ◌==◌, ==_iff,
  ==_refl, ◌≡◌, ◌↔◌, refl, subst, ◌⊎◌, inl, inr, Bool-cases, Option-cases, arith,
}
use aegis_quant.Num.{FloatOps}
use aegis_quant.Memory.Relations.{approved, status_iff}
use aegis_quant.Memory.Records.{MemoryItem, MemoryQuery}
use aegis_quant.Memory.Retrieval.{overlaps, passes, is_current, is_eligible}

-- A filter is empty, or one of its IDs is among an item's.
abbrev pub Passes : List ℕ → List ℕ → Type 0
Passes wanted own = (wanted ≡ []) ⊎ ((i : ℕ) × (contains i wanted ≡ true) × (contains i own ≡ true))

overlaps_iff :
    (xs ys : List ℕ)
    → (overlaps xs ys ≡ true) ↔ ((i : ℕ) × (contains i xs ≡ true) × (contains i ys ≡ true))
overlaps_iff [] ys = (λ e. absurd (cc (e)), λ (i, here, _). cc (here))
overlaps_iff (x ∷ xs) ys =
    let (into, out) = overlaps_iff xs ys in
    elim (Bool-cases (contains x ys)) [
      | inl hit ↦ rw hit (λ _. (x, rw (==_refl x) refl, hit), λ _. refl)
      | inr miss ↦ rw miss (
        λ e.
            let (i, here, there) = into e in
            (
              i,
              elim (Bool-cases (i == x)) [ inl same ↦ rw same refl | inr other ↦ rw other here ],
              there,
            ),
        λ (i, here, there). elim (Bool-cases (i == x)) [
          | inl same ↦
              let named : i ≡ x = (==_iff i x).0 same in
              absurd (cc (subst (λ j. contains j ys ≡ true) named there, miss))
          | inr other ↦ out (i, rw other at here, there)
        ],
      )
    ]

passes_iff : (wanted own : List ℕ) → (passes wanted own ≡ true) ↔ Passes wanted own
passes_iff [] own = (λ _. inl refl, λ _. refl)
passes_iff (w ∷ ws) own =
    let (into, out) = overlaps_iff (w ∷ ws) own in
    (λ e. inr (into e), λ h. elim h [ inl nothing ↦ absurd (cc (nothing)) | inr both ↦ out both ])

types_iff :
    (i : ℕ) (wanted : List ℕ)
    → ((is_empty wanted || contains i wanted) ≡ true) ↔ ((wanted ≡ []) ⊎ (contains i wanted ≡ true))
types_iff i [] = (λ _. inl refl, λ _. refl)
types_iff i (w ∷ ws) =
    (λ e. inr e, λ h. elim h [ inl nothing ↦ absurd (cc (nothing)) | inr hit ↦ hit ])

module _ {fl : FloatOps} where
  -- An item is approved, available at the query's time and not expired by then, and of the memory
  -- types, entities, strategies and regimes that the query asks for.
  abbrev pub IsAdmitted : MemoryQuery → MemoryItem fl → Type 0
  IsAdmitted q m =
      (m.status ≡ approved)
      × (m.available_at ≤ q.as_of)
      × ((t : ℕ) → m.expires_at ≡ some t → q.as_of < t)
      × ((q.memory_types ≡ []) ⊎ (contains m.memory_type q.memory_types ≡ true))
      × Passes q.entity_ids m.entity_ids
      × Passes q.strategy_ids m.strategy_ids
      × Passes q.regime_ids m.regime_ids

  current_iff :
      (as_of : ℕ) (m : MemoryItem fl)
      → (is_current as_of m ≡ true) ↔ (
          (m.status ≡ approved)
          × (m.available_at ≤ as_of)
          × ((t : ℕ) → m.expires_at ≡ some t → as_of < t))
  unfolding is_current
  current_iff as_of m =
      let (into, out) = status_iff m.status in
      elim (Option-cases m.expires_at) [
        | inl nothing ↦ (
          λ e.
              let (first, _) = &&-true _ _ (rw nothing at e) in
              let (a, b) = &&-true _ _ first in
              (into a, ground (arith, b), λ t h. absurd (cc (nothing, h))),
          λ (a, b, _).
              let b' : leb m.available_at as_of ≡ true = ground (arith, b) in
              rw (nothing, out a, b') refl,
        )
        | inr (limit, there) ↦ (
          λ e.
              let (first, c) = &&-true _ _ (rw there at e) in
              let (a, b) = &&-true _ _ first in
              (
                into a,
                ground (arith, b),
                λ t h.
                    let same : limit ≡ t = cc (there, h) in
                    let below : as_of < limit = ground (arith, c) in
                    subst (λ k. as_of < k) same below,
              ),
          λ (a, b, c).
              let b' : leb m.available_at as_of ≡ true = ground (arith, b) in
              let c' : ltb as_of limit ≡ true = ground (arith, c limit there) in
              rw (there, out a, b', c') refl,
        )
      ]

  pub eligible_iff :
      (q : MemoryQuery) (m : MemoryItem fl) → (is_eligible q m ≡ true) ↔ IsAdmitted q m
  unfolding is_eligible
  eligible_iff q m =
      let (now, now') = current_iff q.as_of m in
      let (type, type') = types_iff m.memory_type q.memory_types in
      let (entity, entity') = passes_iff q.entity_ids m.entity_ids in
      let (strategy, strategy') = passes_iff q.strategy_ids m.strategy_ids in
      let (regime, regime') = passes_iff q.regime_ids m.regime_ids in
      (
        λ e.
            let (abcd, r) = &&-true _ _ e in
            let (abc, s) = &&-true _ _ abcd in
            let (ab, n) = &&-true _ _ abc in
            let (a, b) = &&-true _ _ ab in
            let (status, available, expiry) = now a in
            (status, available, expiry, type b, entity n, strategy s, regime r),
        λ (status, available, expiry, b, n, s, r).
            rw (now' (status, available, expiry), type' b, entity' n, strategy' s, regime' r) refl,
      )
