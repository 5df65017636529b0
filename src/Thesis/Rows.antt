-- ===== src/Thesis/Rows.antt =====
-- Lemmas on the queries of `ThesisLedger` (aegis/fundamentals/thesis.py).
use aegis_quant.Common.{
  ℕ, ◌≤◌, ◌<◌, Bool, true, false, none, some, List, [], ◌∷◌, ◌++◌, ◌≡◌, refl, subst, ap, inl, inr,
  Bool-cases, Option-cases, ltb, leb, select, All, if◌then◌else◌, returned, >>=-returned, arith,
}
use aegis_quant.Thesis.Records.{InvestmentThesis, Codec, Row}
use aegis_quant.Thesis.Ledger.{Table, highest, place, order_by_version, read_row, read_rows, last}

module _ {A : Type 0} (P : A → Type 0) where
  pub select-All : (p : A → Bool) (xs : List A) → All P xs → All P (select p xs)
  select-All p [] h = tt
  select-All p (x ∷ xs) h = elim (Bool-cases (p x)) [
    | inl hit ↦ rw hit (h.0, select-All p xs h.1)
    | inr miss ↦ rw miss (select-All p xs h.1)
  ]

module _ {co : Codec} where
  pub highest-none : (rows : Table co) → highest co rows ≡ none → rows ≡ []
  unfolding highest
  highest-none [] h = refl
  highest-none (r ∷ rows) h = elim (Option-cases (highest co rows)) [
    | inl e ↦ absurd (cc (rw e at h))
    | inr (x, e) ↦ elim (Bool-cases (ltb x.version r.version)) [
      | inl above ↦ absurd (cc (rw (e, above) at h))
      | inr below ↦ absurd (cc (rw (e, below) at h))
    ]
  ]

  pub highest-All :
      (P : Row co → Type 0) (rows : Table co) (x : Row co)
      → All P rows
      → highest co rows ≡ some x
      → P x
  unfolding highest
  highest-All P [] x h e = cc
  highest-All P (r ∷ rows) x h e = elim (Option-cases (highest co rows)) [
    | inl none_below ↦ let same : r ≡ x = cc (rw none_below at e) in subst P same h.0
    | inr (y, found) ↦ elim (Bool-cases (ltb y.version r.version)) [
      | inl above ↦ let same : r ≡ x = cc (rw (found, above) at e) in subst P same h.0
      | inr below ↦
          let same : y ≡ x = cc (rw (found, below) at e) in
          subst P same (highest-All P rows y h.1 found)
    ]
  ]

  pub All-le_trans :
      (a b : ℕ) (rows : Table co)
      → a ≤ b
      → All (λ r. r.version ≤ a) rows
      → All (λ r. r.version ≤ b) rows
  All-le_trans a b [] le h = tt
  All-le_trans a b (r ∷ rows) le h = (omega (arith, h.0), All-le_trans a b rows le h.1)

  pub All-lt_of_le :
      (a b : ℕ) (rows : Table co)
      → a < b
      → All (λ r. r.version ≤ a) rows
      → All (λ r. r.version < b) rows
  All-lt_of_le a b [] le h = tt
  All-lt_of_le a b (r ∷ rows) le h = (omega (arith, h.0), All-lt_of_le a b rows le h.1)

  highest-pick :
      (a b : Row co)
      → (x : Row co) → (if ltb a.version b.version then some b else some a) ≡ some x
      → (a.version ≤ x.version) × (b.version ≤ x.version)
  highest-pick a b x e = elim (Bool-cases (ltb a.version b.version)) [
    | inl above ↦
        let same : b ≡ x = cc (rw above at e) in
        subst (λ y. (a.version ≤ y.version) × (b.version ≤ y.version)) same (ground arith)
    | inr below ↦
        let same : a ≡ x = cc (rw below at e) in
        subst (λ y. (a.version ≤ y.version) × (b.version ≤ y.version)) same (ground arith)
  ]

  pub highest-bound :
      (rows : Table co) (x : Row co)
      → highest co rows ≡ some x
      → All (λ r. r.version ≤ x.version) rows
  unfolding highest
  highest-bound [] x e = cc
  highest-bound (r ∷ rows) x e = elim (Option-cases (highest co rows)) [
    | inl none_below ↦
        let same : r ≡ x = cc (rw none_below at e) in
        subst (λ y. All (λ s. s.version ≤ y.version) (r ∷ rows)) same
          (omega arith, rw (highest-none rows none_below) tt)
    | inr (y, found) ↦
        let both = highest-pick y r x (rw found at e) in
        (both.1, All-le_trans y.version x.version rows both.0 (highest-bound rows y found))
  ]

  -- A row above all others is the highest.
  pub highest-above :
      (r : Row co) (rows : Table co)
      → All (λ x. x.version < r.version) rows
      → highest co (r ∷ rows) ≡ some r
  unfolding highest
  highest-above r rows h = elim (Option-cases (highest co rows)) [
    | inl e ↦ rw e refl
    | inr (y, e) ↦
        let below : y.version < r.version = highest-All (λ x. x.version < r.version) rows y h e in
        rw e (let test : ltb y.version r.version ≡ true = ground arith in rw test refl)
  ]

  -- A row above all others is placed last.
  pub place-above :
      (r : Row co) (rows : Table co)
      → All (λ x. x.version < r.version) rows
      → place co r rows ≡ rows ++ (r ∷ [])
  unfolding place
  place-above r [] h = refl
  place-above r (x ∷ rows) h =
      let test : leb r.version x.version ≡ false = ground (arith, h.0) in
      rw test (ap (λ t. x ∷ t) (place-above r rows h.1))

  place-All :
      (P : Row co → Type 0) (r : Row co) (rows : Table co)
      → P r
      → All P rows
      → All P (place co r rows)
  unfolding place
  place-All P r [] p h = (p, tt)
  place-All P r (x ∷ rows) p h = elim (Bool-cases (leb r.version x.version)) [
    | inl hit ↦ rw hit (p, (h.0, h.1))
    | inr miss ↦ rw miss (h.0, place-All P r rows p h.1)
  ]

  pub order_by_version-All :
      (P : Row co → Type 0) (rows : Table co) → All P rows → All P (order_by_version co rows)
  unfolding order_by_version
  order_by_version-All P [] h = tt
  order_by_version-All P (r ∷ rows) h =
      place-All P r (order_by_version co rows) h.0 (order_by_version-All P rows h.1)

  pub read_rows-snoc :
      (rows : Table co) (r : Row co) (ts : List InvestmentThesis) (t : InvestmentThesis)
      → read_rows co rows ≡ returned ts
      → read_row co r ≡ returned t
      → read_rows co (rows ++ (r ∷ [])) ≡ returned (ts ++ (t ∷ []))
  unfolding read_rows
  read_rows-snoc [] r ts t es e = let same : [] ≡ ts = cc in rw e cc
  read_rows-snoc (x ∷ rows) r ts t es e =
      let (u, head, es') = >>=-returned (read_row co x) _ es in
      let (us, tail, es'') = >>=-returned (read_rows co rows) _ es' in
      let same : (u ∷ us) ≡ ts = cc in rw (head, read_rows-snoc rows r us t tail e) cc

pub last-snoc : (ts : List InvestmentThesis) (t : InvestmentThesis) → last (ts ++ (t ∷ [])) ≡ some t
unfolding last
last-snoc [] t = refl
last-snoc (a ∷ []) t = refl
last-snoc (a ∷ b ∷ ts) t = last-snoc (b ∷ ts) t
