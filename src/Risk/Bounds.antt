-- ===== src/Risk/Bounds.antt =====
-- What the tests of `_record_safety_violations` say where they record nothing.
use aegis_quant.Common.{
  ℕ, ◌≡◌, refl, inl, inr, Bool, true, false, not, List, [], ◌∷◌, map, any, all, contains, All, Dict,
  get_or, keys, values, ◌==◌, ==_refl, Bool-cases, arith,
}
use aegis_quant.Num.{FloatOps, max}
use aegis_quant.Num.Laws.{FloatLaws, Le, Finite, IsNumber}
use aegis_quant.Risk.Policy.{Violation, Weights}
use aegis_quant.Risk.Clamps.{append_violation, members}
use aegis_quant.Risk.Checks.{record_if}

pub append_violation-nonempty :
    (vs : List Violation) (v : Violation) → append_violation vs v ≡ [] → ⊥
unfolding append_violation
append_violation-nonempty [] v h = cc
append_violation-nonempty (x ∷ vs) v h = ground arith

-- Nothing was recorded: the test failed, and nothing was there before.
pub record_if-nil :
    (test : Bool) (v : Violation) (vs : List Violation)
    → record_if test v vs ≡ []
    → (test ≡ false) × (vs ≡ [])
unfolding record_if
record_if-nil true v vs h = absurd (append_violation-nonempty vs v h)
record_if-nil false v vs h = (refl, h)

-- A test that fails on every value of a dict.
pub values-false :
    {V : Type 0} (p : V → Bool) (d : Dict V)
    → any p (values d) ≡ false
    → All (λ (e : ℕ × V). p e.1 ≡ false) d
values-false p [] h = tt
values-false p (e ∷ d) h = (ground arith, values-false p d (ground arith))

-- A property of every sector, or of every ticker, holds of the entries of the book.
pub keys-All :
    {V : Type 0} (P : ℕ → Type 0) (d : Dict V) (all : List ℕ)
    → ((k : ℕ) → contains k all ≡ true → P k)
    → ((k : ℕ) → contains k (keys d) ≡ true → contains k all ≡ true)
    → All (λ (e : ℕ × V). P e.0) d
keys-All P [] all h sub = tt
keys-All P (e ∷ d) all h sub = (
  h e.0 (sub e.0 (ground (arith, ==_refl e.0))),
  keys-All P d all h (λ k m. sub k (ground arith)),
)

pub sectors-All :
    {V : Type 0} (P : ℕ → Type 0) (f : ℕ → ℕ) (d : Dict V) (all : List ℕ)
    → ((s : ℕ) → contains s all ≡ true → P s)
    → ((s : ℕ) → contains s (map f (keys d)) ≡ true → contains s all ≡ true)
    → All (λ (e : ℕ × V). P (f e.0)) d
sectors-All P f [] all h sub = tt
sectors-All P f (e ∷ d) all h sub = (
  h (f e.0) (sub (f e.0) (ground (arith, ==_refl (f e.0)))),
  sectors-All P f d all h (λ k m. sub k (ground arith)),
)

module _ (fl : FloatOps) where
  open fl use {F, zero, one, tolerance, abs, lt, add, sub, neg, sum, is_finite}

  module _ (laws : FloatLaws fl) where
    open laws use {
      le_refl, le_of_not_lt, number_of_ge, tolerance_finite, one_finite, add_number, sub_number,
      sum_number, abs_finite, neg_finite, zero_finite, sum-abs_nonneg, abs-sum_nonneg,
    }

    pub add_tolerance-IsNumber : (x : F) → Finite fl x → IsNumber fl (add x tolerance)
    add_tolerance-IsNumber x h = add_number x tolerance h (le_refl tolerance tolerance_finite)

    -- Every value of a dict that no test puts above a bound is at most the bound.
    pub below-All :
        (f : F → F) (bound : F) (d : Weights fl)
        → ((x : F) → Finite fl x → IsNumber fl (f x))
        → IsNumber fl bound
        → All (λ (e : ℕ × F). Finite fl e.1) d
        → All (λ (e : ℕ × F). lt bound (f e.1) ≡ false) d
        → All (λ (e : ℕ × F). Le fl (f e.1) bound) d
    below-All f bound [] num b h k = tt
    below-All f bound (e ∷ d) num b h k =
        (le_of_not_lt bound (f e.1) b (num e.1 h.0) k.0, below-All f bound d num b h.1 k.1)

    pub above-All :
        (bound : F) (d : Weights fl)
        → IsNumber fl bound
        → All (λ (e : ℕ × F). Finite fl e.1) d
        → All (λ (e : ℕ × F). lt e.1 bound ≡ false) d
        → All (λ (e : ℕ × F). Le fl bound e.1) d
    above-All bound [] b h k = tt
    above-All bound (e ∷ d) b h k =
        (le_of_not_lt e.1 bound (le_refl e.1 h.0) b k.0, above-All bound d b h.1 k.1)

    pub members-Finite :
        (sectors : Dict ℕ) (s : ℕ) (ws : Weights fl)
        → All (λ (e : ℕ × F). Finite fl e.1) ws
        → All (Finite fl) (map (λ (e : ℕ × F). max fl e.1 zero) (members fl sectors s ws))
    unfolding members
    members-Finite sectors s [] h = tt
    members-Finite sectors s (e ∷ ws) h = elim (Bool-cases (get_or 0 e.0 sectors == s)) [
      | inl hit ↦ rw hit ((ground (arith, zero_finite)), members-Finite sectors s ws h.1)
      | inr miss ↦ rw miss (members-Finite sectors s ws h.1)
    ]

    pub values-Finite :
        (ws : Weights fl)
        → any (λ w. not (is_finite w)) (values ws) ≡ false
        → All (λ (e : ℕ × F). Finite fl e.1) ws
    values-Finite [] h = tt
    values-Finite (e ∷ ws) h = (ground arith, values-Finite ws (ground arith))

    pub values-All :
        (ws : Weights fl) → All (λ (e : ℕ × F). Finite fl e.1) ws → All (Finite fl) (values ws)
    values-All [] h = tt
    values-All (e ∷ ws) h = (h.0, values-All ws h.1)
