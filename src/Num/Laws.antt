-- ===== src/Num/Laws.antt =====
-- What the components use of IEEE-754 arithmetic and of Python's `sum`. Each law holds of doubles
-- as they are, rounding and overflow included: an order of a NaN is false, and the laws that
-- a NaN or an infinity would break ask for finite operands.
use aegis_quant.Common.{◌≡◌, true, false, All, List, map}
use aegis_quant.Num.Ops.{FloatOps}

module _ (fl : FloatOps) where
  open fl use {F, le, lt, is_finite}

  abbrev pub Le : F → F → Type 0
  Le x y = le x y ≡ true

  abbrev pub Lt : F → F → Type 0
  Lt x y = lt x y ≡ true

  -- It is not a NaN: only a NaN is not at most itself.
  abbrev pub IsNumber : F → Type 0
  IsNumber x = Le x x

  abbrev pub Finite : F → Type 0
  Finite x = is_finite x ≡ true

pub record FloatLaws (fl : FloatOps) : Type 0 where
  pub le_refl : (x : fl.F) → Finite fl x → Le fl x x
  pub le_trans : (x y z : fl.F) → Le fl x y → Le fl y z → Le fl x z
  pub le_of_lt : (x y : fl.F) → Lt fl x y → Le fl x y
  pub le_of_not_lt : (x y : fl.F) → IsNumber fl x → IsNumber fl y → fl.lt x y ≡ false → Le fl y x
  pub number_of_ge : (x y : fl.F) → Le fl x y → IsNumber fl y
  pub not_lt_of_eq : (x y : fl.F) → fl.eq x y ≡ true → fl.lt x y ≡ false
  pub eq_sym : (x y : fl.F) → fl.eq x y ≡ true → fl.eq y x ≡ true
  pub number_of_le : (x y : fl.F) → Le fl x y → IsNumber fl x
  pub not_le_of_lt : (x y : fl.F) → Lt fl x y → fl.le y x ≡ false
  pub zero_finite : Finite fl fl.zero
  pub zero-le-one : Le fl fl.zero fl.one
  pub one_finite : Finite fl fl.one
  pub tolerance_finite : Finite fl fl.tolerance
  pub add_number : (x y : fl.F) → Finite fl x → IsNumber fl y → IsNumber fl (fl.add x y)
  pub add_number_right : (x y : fl.F) → IsNumber fl x → Finite fl y → IsNumber fl (fl.add x y)
  pub sub_number : (x y : fl.F) → Finite fl x → IsNumber fl y → IsNumber fl (fl.sub x y)
  pub sum_number : (xs : List fl.F) → All (Finite fl) xs → IsNumber fl (fl.sum xs)
  pub abs_finite : (x : fl.F) → Finite fl x → Finite fl (fl.abs x)
  pub abs_nonneg : (x : fl.F) → Finite fl x → Le fl fl.zero (fl.abs x)
  pub abs-le : (x : fl.F) → Le fl fl.zero x → Le fl (fl.abs x) x
  pub abs-neg : (x : fl.F) → fl.abs (fl.neg x) ≡ fl.abs x
  pub neg_finite : (x : fl.F) → Finite fl x → Finite fl (fl.neg x)
  -- a product with a factor between 0 and 1
  pub mul_finite :
      (x s : fl.F) → Finite fl x → Le fl fl.zero s → Le fl s fl.one → Finite fl (fl.mul x s)
  pub abs-mul-le :
      (x s : fl.F)
      → Finite fl x
      → Le fl fl.zero s
      → Le fl s fl.one
      → Le fl (fl.abs (fl.mul x s)) (fl.abs x)
  pub mul_nonneg :
      (x s : fl.F)
      → Finite fl x
      → Le fl fl.zero x
      → Le fl fl.zero s
      → Le fl s fl.one
      → Le fl fl.zero (fl.mul x s)
  pub div_nonneg_of_lt : (a b : fl.F) → Le fl fl.zero a → Lt fl a b → Le fl fl.zero (fl.div a b)
  pub div-le-one : (a b : fl.F) → Le fl fl.zero a → Lt fl a b → Le fl (fl.div a b) fl.one
  pub div_nonneg :
      (a b : fl.F)
      → Finite fl a
      → Le fl fl.zero a
      → Le fl fl.zero b
      → fl.eq b fl.zero ≡ false
      → Le fl fl.zero (fl.div a b)
  pub sub_nonneg : (x y : fl.F) → Finite fl x → Finite fl y → Le fl x y → Le fl fl.zero (fl.sub y x)
  pub sub_finite :
      (x y : fl.F)
      → Finite fl x
      → Finite fl y
      → Le fl fl.zero x
      → Le fl x y
      → Finite fl (fl.sub y x)
  pub sum-abs_nonneg :
      (xs : List fl.F) → All (Finite fl) xs → Le fl fl.zero (fl.sum (map fl.abs xs))
  pub abs-sum_nonneg : (xs : List fl.F) → All (Finite fl) xs → Le fl fl.zero (fl.abs (fl.sum xs))
