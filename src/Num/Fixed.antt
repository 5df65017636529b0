-- ===== src/Num/Fixed.antt =====
-- Fixed-point numbers with fifteen decimals: operations that obey the laws, so that the theorems
-- over floats can be run.
use aegis_quant.Common.{
  ℕ, ◌+◌, ◌*◌, ◌/◌, ◌≤◌, ◌<◌, ◌≡◌, refl, Bool, true, false, List, [], ◌∷◌, map, subst, leb, ◌==◌,
  arith,
}
use aegis_quant.Common.Int.{ℤ, pos, negsuc, pos_part, neg_part, sub_ℕ, ◌+ℤ◌, ◌-ℤ◌, ltb_ℤ, magnitude}
use native.Mathlib.Nat.{div-le_of_le-mul, mul-le-mul_left, mul-le-mul_right, mul_comm}
use aegis_quant.Num.Ops.{FloatOps}
use aegis_quant.Num.Laws.{FloatLaws}

abbrev pub unit : ℕ
unit = 1_000_000_000_000_000

abbrev pub leb_ℤ : ℤ → ℤ → Bool
leb_ℤ a b = leb (pos_part a + neg_part b) (pos_part b + neg_part a)

abbrev pub eqb_ℤ : ℤ → ℤ → Bool
eqb_ℤ a b = (pos_part a + neg_part b) == (pos_part b + neg_part a)

-- The sign of a product or a quotient of two numbers.
abbrev pub signed : ℤ → ℤ → ℕ → ℤ
signed (pos _) (pos _) n = pos n
signed (negsuc _) (negsuc _) n = pos n
signed (pos _) (negsuc _) n = sub_ℕ 0 n
signed (negsuc _) (pos _) n = sub_ℕ 0 n

abbrev pub sum_ℤ : List ℤ → ℤ
sum_ℤ [] = pos 0
sum_ℤ (x ∷ xs) = x +ℤ sum_ℤ xs

abbrev pub fixed : FloatOps
fixed = record {
  F = ℤ;
  zero = pos 0;
  half = pos 500_000_000_000_000;
  one = pos unit;
  tolerance = pos 1_000;
  dust = pos 1;
  add = λ a b. a +ℤ b;
  sub = λ a b. a -ℤ b;
  mul = λ a b. signed a b (magnitude a * magnitude b / unit);
  div = λ a b. signed a b (magnitude a * unit / magnitude b);
  neg = λ a. sub_ℕ (neg_part a) (pos_part a);
  abs = λ a. pos (magnitude a);
  lt = ltb_ℤ;
  le = leb_ℤ;
  eq = eqb_ℤ;
  is_finite = λ a. true;
  sum = sum_ℤ;
  text = λ a. "";
}

mul-div-le_of_le : (m k : ℕ) → k ≤ unit → m * k / unit ≤ m
mul-div-le_of_le m k h =
    div-le_of_le-mul unit (subst (λ t. m * k ≤ t) (mul_comm m unit) (mul-le-mul_left m h))

mul-div-le_of_lt : (a b : ℕ) → a < b → a * unit / b ≤ unit
mul-div-le_of_lt a b h = div-le_of_le-mul b (mul-le-mul_right unit (omega arith))

abbrev LebZero : ℤ → Type 0
LebZero a = leb_ℤ (pos 0) a ≡ true

add_nonneg : (a b : ℤ) → LebZero a → LebZero b → LebZero (a +ℤ b)
unfolding ◌+ℤ◌
add_nonneg a b p q = ground arith

sum-abs_nonneg : (xs : List ℤ) → LebZero (sum_ℤ (map (λ a. pos (magnitude a)) xs))
sum-abs_nonneg [] = refl
sum-abs_nonneg (x ∷ xs) =
    add_nonneg (pos (magnitude x)) (sum_ℤ (map (λ a. pos (magnitude a)) xs)) (ground arith)
      (sum-abs_nonneg xs)

leb_refl : (x : ℤ) → leb_ℤ x x ≡ true
leb_refl x = ground arith

le_trans : (x y z : ℤ) → leb_ℤ x y ≡ true → leb_ℤ y z ≡ true → leb_ℤ x z ≡ true
le_trans x y z p q = ground arith

le_of_lt : (x y : ℤ) → ltb_ℤ x y ≡ true → leb_ℤ x y ≡ true
le_of_lt x y p = ground arith

le_of_not_lt : (x y : ℤ) → ltb_ℤ x y ≡ false → leb_ℤ y x ≡ true
le_of_not_lt x y p = ground arith

not_le_of_lt : (x y : ℤ) → ltb_ℤ x y ≡ true → leb_ℤ y x ≡ false
not_le_of_lt x y p = ground arith

magnitude-signed : (a b : ℤ) (n : ℕ) → magnitude (signed a b n) ≡ n
magnitude-signed (pos _) (pos _) n = ground arith
magnitude-signed (negsuc _) (negsuc _) n = ground arith
magnitude-signed (pos _) (negsuc _) n = ground arith
magnitude-signed (negsuc _) (pos _) n = ground arith

signed_nonneg : (a b : ℤ) (n : ℕ) → LebZero a → LebZero b → LebZero (signed a b n)
signed_nonneg (pos _) (pos _) n p q = ground arith
signed_nonneg (negsuc _) b n p q = ground arith
signed_nonneg (pos _) (negsuc _) n p q = ground arith

sub_nonneg : (x y : ℤ) → leb_ℤ x y ≡ true → LebZero (y -ℤ x)
unfolding ◌-ℤ◌
sub_nonneg x y p = ground arith

le_of_magnitude : (a : ℤ) (k : ℕ) → magnitude a ≤ k → leb_ℤ a (pos k) ≡ true
le_of_magnitude a k h = ground arith

magnitude-le : (s : ℤ) (k : ℕ) → LebZero s → leb_ℤ s (pos k) ≡ true → magnitude s ≤ k
magnitude-le s k p q = ground arith

abs-mul-le :
    (x s : ℤ)
    → LebZero s
    → leb_ℤ s (pos unit) ≡ true
    → leb_ℤ (pos (magnitude (fixed.mul x s))) (pos (magnitude x)) ≡ true
abs-mul-le x s p q = rw (magnitude-signed x s (magnitude x * magnitude s / unit)) (
    le_of_magnitude (pos (magnitude x * magnitude s / unit)) (magnitude x)
      (omega (arith, mul-div-le_of_le (magnitude x) (magnitude s) (magnitude-le s unit p q))))

div-le-one : (a b : ℤ) → LebZero a → ltb_ℤ a b ≡ true → leb_ℤ (fixed.div a b) (pos unit) ≡ true
div-le-one a b p q = le_of_magnitude (fixed.div a b) unit (
    rw (magnitude-signed a b (magnitude a * unit / magnitude b))
      (mul-div-le_of_lt (magnitude a) (magnitude b) (ground arith)))

pub fixed-FloatLaws : FloatLaws fixed
fixed-FloatLaws = record {
  le_refl = λ x _. ground arith;
  le_trans = le_trans;
  le_of_lt = le_of_lt;
  le_of_not_lt = λ x y _ _ p. le_of_not_lt x y p;
  not_le_of_lt = not_le_of_lt;
  zero_finite = refl;
  zero-le-one = refl;
  one_finite = refl;
  tolerance_finite = refl;
  number_of_ge = λ x y _. ground arith;
  number_of_le = λ x y _. ground arith;
  not_lt_of_eq = λ x y e. ground (arith, e);
  eq_sym = λ x y e. ground (arith, e);
  add_number_right = λ x y _ _. leb_refl (x +ℤ y);
  add_number = λ x y _ _. leb_refl (x +ℤ y);
  sub_number = λ x y _ _. leb_refl (x -ℤ y);
  sum_number = λ xs _. leb_refl (sum_ℤ xs);
  abs_finite = λ x _. refl;
  abs_nonneg = λ x _. ground arith;
  abs-le = λ x p. ground arith;
  abs-neg = λ x. ground arith;
  neg_finite = λ x _. refl;
  mul_finite = λ x s _ _ _. refl;
  abs-mul-le = λ x s _ p q. abs-mul-le x s p q;
  mul_nonneg = λ x s _ p q _. signed_nonneg x s _ p q;
  div_nonneg_of_lt = λ a b p q. signed_nonneg a b _ p (le_trans (pos 0) a b p (le_of_lt a b q));
  div-le-one = div-le-one;
  div_nonneg = λ a b _ p q _. signed_nonneg a b _ p q;
  sub_nonneg = λ x y _ _ p. sub_nonneg x y p;
  sub_finite = λ x y _ _ _ _. refl;
  sum-abs_nonneg = λ xs _. sum-abs_nonneg xs;
  abs-sum_nonneg = λ xs _. ground arith;
}
