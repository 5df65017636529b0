-- ===== src/Num/Decimals.antt =====
-- Python's `decimal.Decimal` as the broker uses it: the type and its operations are a parameter,
-- over the floats that it converts from and to.
use aegis_quant.Common.{ℕ, Bool, Option}
use aegis_quant.Common.Int.{ℤ}
use aegis_quant.Num.Ops.{FloatOps}

pub record DecimalOps (fl : FloatOps) : Type 1 where
  pub D : Type 0
  pub zero : D
  pub one : D
  pub ten_thousand : D
  pub add : D → D → D
  pub sub : D → D → D
  pub mul : D → D → D
  -- `none` is the exception of a division by zero
  pub div : D → D → Option D
  pub abs : D → D
  pub lt : D → D → Bool
  pub le : D → D → Bool
  pub eq : D → D → Bool
  -- `Decimal(str(x))` and `float(d)`
  pub of_float : fl.F → D
  pub to_float : D → fl.F
  -- `Decimal(n)`
  pub of_int : ℤ → D
  -- `float(n)`
  pub float_of_int : ℕ → fl.F
  pub to_integral_value : D → D
  -- `int(d)` of a positive whole number
  pub to_nat : D → ℕ
  -- `int(d.to_integral_value(rounding=ROUND_DOWN))`
  pub truncate : D → ℤ
  -- whether `d.quantize(Decimal("0.01"))` returns: it raises InvalidOperation of an infinity, and
  -- of a number that would need more digits than the context has
  pub can_quantize_cent : D → Bool
  -- `d.quantize(Decimal("0.01"))`, the same and that to six places with ROUND_HALF_UP
  pub quantize_cent : D → D
  pub quantize_cent_half_up : D → D
  pub quantize_micro_half_up : D → D
