-- ===== src/Num/FixedDecimals.antt =====
-- Decimals as fixed-point numbers with fifteen places, for tests.
use aegis_quant.Common.{ℕ, ◌+◌, ◌*◌, ◌/◌, true, some, none, if◌then◌else◌}
use aegis_quant.Common.Int.{ℤ, pos, magnitude, ltb_ℤ, is_zero}
use aegis_quant.Num.Decimals.{DecimalOps}
use aegis_quant.Num.Fixed.{fixed, unit, signed, leb_ℤ, eqb_ℤ}

-- Rounding half up, away from zero, to a multiple of `step`.
abbrev pub round_to : ℕ → ℤ → ℤ
round_to step a = signed a (pos 1) ((magnitude a + step / 2) / step * step)

abbrev pub fixed_decimals : DecimalOps fixed
fixed_decimals = record {
  D = ℤ;
  zero = pos 0;
  one = pos unit;
  ten_thousand = pos (10_000 * unit);
  add = fixed.add;
  sub = fixed.sub;
  mul = fixed.mul;
  div = λ a b. if is_zero b then none else some (fixed.div a b);
  abs = fixed.abs;
  lt = ltb_ℤ;
  le = leb_ℤ;
  eq = eqb_ℤ;
  of_float = λ x. x;
  to_float = λ d. d;
  of_int = λ n. signed n (pos 1) (magnitude n * unit);
  float_of_int = λ n. pos (n * unit);
  to_integral_value = round_to unit;
  to_nat = λ d. magnitude d / unit;
  truncate = λ d. signed d (pos 1) (magnitude d / unit);
  can_quantize_cent = λ d. true;
  quantize_cent = round_to 10_000_000_000_000;
  quantize_cent_half_up = round_to 10_000_000_000_000;
  quantize_micro_half_up = round_to 1_000_000_000;
}
