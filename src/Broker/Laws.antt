-- ===== src/Broker/Laws.antt =====
-- What the theorems on the broker use of `decimal.Decimal`.
use aegis_quant.Common.{ℕ, ◌≡◌, ◌≤◌, ◌<◌, true, false}
use aegis_quant.Num.{FloatOps, DecimalOps}
use aegis_quant.Broker.Sim.{is_whole}

pub record DecimalLaws (fl : FloatOps) (dc : DecimalOps fl) : Type 0 where
  -- a positive whole number is at least 1 as an `int`
  pub whole_pos : (d : dc.D) → is_whole fl dc d ≡ true → 1 ≤ dc.to_nat d
  -- rounding keeps a number that is not negative so
  pub quantize_nonneg :
      (d : dc.D) → dc.lt d dc.zero ≡ false → dc.lt (dc.quantize_cent_half_up d) dc.zero ≡ false
  -- an `int` below 2 ^ 53 is a float exactly, and prints as a whole number
  pub round_trip :
      (n : ℕ) → n < 9_007_199_254_740_992 → dc.to_nat (dc.of_float (dc.float_of_int n)) ≡ n
