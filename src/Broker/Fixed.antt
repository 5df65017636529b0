-- ===== src/Broker/Fixed.antt =====
-- The fixed-point decimals obey the laws.
use aegis_quant.Common.{◌≤◌, ◌≡◌, true, false, arith}
use aegis_quant.Common.Int.{ℤ, pos, negsuc, ltb_ℤ}
use aegis_quant.Num.Fixed.{fixed}
use aegis_quant.Num.FixedDecimals.{fixed_decimals, round_to}
use aegis_quant.Broker.Laws.{DecimalLaws}
use aegis_quant.Broker.Sim.{is_whole}

whole_pos : (d : ℤ) → is_whole fixed fixed_decimals d ≡ true → 1 ≤ fixed_decimals.to_nat d
unfolding is_whole
whole_pos (pos n) h = ground arith
whole_pos (negsuc n) h = ground arith

round_nonneg :
    (d : ℤ) → ltb_ℤ d (pos 0) ≡ false → ltb_ℤ (round_to 10_000_000_000_000 d) (pos 0) ≡ false
round_nonneg (pos n) h = ground arith
round_nonneg (negsuc n) h = ground arith

pub fixed-DecimalLaws : DecimalLaws fixed fixed_decimals
fixed-DecimalLaws = record {
  whole_pos = whole_pos;
  quantize_nonneg = round_nonneg;
  round_trip = λ n _. omega arith;
}
