-- ===== src/Broker/Marks.antt =====
-- The methods of `SimBroker` that read the market: `equity`, `weights` and `positions`; its
-- constructor, `state` and `restore`.
use aegis_quant.Common.{ℕ, Option, none, some, List, [], ◌∷◌, Dict, lookup, if◌then◌else◌}
use aegis_quant.Common.Int.{ℤ}
use aegis_quant.Common.Sort.{sort_items}
use aegis_quant.Num.{FloatOps, DecimalOps}
use aegis_quant.Broker.Records.{
  division_by_zero, missing_mark, non_positive_equity, missing_cost, invalid_operation,
  invalid_position, is_valid_position, Result, returned, raised, ◌>>=◌, Position, Broker,
}

module _ (fl : FloatOps) (dc : DecimalOps fl) where
  open dc use {
    D, zero, add, sub, mul, div, le, of_float, to_float, of_int, can_quantize_cent, quantize_cent,
  }

  -- `SimBroker(cash)`; `none` is its ValueError.
  unfoldable pub new_broker : fl.F → Option (Broker fl dc)
  new_broker cash =
      if fl.le cash fl.zero
      then none
      else some (record { cash = quantize_cent (of_float cash); shares = []; average_costs = [] })

  -- `state`, whose two tuples are sorted.
  unfoldable pub state : Broker fl dc → Broker fl dc
  state broker = record broker {
    shares = sort_items broker.shares;
    average_costs = sort_items broker.average_costs;
  }

  -- `quantities`
  unfoldable pub quantities : Broker fl dc → Dict ℤ
  quantities broker = sort_items broker.shares

  -- `total += Decimal(quantity) * Decimal(str(marks[ticker]))` over the held positions
  unfoldable pub add_holdings : Dict fl.F → Dict ℤ → D → Result D
  add_holdings marks [] total = returned total
  add_holdings marks ((t, n) ∷ shares) total = elim (lookup t marks) [
    | none ↦ raised (missing_mark t)
    | some mark ↦ add_holdings marks shares (add total (mul (of_int n) (of_float mark)))
  ]

  unfoldable pub equity : Dict fl.F → Broker fl dc → Result D
  equity marks broker = do
    total ← add_holdings marks broker.shares broker.cash
    if can_quantize_cent total then returned (quantize_cent total) else raised invalid_operation

  -- The entries of `weights`, over a positive equity.
  unfoldable pub weights_over : D → Dict fl.F → Dict ℤ → Result (Dict fl.F)
  weights_over total marks [] = returned []
  weights_over total marks ((t, n) ∷ shares) = elim (lookup t marks) [
    | none ↦ raised (missing_mark t)
    | some mark ↦ elim (div (mul (of_int n) (of_float mark)) total) [
      | none ↦ raised division_by_zero
      | some w ↦ do ws ← weights_over total marks shares; returned ((t, to_float w) ∷ ws)
    ]
  ]

  unfoldable pub weights : Dict fl.F → Broker fl dc → Result (Dict fl.F)
  weights marks broker = do
    total ← equity marks broker
    if le total zero
        then raised non_positive_equity
        else weights_over total marks (sort_items broker.shares)

  unfoldable pub position_of : ℕ → ℕ → ℤ → D → D → Position fl
  position_of as_of t n mark average = record {
    ticker = t;
    quantity = to_float (of_int n);
    average_cost = to_float average;
    market_price = to_float mark;
    market_value = to_float (mul mark (of_int n));
    unrealized_pnl = to_float (mul (sub mark average) (of_int n));
    as_of = as_of;
  }

  -- `Position(...)`, whose validators may raise
  unfoldable pub checked_position : ℕ → Position fl → Result (Position fl)
  checked_position t p = if is_valid_position fl p then returned p else raised (invalid_position t)

  -- `positions`; the KeyError of a position that has no average cost is `missing_cost`.
  unfoldable pub positions_of : Dict fl.F → ℕ → Dict D → Dict ℤ → Result (List (Position fl))
  positions_of marks as_of costs [] = returned []
  positions_of marks as_of costs ((t, n) ∷ shares) = elim (lookup t marks) [
    | none ↦ raised (missing_mark t)
    | some price ↦ elim (lookup t costs) [
      | none ↦ raised (missing_cost t)
      | some average ↦ do
        p ← checked_position t (position_of as_of t n (of_float price) average)
        rest ← positions_of marks as_of costs shares
        returned (p ∷ rest)
    ]
  ]

  unfoldable pub positions : Dict fl.F → ℕ → Broker fl dc → Result (List (Position fl))
  positions marks as_of broker =
      positions_of marks as_of broker.average_costs (sort_items broker.shares)
