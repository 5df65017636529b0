-- ===== src/Orders/Tests.antt =====
-- Orders for a small broker, carried out on it.
use aegis_quant.Common.{ℕ, ◌+◌, ◌*◌, ◌≡◌, refl, false, List, [], ◌∷◌, Dict, arith}
use aegis_quant.Common.Int.{ℤ, pos, ◌+ℤ◌, ◌-ℤ◌}
use aegis_quant.Num.Fixed.{fixed, unit}
use aegis_quant.Num.FixedDecimals.{fixed_decimals}
use aegis_quant.Risk.Policy.{RiskPolicy}
use aegis_quant.Broker.Records.{
  is_valid_order, is_valid_fill, is_positive_finite, is_nonnegative_finite, SimulationMode, Result,
  Order, Fill, Broker,
}
use aegis_quant.Broker.Sim.{
  Quote, quote, average_cost, apply_buy, apply_sell, apply_side, fill_of, add_fill, quantity_of,
  is_whole, execute_order, execute_orders, commit, start_batch, per_ten_thousand, execute_batch,
}
use aegis_quant.Broker.Marks.{quantities}
use aegis_quant.Broker.Step.{position}
use aegis_quant.Broker.Fixed.{fixed-DecimalLaws}
use aegis_quant.Orders.Build.{
  Built, returned, raised, Context, target_quantity, side_of, order_of, add_order, add_delta,
  check_delta, build_loop, build_orders,
}
use aegis_quant.Orders.Targets.{orders_reach_targets}

abbrev policy : RiskPolicy fixed
policy = record {
  max_position_pct = pos unit;
  max_gross_exposure = pos unit;
  max_net_exposure = pos unit;
  max_turnover_pct = pos unit;
  minimum_cash_pct = pos 0;
  minimum_confidence = pos 0;
  maximum_sector_pct = pos unit;
  maximum_single_strategy_pct = pos unit;
  stale_price_minutes = 10080;
  allow_shorting = false;
  allow_leverage = false;
  commission_bps = pos (5 * unit);
  slippage_bps = pos (5 * unit);
  version = "risk-v1";
}

abbrev broker : Broker fixed fixed_decimals
broker = record {
  cash = pos (5_000 * unit);
  shares = (2, pos 8) ∷ [];
  average_costs = (2, pos (90 * unit)) ∷ [];
}

-- The IDs of the orders are their tickers.
abbrev context : Context fixed fixed_decimals
context = record {
  case_id = 1;
  marks = (1, pos (40 * unit)) ∷ (2, pos (100 * unit)) ∷ [];
  equity = pos (5_800 * unit);
  created_at = 3;
  execution_mode = SimulationMode.replay;
  hash = λ _ t _ _ _ _ _. t;
}

-- Half of the equity in ticker 1, and nothing in ticker 2.
abbrev weights : Dict ℤ
weights = (1, pos 500_000_000_000_000) ∷ []

abbrev hash : ℕ → Quote fixed fixed_decimals → ℕ → ℕ
hash id q at = id + at

abbrev orders_of : Built (List (Order fixed)) → List (Order fixed)
orders_of (returned os) = os
orders_of (raised _) = []

abbrev orders : List (Order fixed)
orders =
    orders_of
      (build_orders fixed fixed_decimals context weights (quantities fixed fixed_decimals broker))

abbrev outcome : Result (List (Fill fixed)) × Broker fixed fixed_decimals
outcome = execute_batch fixed fixed_decimals hash orders policy 3 broker

abbrev fills_of : Result (List (Fill fixed)) → List (Fill fixed)
fills_of (returned fs) = fs
fills_of (raised _) = []

orders_built :
    build_orders fixed fixed_decimals context weights (quantities fixed fixed_decimals broker)
    ≡ returned orders
unfolding build_orders build_loop check_delta is_valid_order add_delta add_order order_of side_of
    target_quantity quantities is_positive_finite ◌+ℤ◌ ◌-ℤ◌
orders_built = refl

orders_filled : outcome ≡ (returned (fills_of outcome.0), outcome.1)
unfolding build_orders build_loop check_delta is_valid_order add_delta add_order order_of side_of
    target_quantity quantities execute_batch execute_orders execute_order apply_side apply_buy
    apply_sell average_cost quote fill_of add_fill is_valid_fill is_positive_finite
    is_nonnegative_finite quantity_of is_whole commit start_batch per_ten_thousand ◌+ℤ◌ ◌-ℤ◌
orders_filled = refl

orders_reach_targets_example : position 1 outcome.1.shares ≡ pos 72
unfolding quantities target_quantity ◌-ℤ◌
orders_reach_targets_example =
    orders_reach_targets fixed fixed_decimals fixed-DecimalLaws context weights broker hash policy 3
      1 (pos 72) (refl, tt) (refl, tt) refl refl (omega arith) orders_built orders_filled
