-- ===== src/Broker/Tests.antt =====
-- A batch on a small broker, over fixed-point decimals.
use aegis_quant.Common.{
  ℕ, ◌+◌, ◌*◌, ◌≡◌, refl, true, false, List, [], ◌∷◌, Dict, all_distinct, arith,
}
use aegis_quant.Common.Int.{ℤ, pos, negsuc, ◌+ℤ◌, ◌-ℤ◌}
use aegis_quant.Common.Sort.{sort_items}
use aegis_quant.Num.Fixed.{fixed, unit}
use aegis_quant.Num.FixedDecimals.{fixed_decimals}
use aegis_quant.Risk.Policy.{RiskPolicy}
use aegis_quant.Broker.Records.{
  is_valid_fill, is_positive_finite, is_nonnegative_finite, OrderSide, buy, sell, SimulationMode,
  division_by_zero, short_sale_denied, Result, returned, raised, Order, Fill, Broker,
}
use aegis_quant.Broker.Sim.{
  Quote, quote, average_cost, apply_buy, apply_sell, apply_side, fill_of, add_fill, quantity_of,
  is_whole, execute_order, execute_orders, commit, start_batch, per_ten_thousand, execute_batch,
}
use aegis_quant.Broker.Marks.{positions, equity}
use aegis_quant.Broker.Step.{position}
use aegis_quant.Broker.Batches.{net_quantity, order_ids, fill_order_ids, execute_batch-ok}
use aegis_quant.Broker.LongOnly.{IsHeld, execute_batch-IsHeld}
use aegis_quant.Broker.Short.{buy_to_cover_raises}
use aegis_quant.Broker.Pricing.{Marked, held_is_priced}
use aegis_quant.Broker.Fixed.{fixed-DecimalLaws}

abbrev policy : RiskPolicy fixed
policy = record {
  max_position_pct = pos unit;
  max_gross_exposure = pos unit;
  max_net_exposure = pos unit;
  max_turnover_pct = pos unit;
  minimum_cash_pct = pos 0;
  minimum_confidence = pos 0;
  maximum_sector_pct = pos unit;
  maximum_single_strategy_pct = pos unit;
  stale_price_minutes = 10080;
  allow_shorting = false;
  allow_leverage = false;
  commission_bps = pos (5 * unit);
  slippage_bps = pos (5 * unit);
  version = "risk-v1";
}

abbrev order : ℕ → ℕ → OrderSide → ℕ → Order fixed
order id ticker side quantity = record {
  order_id = id;
  case_id = 1;
  ticker = ticker;
  side = side;
  quantity = pos (quantity * unit);
  reference_price = pos (100 * unit);
  created_at = 1;
  execution_mode = SimulationMode.historical;
}

-- 8 shares of ticker 2 and 5,000 in cash.
abbrev broker : Broker fixed fixed_decimals
broker = record {
  cash = pos (5_000 * unit);
  shares = (2, pos 8) ∷ [];
  average_costs = (2, pos (90 * unit)) ∷ [];
}

abbrev orders : List (Order fixed)
orders = order 7 2 sell 8 ∷ order 8 1 buy 10 ∷ []

abbrev hash : ℕ → Quote fixed fixed_decimals → ℕ → ℕ
hash id q at = id + at

abbrev outcome : Result (List (Fill fixed)) × Broker fixed fixed_decimals
outcome = execute_batch fixed fixed_decimals hash orders policy 3 broker

abbrev fills_of : Result (List (Fill fixed)) → List (Fill fixed)
fills_of (returned fs) = fs
fills_of (raised _) = []

-- 5000 + 800 · 0.9995 - 0.40 - 1000 · 1.0005 - 0.50
cash_after : outcome.1.cash ≡ pos (4_798_200 * 1_000_000_000_000)
unfolding execute_batch execute_orders execute_order apply_side apply_buy apply_sell average_cost
    quote fill_of add_fill is_valid_fill is_positive_finite is_nonnegative_finite quantity_of
    is_whole commit start_batch per_ten_thousand ◌+ℤ◌ ◌-ℤ◌
cash_after = refl

filled : outcome ≡ (returned (fills_of outcome.0), outcome.1)
unfolding execute_batch execute_orders execute_order apply_side apply_buy apply_sell average_cost
    quote fill_of add_fill is_valid_fill is_positive_finite is_nonnegative_finite quantity_of
    is_whole commit start_batch per_ten_thousand ◌+ℤ◌ ◌-ℤ◌
filled = refl

execute_batch-ok_example :
    (position 1 outcome.1.shares ≡ pos 0 +ℤ net_quantity fixed fixed_decimals 1 orders)
    × (all_distinct (order_ids fixed fixed_decimals orders) ≡ true)
    × (fill_order_ids fixed fixed_decimals (fills_of outcome.0) ≡ 7 ∷ 8 ∷ [])
    × (fixed_decimals.lt outcome.1.cash (pos 0) ≡ false)
execute_batch-ok_example =
    execute_batch-ok fixed fixed_decimals fixed-DecimalLaws hash orders policy 3 broker 1 (refl, tt)
      (refl, tt) filled

broker-IsHeld : IsHeld broker.shares broker.average_costs
broker-IsHeld = record {
  shares_dict = (refl, tt);
  costs_dict = (refl, tt);
  positive = (omega arith, tt);
  costed = λ t. ground arith;
}

execute_batch-IsHeld_example : IsHeld outcome.1.shares outcome.1.average_costs
execute_batch-IsHeld_example =
    execute_batch-IsHeld fixed fixed_decimals fixed-DecimalLaws policy refl hash 3 orders broker
      broker-IsHeld filled

abbrev marks : Dict ℤ
marks = (1, pos (101 * unit)) ∷ (2, pos (95 * unit)) ∷ []

held_is_priced_example :
    Marked fixed fixed_decimals marks 3 broker.average_costs broker.shares
      (sort_items broker.shares)
      (positions fixed fixed_decimals marks 3 broker)
    × (equity fixed fixed_decimals marks broker ≡ returned (pos (5_760 * unit)))
unfolding ◌+ℤ◌
held_is_priced_example = held_is_priced fixed fixed_decimals marks 3 broker broker-IsHeld (refl, tt)

-- More shares than are held are not sold, and the batch before the sale is undone.
short_sale :
    execute_batch fixed fixed_decimals hash
      (order 7 1 buy 1 ∷ order 8 2 sell 9 ∷ [])
      policy
      3
      broker
    ≡ (raised (short_sale_denied 2), broker)
unfolding execute_batch execute_orders execute_order apply_side apply_buy apply_sell average_cost
    quote fill_of add_fill is_valid_fill is_positive_finite is_nonnegative_finite quantity_of
    is_whole commit start_batch per_ten_thousand ◌+ℤ◌ ◌-ℤ◌
short_sale = refl

-- A short position of 4 shares, and an order that buys 4.
abbrev short_broker : Broker fixed fixed_decimals
short_broker = record { cash = pos (5_000 * unit); shares = (1, negsuc 3) ∷ []; average_costs = [] }

abbrev short_policy : RiskPolicy fixed
short_policy = record policy { allow_shorting = true }

buy_to_cover_raises_example :
    execute_batch fixed fixed_decimals hash (order 7 1 buy 4 ∷ orders) short_policy 3 short_broker
    ≡ (raised division_by_zero, short_broker)
unfolding ◌+ℤ◌ quantity_of is_whole
buy_to_cover_raises_example =
    buy_to_cover_raises fixed fixed_decimals hash (order 7 1 buy 4) orders short_policy 3
      short_broker (λ a. refl) refl refl refl
