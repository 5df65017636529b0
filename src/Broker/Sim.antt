-- ===== src/Broker/Sim.antt =====
-- `SimBroker` (aegis/brokers/simulated.py), method by method.
use aegis_quant.Common.{
  ℕ, Bool, Option, not, ◌&&◌, none, some, List, [], ◌∷◌, ◌++◌, Dict, get_or, insert, erase,
  contains, if◌then◌else◌,
}
use aegis_quant.Common.Int.{ℤ, pos, ◌+ℤ◌, ◌-ℤ◌, ltb_ℤ, is_zero}
use aegis_quant.Num.{FloatOps, DecimalOps}
use aegis_quant.Broker.Records.{
  OrderSide, buy, sell, duplicate_order, not_whole_shares, short_sale_denied, division_by_zero,
  negative_cash, invalid_fill, is_valid_fill, Result, returned, raised, ◌>>=◌, Order, Fill, Broker,
}
use aegis_quant.Risk.Policy.{RiskPolicy}

module _ (fl : FloatOps) (dc : DecimalOps fl) where
  open dc use {
    D, zero, one, ten_thousand, add, sub, mul, div, abs, lt, le, eq, of_float, to_float, of_int,
    float_of_int, to_integral_value, to_nat, quantize_cent, quantize_cent_half_up,
    quantize_micro_half_up,
  }

  -- The loop variables of `execute_batch`.
  pub record Batch : Type 0 where
    pub cash : D
    pub shares : Dict ℤ
    pub average_costs : Dict D
    pub fills : List (Fill fl)
    pub seen : List ℕ

  -- What one order costs: the price of the fill, its value, the fee and the slippage.
  pub record Quote : Type 0 where
    pub fill_price : D
    pub notional : D
    pub fee : D
    pub slippage : D

  unfoldable pub quote : D → D → OrderSide → D → ℕ → Quote
  quote fee_rate slippage_rate side reference quantity =
      let direction : D = elim side [ buy ↦ one | sell ↦ sub zero one ] in
      let fill_price =
        quantize_micro_half_up (mul reference (add one (mul direction slippage_rate))) in
      let notional = mul fill_price (of_int (pos quantity)) in
      record {
        fill_price = fill_price;
        notional = notional;
        fee = quantize_cent_half_up (mul notional fee_rate);
        slippage =
            quantize_cent_half_up (mul (abs (sub fill_price reference)) (of_int (pos quantity)));
      }

  -- `(old_cost + notional) / new_quantity`
  unfoldable pub average_cost : ℕ → ℕ → Quote → Batch → Option D
  average_cost ticker quantity q b =
      let current = get_or (pos 0) ticker b.shares in
      let old_cost = mul (get_or zero ticker b.average_costs) (of_int current) in
      div (add old_cost q.notional) (of_int (current +ℤ pos quantity))

  -- The `if order.side == "buy"` branch.
  unfoldable pub apply_buy : ℕ → ℕ → Quote → Batch → Result Batch
  apply_buy ticker quantity q b =
      let current = get_or (pos 0) ticker b.shares in
      let new_quantity = current +ℤ pos quantity in
      elim (average_cost ticker quantity q b) [
        | none ↦ raised division_by_zero
        | some average ↦ returned (record b {
          cash = sub b.cash (add q.notional q.fee);
          shares = insert ticker new_quantity b.shares;
          average_costs = insert ticker average b.average_costs;
        })
      ]

  -- Its `else` branch.
  unfoldable pub apply_sell : Bool → ℕ → ℕ → Quote → Batch → Result Batch
  apply_sell allow_shorting ticker quantity q b =
      let current = get_or (pos 0) ticker b.shares in
      let left = current -ℤ pos quantity in
      let cash = add b.cash (sub q.notional q.fee) in
      if not allow_shorting && ltb_ℤ current (pos quantity)
      then raised (short_sale_denied ticker)
      else if is_zero left
      then returned (record b {
        cash = cash;
        shares = erase ticker (insert ticker left b.shares);
        average_costs = erase ticker b.average_costs;
      })
      else returned (record b { cash = cash; shares = insert ticker left b.shares })

  unfoldable pub apply_side : Bool → OrderSide → ℕ → ℕ → Quote → Batch → Result Batch
  apply_side allow_shorting buy = apply_buy
  apply_side allow_shorting sell = apply_sell allow_shorting

  -- The hash is `canonical_sha256` of the order's ID, the quote and the time, cut to 32 digits.
  unfoldable pub fill_of : (ℕ → Quote → ℕ → ℕ) → ℕ → Order fl → ℕ → Quote → Fill fl
  fill_of hash filled_at o quantity q = record {
    fill_id = hash o.order_id q filled_at;
    order_id = o.order_id;
    ticker = o.ticker;
    side = o.side;
    quantity = float_of_int quantity;
    price = to_float q.fill_price;
    fee = to_float q.fee;
    slippage = to_float q.slippage;
    filled_at = filled_at;
    execution_mode = o.execution_mode;
  }

  -- `int(Decimal(str(order.quantity)))`
  unfoldable pub quantity_of : Order fl → ℕ
  quantity_of o = to_nat (of_float o.quantity)

  unfoldable pub is_whole : D → Bool
  is_whole d = eq d (to_integral_value d) && not (le d zero)

  -- `fills.append(Fill(...))`, whose validators may raise
  unfoldable pub add_fill : Fill fl → Batch → Result Batch
  add_fill f b =
      if is_valid_fill fl f
      then returned (record b { fills = b.fills ++ f ∷ [] })
      else raised invalid_fill

  -- One round of the loop over the orders.
  unfoldable pub execute_order :
      (ℕ → Quote → ℕ → ℕ) → RiskPolicy fl → ℕ → D → D → Order fl → Batch → Result Batch
  execute_order hash p filled_at fee_rate slippage_rate o b =
      let quantity = quantity_of o in
      let q = quote fee_rate slippage_rate o.side (of_float o.reference_price) quantity in
      let started = record b { seen = o.order_id ∷ b.seen } in
      if contains o.order_id b.seen
      then raised (duplicate_order o.order_id)
      else if is_whole (of_float o.quantity)
      then apply_side p.allow_shorting o.side o.ticker quantity q started
        >>= add_fill (fill_of hash filled_at o quantity q)
      else raised not_whole_shares

  unfoldable pub execute_orders :
      (ℕ → Quote → ℕ → ℕ) → RiskPolicy fl → ℕ → D → D → List (Order fl) → Batch → Result Batch
  execute_orders hash p filled_at fee_rate slippage_rate [] b = returned b
  execute_orders hash p filled_at fee_rate slippage_rate (o ∷ os) b = do
    b' ← execute_order hash p filled_at fee_rate slippage_rate o b
    execute_orders hash p filled_at fee_rate slippage_rate os b'

  -- The last test of `execute_batch`, and its three assignments to the broker.
  unfoldable pub commit : Broker fl dc → Result Batch → Result (List (Fill fl)) × Broker fl dc
  commit broker (raised e) = (raised e, broker)
  commit broker (returned b) = if lt b.cash zero then (raised negative_cash, broker) else (
    returned b.fills,
    record {
      cash = quantize_cent_half_up b.cash;
      shares = b.shares;
      average_costs = b.average_costs;
    },
  )

  unfoldable pub start_batch : Broker fl dc → Batch
  start_batch broker = record {
    cash = broker.cash;
    shares = broker.shares;
    average_costs = broker.average_costs;
    fills = [];
    seen = [];
  }

  -- `x / Decimal("10000")`, which cannot divide by zero
  unfoldable pub per_ten_thousand : D → D
  per_ten_thousand x = elim (div x ten_thousand) [ none ↦ x | some y ↦ y ]

  unfoldable pub execute_batch :
      (ℕ → Quote → ℕ → ℕ)
      → List (Order fl)
      → RiskPolicy fl
      → ℕ
      → Broker fl dc
      → Result (List (Fill fl)) × Broker fl dc
  execute_batch hash orders p filled_at broker = commit broker (
      execute_orders hash p filled_at (per_ten_thousand (of_float p.commission_bps))
        (per_ten_thousand (of_float p.slippage_bps)) orders (start_batch broker))
