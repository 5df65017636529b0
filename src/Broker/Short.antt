-- ===== src/Broker/Short.antt =====
-- A policy may allow shorting, and a sale may then leave a negative position.
use aegis_quant.Common.{ℕ, ◌≡◌, refl, ap, ◌∙◌, Bool, true, none, List, ◌∷◌, get_or}
use aegis_quant.Common.Int.{pos, ◌+ℤ◌}
use aegis_quant.Num.{FloatOps, DecimalOps}
use aegis_quant.Risk.Policy.{RiskPolicy}
use aegis_quant.Broker.Records.{OrderSide, buy, division_by_zero, raised, Order, Broker}
use aegis_quant.Broker.Sim.{
  Batch, Quote, quote, average_cost, apply_buy, apply_side, quantity_of, is_whole, execute_order,
  execute_orders, commit, start_batch, per_ten_thousand, execute_batch,
}
use aegis_quant.Broker.Step.{position}

module _ (fl : FloatOps) (dc : DecimalOps fl) where
  open dc use {D}

  average_cost-cover :
      (k n : ℕ) (q : Quote fl dc) (b : Batch fl dc)
      → ((a : D) → dc.div a (dc.of_int (pos 0)) ≡ none)
      → position k b.shares +ℤ pos n ≡ pos 0
      → average_cost fl dc k n q b ≡ none
  unfolding average_cost
  average_cost-cover k n q b zero_div covers =
      let paid =
        dc.add (dc.mul (get_or dc.zero k b.average_costs) (dc.of_int (position k b.shares)))
          q.notional in
      ap (λ m. dc.div paid (dc.of_int m)) covers ∙ zero_div paid

  apply_side-cover :
      (short : Bool) (side : OrderSide) (k n : ℕ) (q : Quote fl dc) (b : Batch fl dc)
      → ((a : D) → dc.div a (dc.of_int (pos 0)) ≡ none)
      → side ≡ buy
      → position k b.shares +ℤ pos n ≡ pos 0
      → apply_side fl dc short side k n q b ≡ raised division_by_zero
  unfolding apply_side apply_buy
  apply_side-cover short side k n q b zero_div bought covers =
      rw (bought, average_cost-cover k n q b zero_div covers, apply_buy) refl

  -- A batch whose first order buys back exactly the shares that a broker is short raises the
  -- exception of a division by zero, since the average cost is divided by the new quantity. It
  -- is assumed that a decimal divided by zero raises.
  pub buy_to_cover_raises :
      (hash : ℕ → Quote fl dc → ℕ → ℕ) (o : Order fl) (os : List (Order fl)) (p : RiskPolicy fl)
      (at : ℕ) (broker : Broker fl dc)
      → ((a : D) → dc.div a (dc.of_int (pos 0)) ≡ none)
      → o.side ≡ buy
      → is_whole fl dc (dc.of_float o.quantity) ≡ true
      → position o.ticker broker.shares +ℤ pos (quantity_of fl dc o) ≡ pos 0
      → execute_batch fl dc hash (o ∷ os) p at broker ≡ (raised division_by_zero, broker)
  unfolding execute_batch execute_orders execute_order start_batch commit
  buy_to_cover_raises hash o os p at broker zero_div bought whole covers =
      let n = quantity_of fl dc o in
      let q =
        quote fl dc (per_ten_thousand fl dc (dc.of_float p.commission_bps))
          (per_ten_thousand fl dc (dc.of_float p.slippage_bps)) o.side
          (dc.of_float o.reference_price) n in
      let first = start_batch fl dc broker in
      let started = record first { seen = o.order_id ∷ first.seen } in
      rw
        (
          whole,
          apply_side-cover p.allow_shorting o.side o.ticker n q started zero_div bought covers,
        )
        refl
