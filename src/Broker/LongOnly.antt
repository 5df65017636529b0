-- ===== src/Broker/LongOnly.antt =====
-- Where shorting is denied the broker stays long-only: every position is at least one share and
-- has an average cost, so `positions` and `equity` can price whatever is held.
use aegis_quant.Common.{
  ℕ, ◌≤◌, ◌≡◌, ap, subst, sym, ◌∙◌, inl, inr, true, false, List, [], ◌∷◌, Dict, lookup, has_key,
  insert, erase, IsDict, insert-IsDict, erase-IsDict, Values, insert-Values, erase-insert,
  erase-Values, lookup-insert, lookup-erase, if◌then◌else◌, ◌==◌, Bool-cases, Option-cases, arith,
}
use aegis_quant.Common.Int.{ℤ, pos, ◌+ℤ◌, ◌-ℤ◌, ◌≤ℤ◌, ltb_ℤ, is_zero, -ℤ_parts, int_laws}
use aegis_quant.Num.{FloatOps, DecimalOps}
use aegis_quant.Risk.Policy.{RiskPolicy}
use aegis_quant.Broker.Laws.{DecimalLaws}
use aegis_quant.Broker.Records.{OrderSide, buy, sell, returned, >>=-returned, Order, Fill, Broker}
use aegis_quant.Broker.Sim.{
  Batch, Quote, quote, average_cost, apply_buy, apply_sell, apply_side, fill_of, quantity_of,
  execute_order, execute_orders, start_batch, execute_batch,
}
use aegis_quant.Broker.Step.{position, add_fill-returned, execute_order-Outcome}
use aegis_quant.Broker.Batches.{committed, commit-ok}

abbrev IsPositive : ℤ → Type 0
IsPositive n = pos 1 ≤ℤ n

position_nonneg : (t : ℕ) (d : Dict ℤ) → Values IsPositive d → pos 0 ≤ℤ position t d
position_nonneg t [] h = omega arith
position_nonneg t (e ∷ d) h = ground (arith, position_nonneg t d h.1)

module _ {V : Type 0} where
  -- A long-only book: whole positive positions, and a cost for each of them and no other.
  pub record IsHeld (shares : Dict ℤ) (costs : Dict V) : Type 0 where
    pub shares_dict : IsDict shares
    pub costs_dict : IsDict costs
    pub positive : Values IsPositive shares
    pub costed : (t : ℕ) → has_key t shares ≡ has_key t costs

  has_key-insert :
      (k t : ℕ) (v : V) (d : Dict V)
      → has_key t (insert k v d) ≡ (if t == k then true else has_key t d)
  has_key-insert k t v d = ground (arith, lookup-insert k t v d)

  has_key-erase :
      (k t : ℕ) (d : Dict V)
      → IsDict d
      → has_key t (erase k d) ≡ (if t == k then false else has_key t d)
  has_key-erase k t d h = ground (arith, lookup-erase k t d h)

-- A new positive position with its cost.
IsHeld-insert :
    {V : Type 0} (k : ℕ) (n : ℤ) (cost : V) (shares : Dict ℤ) (costs : Dict V)
    → IsPositive n
    → IsHeld shares costs
    → IsHeld (insert k n shares) (insert k cost costs)
IsHeld-insert k n cost shares costs p h = record {
  shares_dict = insert-IsDict k n shares h.shares_dict;
  costs_dict = insert-IsDict k cost costs h.costs_dict;
  positive = insert-Values IsPositive k n shares p h.positive;
  costed = λ t.
      has_key-insert k t n shares
      ∙ (ap (λ b. if t == k then true else b) (h.costed t) ∙ sym (has_key-insert k t cost costs));
}

-- A sold-out position goes with its cost.
IsHeld-erase :
    {V : Type 0} (k : ℕ) (n : ℤ) (shares : Dict ℤ) (costs : Dict V)
    → IsHeld shares costs
    → IsHeld (erase k (insert k n shares)) (erase k costs)
IsHeld-erase k n shares costs h =
    let both = insert-IsDict k n shares h.shares_dict in
    record {
      shares_dict = erase-IsDict k (insert k n shares) both;
      costs_dict = erase-IsDict k costs h.costs_dict;
      positive =
          subst (Values IsPositive) (sym (erase-insert k n shares))
            (erase-Values IsPositive k shares h.positive);
      costed = λ t. ground (
        arith,
        has_key-erase k t (insert k n shares) both,
        has_key-insert k t n shares,
        has_key-erase k t costs h.costs_dict,
        h.costed t,
      );
    }

-- What is left of a position after a sale keeps its cost.
IsHeld-update :
    {V : Type 0} (k : ℕ) (n : ℤ) (shares : Dict ℤ) (costs : Dict V)
    → IsPositive n
    → has_key k shares ≡ true
    → IsHeld shares costs
    → IsHeld (insert k n shares) costs
IsHeld-update k n shares costs p known h = record {
  shares_dict = insert-IsDict k n shares h.shares_dict;
  costs_dict = h.costs_dict;
  positive = insert-Values IsPositive k n shares p h.positive;
  costed = λ t. ground (arith, has_key-insert k t n shares, h.costed t, h.costed k);
}

sum-IsPositive : (a : ℤ) (n : ℕ) → pos 0 ≤ℤ a → 1 ≤ n → IsPositive (a +ℤ pos n)
sum-IsPositive a n p q = omega int_laws

rest-IsPositive :
    (a : ℤ) (n : ℕ)
    → ltb_ℤ a (pos n) ≡ false
    → is_zero (a -ℤ pos n) ≡ false
    → IsPositive (a -ℤ pos n)
rest-IsPositive a n p q = ground (arith, -ℤ_parts a (pos n))

-- A ticker with a positive position is in the book.
held_has_key :
    (k n : ℕ) (shares : Dict ℤ)
    → 1 ≤ n
    → ltb_ℤ (position k shares) (pos n) ≡ false
    → has_key k shares ≡ true
held_has_key k n shares p h = elim (Option-cases (lookup k shares)) [
  | inl none_held ↦ ground arith
  | inr (m, held) ↦ rw held
]

module _ (fl : FloatOps) (dc : DecimalOps fl) where
  open dc use {D}

  abbrev Held : Batch fl dc → Type 0
  Held b = IsHeld b.shares b.average_costs

  apply_buy-Held :
      (k n : ℕ) (q : Quote fl dc) (b : Batch fl dc) {b' : Batch fl dc}
      → 1 ≤ n
      → Held b
      → apply_buy fl dc k n q b ≡ returned b'
      → Held b'
  unfolding apply_buy
  apply_buy-Held k n q b {b'} p h e = elim (Option-cases (average_cost fl dc k n q b)) [
    | inl zero_shares ↦ absurd (cc (rw (zero_shares, apply_buy) at e))
    | inr (average, priced) ↦
        let paid = rw (priced, apply_buy) at e in
        let same : record b {
          cash = dc.sub b.cash (dc.add q.notional q.fee);
          shares = insert k (position k b.shares +ℤ pos n) b.shares;
          average_costs = insert k average b.average_costs;
        }
            ≡ b' =
          cc in
        subst Held same (
          IsHeld-insert k (position k b.shares +ℤ pos n) average b.shares b.average_costs
            (sum-IsPositive (position k b.shares) n (position_nonneg k b.shares h.positive) p) h)
  ]

  -- A sale that is not denied leaves a book that is still long-only.
  apply_sell-Held :
      (k n : ℕ) (q : Quote fl dc) (b : Batch fl dc) {b' : Batch fl dc}
      → 1 ≤ n
      → Held b
      → apply_sell fl dc false k n q b ≡ returned b'
      → Held b'
  unfolding apply_sell
  apply_sell-Held k n q b {b'} p h e =
      let left = position k b.shares -ℤ pos n in
      elim (Bool-cases (ltb_ℤ (position k b.shares) (pos n))) [
        | inl short ↦ absurd (cc (rw (short, apply_sell) at e))
        | inr covered ↦ elim (Bool-cases (is_zero left)) [
          | inl gone ↦
              let sold = rw (covered, gone, apply_sell) at e in
              let same : record b {
                cash = dc.add b.cash (dc.sub q.notional q.fee);
                shares = erase k (insert k left b.shares);
                average_costs = erase k b.average_costs;
              }
                  ≡ b' =
                cc in
              subst Held same (IsHeld-erase k left b.shares b.average_costs h)
          | inr some_left ↦
              let sold = rw (covered, some_left, apply_sell) at e in
              let same : record b {
                cash = dc.add b.cash (dc.sub q.notional q.fee);
                shares = insert k left b.shares;
              }
                  ≡ b' =
                cc in
              subst Held same (
                IsHeld-update k left b.shares b.average_costs
                  (rest-IsPositive (position k b.shares) n covered some_left)
                  (held_has_key k n b.shares p covered) h)
        ]
      ]

  apply_side-Held :
      (side : OrderSide) (k n : ℕ) (q : Quote fl dc) (b : Batch fl dc) {b' : Batch fl dc}
      → 1 ≤ n
      → Held b
      → apply_side fl dc false side k n q b ≡ returned b'
      → Held b'
  unfolding apply_side
  apply_side-Held buy k n q b p h e = apply_buy-Held k n q b p h e
  apply_side-Held sell k n q b p h e = apply_sell-Held k n q b p h e

  module _ (laws : DecimalLaws fl dc) (p : RiskPolicy fl) (denied : p.allow_shorting ≡ false)
      (hash : ℕ → Quote fl dc → ℕ → ℕ) (at : ℕ) where
    execute_order-Held :
        (fee slip : D) (o : Order fl) (b : Batch fl dc) {b' : Batch fl dc}
        → Held b
        → execute_order fl dc hash p at fee slip o b ≡ returned b'
        → Held b'
    unfolding execute_order quantity_of
    execute_order-Held fee slip o b {b'} h e =
        let n = quantity_of fl dc o in
        let q = quote fl dc fee slip o.side (dc.of_float o.reference_price) n in
        let started = record b { seen = o.order_id ∷ b.seen } in
        let (_, _, _, new, whole, _) =
          execute_order-Outcome fl dc hash p at fee slip o b 0 {b' = b'}
            (h.shares_dict, h.costs_dict) e in
        let (m, run, done) =
          >>=-returned (apply_side fl dc p.allow_shorting o.side o.ticker n q started) _
            (rw (new, whole, execute_order) at e) in
        let same = add_fill-returned fl dc (fill_of fl dc hash at o n q) m {b' = b'} done in
        subst Held same (
          apply_side-Held o.side o.ticker n q started {b' = m}
            (laws.whole_pos (dc.of_float o.quantity) whole) h
            (subst (λ a. apply_side fl dc a o.side o.ticker n q started ≡ returned m) denied run))

    execute_orders-Held :
        (fee slip : D) (os : List (Order fl)) (b : Batch fl dc) {b' : Batch fl dc}
        → Held b
        → execute_orders fl dc hash p at fee slip os b ≡ returned b'
        → Held b'
    unfolding execute_orders
    execute_orders-Held fee slip [] b {b'} h e = let same : b ≡ b' = cc in subst Held same h
    execute_orders-Held fee slip (o ∷ os) b {b'} h e =
        let (m, first, rest) = >>=-returned (execute_order fl dc hash p at fee slip o b) _ e in
        execute_orders-Held fee slip os m {b' = b'}
          (execute_order-Held fee slip o b {b' = m} h first) rest

    -- Under a policy that denies shorting, a batch that is carried out on a long-only broker
    -- leaves it long-only: each position is at least one share, and the tickers with a position
    -- are those with an average cost.
    pub execute_batch-IsHeld :
        (orders : List (Order fl)) (broker : Broker fl dc) {fills : List (Fill fl)}
        {after : Broker fl dc}
        → IsHeld broker.shares broker.average_costs
        → execute_batch fl dc hash orders p at broker ≡ (returned fills, after)
        → IsHeld after.shares after.average_costs
    unfolding execute_batch start_batch committed
    execute_batch-IsHeld orders broker {fills} {after} h e =
        let (b, run, cash, paid, same) = commit-ok fl dc broker _ fills after e in
        subst (λ (a : Broker fl dc). IsHeld a.shares a.average_costs) same
          (execute_orders-Held _ _ orders (start_batch fl dc broker) {b' = b} h run)
