-- ===== src/Broker/Batches.antt =====
-- A whole batch: every share is accounted for, every order is filled once, and a batch that
-- raises leaves no trace.
use aegis_quant.Common.{
  ℕ, ◌≡◌, refl, ap, subst, sym, ◌∙◌, inl, inr, Bool, true, false, not, ◌&&◌, List, [], ◌∷◌, ◌++◌,
  all_distinct, append-nil, append_assoc, contains, IsDict, Bool-cases, arith,
}
use aegis_quant.Common.Int.{ℤ, pos, ◌+ℤ◌, +ℤ_assoc, int_laws}
use aegis_quant.Num.{FloatOps, DecimalOps}
use aegis_quant.Risk.Policy.{RiskPolicy}
use aegis_quant.Broker.Laws.{DecimalLaws}
use aegis_quant.Broker.Records.{
  BrokerError, Result, returned, raised, >>=-returned, Order, Fill, Broker, negative_cash,
}
use aegis_quant.Broker.Sim.{
  Batch, Quote, execute_order, execute_orders, commit, start_batch, execute_batch,
}
use aegis_quant.Broker.Step.{position, moved, AreDicts, Outcome, execute_order-Outcome}

module _ (fl : FloatOps) (dc : DecimalOps fl) where
  open dc use {D}

  -- The sum of what the orders add to the position of a ticker.
  abbrev pub net_quantity : ℕ → List (Order fl) → ℤ
  net_quantity t [] = pos 0
  net_quantity t (o ∷ os) = moved fl dc o t +ℤ net_quantity t os

  abbrev pub order_ids : List (Order fl) → List ℕ
  order_ids [] = []
  order_ids (o ∷ os) = o.order_id ∷ order_ids os

  abbrev pub fill_order_ids : List (Fill fl) → List ℕ
  fill_order_ids [] = []
  fill_order_ids (f ∷ fs) = f.order_id ∷ fill_order_ids fs

  -- No ID of the first list is in the second.
  abbrev pub disjoint : List ℕ → List ℕ → Bool
  disjoint [] seen = true
  disjoint (i ∷ is) seen = not (contains i seen) && disjoint is seen

  disjoint-cons :
      (i : ℕ) (is seen : List ℕ)
      → disjoint is (i ∷ seen) ≡ true
      → (disjoint is seen ≡ true) × (contains i is ≡ false)
  disjoint-cons i [] seen h = (refl, refl)
  disjoint-cons i (j ∷ is) seen h = ground (arith, disjoint-cons i is seen)

  abbrev Filled : ℕ → List (Order fl) → Batch fl dc → Batch fl dc → Type 0
  Filled t os b b' =
      AreDicts fl dc b'
      × (position t b'.shares ≡ position t b.shares +ℤ net_quantity t os)
      × (disjoint (order_ids os) b.seen ≡ true)
      × (all_distinct (order_ids os) ≡ true)
      × ((fs : List (Fill fl)) × (b'.fills ≡ b.fills ++ fs) × (fill_order_ids fs ≡ order_ids os))

  Filled-cons :
      (t : ℕ) (o : Order fl) (os : List (Order fl)) (b m b' : Batch fl dc)
      → Outcome fl dc o t b m
      → Filled t os m b'
      → Filled t (o ∷ os) b b'
  Filled-cons t o os b m b' (_, step, seen, new, whole, (f, adds, id, quantity))
        (dicts, held, apart, distinct, (fs, fills, ids)) =
      let (elsewhere, later) =
        disjoint-cons o.order_id (order_ids os) b.seen
          (subst (λ s. disjoint (order_ids os) s ≡ true) seen apart) in
      (
        dicts,
        held
            ∙ (ap (λ n. n +ℤ net_quantity t os) step
                ∙ +ℤ_assoc (position t b.shares) (moved fl dc o t) (net_quantity t os)),
        ground arith,
        ground arith,
        (f ∷ fs, fills ∙ (ap (λ gs. gs ++ fs) adds ∙ append_assoc b.fills (f ∷ []) fs), cc),
      )

  execute_orders-Filled :
      (hash : ℕ → Quote fl dc → ℕ → ℕ) (p : RiskPolicy fl) (at : ℕ) (fee slip : D)
      (os : List (Order fl)) (b : Batch fl dc) (t : ℕ) {b' : Batch fl dc}
      → AreDicts fl dc b
      → execute_orders fl dc hash p at fee slip os b ≡ returned b'
      → Filled t os b b'
  unfolding execute_orders
  execute_orders-Filled hash p at fee slip [] b t {b'} h e =
      let same : b ≡ b' = cc in
      subst (Filled t [] b) same
        (h, omega int_laws, refl, refl, ([], sym (append-nil b.fills), refl))
  execute_orders-Filled hash p at fee slip (o ∷ os) b t {b'} h e =
      let (m, first, rest) = >>=-returned (execute_order fl dc hash p at fee slip o b) _ e in
      let step = execute_order-Outcome fl dc hash p at fee slip o b t {b' = m} h first in
      Filled-cons t o os b m b' step
        (execute_orders-Filled hash p at fee slip os m t {b' = b'} step.0 rest)

  unfoldable pub committed : Batch fl dc → Broker fl dc
  committed b = record {
    cash = dc.quantize_cent_half_up b.cash;
    shares = b.shares;
    average_costs = b.average_costs;
  }

  pub commit-ok :
      (broker : Broker fl dc) (r : Result (Batch fl dc)) (fills : List (Fill fl))
      (after : Broker fl dc)
      → commit fl dc broker r ≡ (returned fills, after)
      → (b : Batch fl dc) × (r ≡ returned b)
        × (dc.lt b.cash dc.zero ≡ false)
        × (b.fills ≡ fills)
        × (committed b ≡ after)
  unfolding commit committed
  commit-ok broker (raised x) fills after e =
      let bad : raised x ≡ returned fills =
        ap (λ (r : Result (List (Fill fl)) × Broker fl dc). r.0) e in
      absurd (cc)
  commit-ok broker (returned b) fills after e = elim (Bool-cases (dc.lt b.cash dc.zero)) [
    | inl low ↦
        let got = rw low at e in
        let bad : raised negative_cash ≡ returned fills =
          ap (λ (r : Result (List (Fill fl)) × Broker fl dc). r.0) got in
        absurd (cc)
    | inr fine ↦
        let got = rw fine at e in
        let paid : returned b.fills ≡ returned fills =
          ap (λ (r : Result (List (Fill fl)) × Broker fl dc). r.0) got in
        (b, refl, fine, cc, ap (λ (r : Result (List (Fill fl)) × Broker fl dc). r.1) got)
  ]

  commit-err :
      (broker : Broker fl dc) (r : Result (Batch fl dc)) (x : BrokerError) (after : Broker fl dc)
      → commit fl dc broker r ≡ (raised x, after)
      → after ≡ broker
  unfolding commit
  commit-err broker (raised y) x after e = ground arith
  commit-err broker (returned b) x after e = ground arith

  -- A batch that raises leaves the broker as it was.
  pub execute_batch-err :
      (hash : ℕ → Quote fl dc → ℕ → ℕ) (orders : List (Order fl)) (p : RiskPolicy fl) (at : ℕ)
      (broker : Broker fl dc) {x : BrokerError} {after : Broker fl dc}
      → execute_batch fl dc hash orders p at broker ≡ (raised x, after)
      → after ≡ broker
  unfolding execute_batch
  execute_batch-err hash orders p at broker {x} {after} e = commit-err broker _ x after e

  module _ (laws : DecimalLaws fl dc) where
    -- A batch that `execute_batch` carries out changes the position of every ticker by exactly
    -- what the orders say. The order IDs are distinct, there is one fill for each order, in their
    -- order, and the cash is not negative. The shares and costs of the broker are dicts.
    pub execute_batch-ok :
        (hash : ℕ → Quote fl dc → ℕ → ℕ) (orders : List (Order fl)) (p : RiskPolicy fl) (at : ℕ)
        (broker : Broker fl dc) (t : ℕ) {fills : List (Fill fl)} {after : Broker fl dc}
        → IsDict broker.shares
        → IsDict broker.average_costs
        → execute_batch fl dc hash orders p at broker ≡ (returned fills, after)
        → (position t after.shares ≡ position t broker.shares +ℤ net_quantity t orders)
          × (all_distinct (order_ids orders) ≡ true)
          × (fill_order_ids fills ≡ order_ids orders)
          × (dc.lt after.cash dc.zero ≡ false)
    unfolding execute_batch start_batch committed
    execute_batch-ok hash orders p at broker t {fills} {after} h k e =
        let (b, run, cash, paid, same) = commit-ok broker _ fills after e in
        let (dicts, held, apart, distinct, (fs, adds, ids)) =
          execute_orders-Filled hash p at _ _ orders (start_batch fl dc broker) t {b' = b} (h, k)
            run in
        subst
          (λ (a : Broker fl dc).
            (position t a.shares ≡ position t broker.shares +ℤ net_quantity t orders)
            × (all_distinct (order_ids orders) ≡ true)
            × (fill_order_ids fills ≡ order_ids orders)
            × (dc.lt a.cash dc.zero ≡ false))
          same
          (
            held,
            distinct,
            ap fill_order_ids (sym paid ∙ adds) ∙ ids,
            laws.quantize_nonneg b.cash cash,
          )
