-- ===== src/Orders/Targets.antt =====
-- The orders are what is missing: carried out, they turn the book into the target book.
use aegis_quant.Common.{
  ℕ, ◌<◌, ◌≡◌, refl, ap, ap₂, subst, sym, ◌∙◌, inl, inr, true, false, none, some, List, [], ◌∷◌,
  ◌++◌, contains, Dict, get_or, keys, IsDict, ◌==◌, ==_iff, ==_refl, Bool-cases, arith,
}
use aegis_quant.Common.Int.{
  ℤ, pos, negsuc, ◌+ℤ◌, ◌-ℤ◌, is_zero, magnitude, +ℤ_assoc, +ℤ_left_comm, zero-+ℤ, +ℤ-zero,
  int_laws,
}
use aegis_quant.Common.Sort.{
  sort_set, sort_items, lookup-sort_items, Ascending, sort_set-Ascending, contains-above,
  contains-sort_set,
}
use aegis_quant.Num.{FloatOps, DecimalOps}
use aegis_quant.Risk.Policy.{RiskPolicy}
use aegis_quant.Broker.Records.{OrderSide, buy, sell, Order, Fill, Broker}
use aegis_quant.Broker.Laws.{DecimalLaws}
use aegis_quant.Broker.Sim.{Quote, quantity_of, execute_batch}
use aegis_quant.Broker.Marks.{quantities}
use aegis_quant.Broker.Step.{position, signed_quantity, moved}
use aegis_quant.Broker.Batches.{net_quantity, execute_batch-ok}
use aegis_quant.Orders.Build.{
  returned, >>=-returned, Context, target_quantity, side_of, order_of, add_order, add_delta,
  check_delta, build_loop, build_orders,
}

-- A signed quantity is its magnitude on its side.
signed_quantity-side_of :
    (d : ℤ) → is_zero d ≡ false → signed_quantity (side_of d) (magnitude d) ≡ d
unfolding side_of ◌-ℤ◌
signed_quantity-side_of (pos n) h = ground arith
signed_quantity-side_of (negsuc n) h = ground arith

cancel : (a n : ℤ) → a +ℤ (n -ℤ a) ≡ n
cancel a n = omega int_laws

is_zero-eq : (d : ℤ) → is_zero d ≡ true → d ≡ pos 0
is_zero-eq d h = ground arith

module _ (fl : FloatOps) (dc : DecimalOps fl) where
  open dc use {D, float_of_int, of_float, to_nat}

  net-append :
      (t : ℕ) (xs ys : List (Order fl))
      → net_quantity fl dc t (xs ++ ys) ≡ net_quantity fl dc t xs +ℤ net_quantity fl dc t ys
  net-append t [] ys = omega int_laws
  net-append t (x ∷ xs) ys =
      ap (λ n. moved fl dc x t +ℤ n) (net-append t xs ys)
      ∙ sym (+ℤ_assoc (moved fl dc x t) (net_quantity fl dc t xs) (net_quantity fl dc t ys))

  -- What two lists of orders move.
  abbrev net_both : ℕ → List (Order fl) × List (Order fl) → ℤ
  net_both t lists = net_quantity fl dc t (lists.0 ++ lists.1)

  net-add_order :
      (side : OrderSide) (t : ℕ) (o : Order fl) (lists : List (Order fl) × List (Order fl))
      → net_both t (add_order fl dc side o lists) ≡ moved fl dc o t +ℤ net_both t lists
  unfolding add_order
  net-add_order buy t o lists =
      net-append t lists.0 (o ∷ lists.1)
      ∙ (+ℤ_left_comm (net_quantity fl dc t lists.0) (moved fl dc o t)
            (net_quantity fl dc t lists.1)
          ∙ ap (λ n. moved fl dc o t +ℤ n) (sym (net-append t lists.0 lists.1)))
  net-add_order sell t o lists = refl

  -- An order of another ticker moves nothing.
  moved-ne : (o : Order fl) (t : ℕ) → (t == o.ticker) ≡ false → moved fl dc o t ≡ pos 0
  moved-ne o t h = rw h

  net-add_delta_ne :
      (c : Context fl dc) (u t : ℕ) (d : ℤ) (lists : List (Order fl) × List (Order fl))
      → (t == u) ≡ false
      → net_both t (add_delta fl dc c u d lists) ≡ net_both t lists
  unfolding add_delta order_of
  net-add_delta_ne c u t d lists h = elim (Bool-cases (is_zero d)) [
    | inl none_missing ↦ rw none_missing
    | inr missing ↦
        let o = order_of fl dc c u d (of_float (get_or fl.zero u c.marks)) in
        rw missing (
          net-add_order (side_of d) t o lists
          ∙ (ap (λ n. n +ℤ net_both t lists) (moved-ne o t h) ∙ zero-+ℤ (net_both t lists)))
  ]

  module _ (laws : DecimalLaws fl dc) where
    net-add_delta_self :
        (c : Context fl dc) (t : ℕ) (d : ℤ) (lists : List (Order fl) × List (Order fl))
        → magnitude d < 9_007_199_254_740_992
        → net_both t lists ≡ pos 0
        → net_both t (add_delta fl dc c t d lists) ≡ d
    unfolding add_delta order_of quantity_of
    net-add_delta_self c t d lists small rest = elim (Bool-cases (is_zero d)) [
      | inl none_missing ↦ rw none_missing (rest ∙ sym (is_zero-eq d none_missing))
      | inr missing ↦
          let o = order_of fl dc c t d (of_float (get_or fl.zero t c.marks)) in
          let alone : moved fl dc o t ≡ d =
            rw (==_refl t)
              (rw (laws.round_trip (magnitude d) small) (signed_quantity-side_of d missing)) in
          rw missing
            (net-add_order (side_of d) t o lists ∙ (ap₂ (λ m n. m +ℤ n) alone rest ∙ +ℤ-zero d))
    ]

    -- A ticker that the loop does not visit is not moved.
    build_loop-other :
        (c : Context fl dc) (ws : Dict fl.F) (current : Dict ℤ) (ts : List ℕ) (t : ℕ)
        {lists : List (Order fl) × List (Order fl)}
        → contains t ts ≡ false
        → build_loop fl dc c ws current ts ≡ returned lists
        → net_both t lists ≡ pos 0
    unfolding build_loop
    build_loop-other c ws current [] t {lists} h e =
        let same : ([], []) ≡ lists = cc in subst (λ l. net_both t l ≡ pos 0) same refl
    build_loop-other c ws current (u ∷ ts) t {lists} h e =
        let (n, wanted, e') = >>=-returned (target_quantity fl dc c ws u) _ e in
        let d = n -ℤ get_or (pos 0) u current in
        let (_, valid, e'') = >>=-returned (check_delta fl dc c u d) _ e' in
        let (rest, looped, e''') = >>=-returned (build_loop fl dc c ws current ts) _ e'' in
        let same : add_delta fl dc c u d rest ≡ lists = cc in
        subst (λ l. net_both t l ≡ pos 0) same
          (net-add_delta_ne c u t d rest (ground arith)
            ∙ build_loop-other c ws current ts t {lists = rest} (ground arith) looped)

    build_loop-target :
        (c : Context fl dc) (ws : Dict fl.F) (current : Dict ℤ) (ts : List ℕ) (t : ℕ) (n : ℤ)
        {lists : List (Order fl) × List (Order fl)}
        → Ascending ts
        → contains t ts ≡ true
        → target_quantity fl dc c ws t ≡ returned n
        → magnitude (n -ℤ position t current) < 9_007_199_254_740_992
        → build_loop fl dc c ws current ts ≡ returned lists
        → net_both t lists ≡ n -ℤ position t current
    unfolding build_loop
    build_loop-target c ws current [] t n asc h wants small e = cc
    build_loop-target c ws current (u ∷ ts) t n {lists} asc h wants small e =
        let (m, wanted, e') = >>=-returned (target_quantity fl dc c ws u) _ e in
        let d = m -ℤ get_or (pos 0) u current in
        let (_, valid, e'') = >>=-returned (check_delta fl dc c u d) _ e' in
        let (rest, looped, e''') = >>=-returned (build_loop fl dc c ws current ts) _ e'' in
        let same : add_delta fl dc c u d rest ≡ lists = cc in
        subst (λ l. net_both t l ≡ n -ℤ position t current) same
          (elim (Bool-cases (t == u)) [
            | inl hit ↦
                let same_ticker = (==_iff t u).0 hit in
                let alone : contains t ts ≡ false =
                  subst (λ v. contains v ts ≡ false) (sym same_ticker)
                    (contains-above u ts asc.0) in
                let wanted' : target_quantity fl dc c ws t ≡ returned m =
                  subst (λ v. target_quantity fl dc c ws v ≡ returned m) (sym same_ticker) wanted in
                let same_target : n ≡ m = cc in
                subst
                  (λ v.
                    net_both t (add_delta fl dc c v (m -ℤ get_or (pos 0) v current) rest)
                    ≡ n -ℤ position t current)
                  same_ticker
                  (subst
                    (λ k.
                      net_both t (add_delta fl dc c t (k -ℤ position t current) rest)
                      ≡ n -ℤ position t current)
                    same_target
                    (net-add_delta_self c t (n -ℤ position t current) rest small
                      (build_loop-other c ws current ts t {lists = rest} alone looped)))
            | inr miss ↦
                net-add_delta_ne c u t d rest miss
                ∙ build_loop-target c ws current ts t n {lists = rest} asc.1 (rw miss at h) wants
                    small looped
          ])

    -- Orders that `build_orders` returns for the positions of a broker, carried out on it, leave
    -- every ticker that has a weight or a position with its target quantity. The difference is
    -- less than 2 ^ 53 shares, and the shares and costs of the broker are dicts.
    pub orders_reach_targets :
        (c : Context fl dc) (ws : Dict fl.F) (broker : Broker fl dc)
        (hash : ℕ → Quote fl dc → ℕ → ℕ) (p : RiskPolicy fl) (at t : ℕ) (n : ℤ)
        {orders : List (Order fl)} {fills : List (Fill fl)} {after : Broker fl dc}
        → IsDict broker.shares
        → IsDict broker.average_costs
        → contains t (keys ws ++ keys (quantities fl dc broker)) ≡ true
        → target_quantity fl dc c ws t ≡ returned n
        → magnitude (n -ℤ position t (quantities fl dc broker)) < 9_007_199_254_740_992
        → build_orders fl dc c ws (quantities fl dc broker) ≡ returned orders
        → execute_batch fl dc hash orders p at broker ≡ (returned fills, after)
        → position t after.shares ≡ n
    unfolding build_orders quantities
    orders_reach_targets c ws broker hash p at t n {orders} {fills} {after} h k named wants small
          made run =
        let current = sort_items broker.shares in
        let names = keys ws ++ keys current in
        let (lists, looped, e) =
          >>=-returned (build_loop fl dc c ws current (sort_set names)) _ made in
        let same : lists.0 ++ lists.1 ≡ orders = cc in
        let (held, _, _, _) =
          execute_batch-ok fl dc laws hash orders p at broker t {fills = fills} {after = after} h k
            run in
        let moved_by : net_quantity fl dc t orders ≡ n -ℤ position t current =
          subst (λ os. net_quantity fl dc t os ≡ n -ℤ position t current) same
            (build_loop-target c ws current (sort_set names) t n {lists = lists}
              (sort_set-Ascending names) (contains-sort_set t names ∙ named) wants small looped) in
        held
        ∙ (ap₂ (λ a b. a +ℤ b)
              (sym (
                ap (λ o. elim o [ none ↦ pos 0 | some m ↦ m ])
                  (lookup-sort_items t broker.shares h)))
              moved_by
            ∙ cancel (position t current) n)
