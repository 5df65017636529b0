-- ===== src/Broker/Pricing.antt =====
-- Pricing a long-only broker of aegis/brokers/simulated.py, with a mark for every held ticker.
use aegis_quant.Common.{
  ℕ, ◌≡◌, refl, sym, ap, ◌∙◌, ◌⊎◌, inl, inr, true, false, some, List, [], ◌∷◌, map, All, In, Dict,
  lookup, get_or, keys, has_key, ltb, if◌then◌else◌, Bool-cases, Option-cases, arith,
}
use aegis_quant.Common.Int.{ℤ}
use aegis_quant.Common.Sort.{sort_items, insert_item}
use aegis_quant.Num.{FloatOps, DecimalOps}
use aegis_quant.Broker.Records.{
  returned, raised, Result, invalid_operation, invalid_position, is_valid_position, Position,
  Broker,
}
use aegis_quant.Broker.Marks.{
  add_holdings, equity, position_of, checked_position, positions_of, positions,
}
use aegis_quant.Broker.LongOnly.{IsHeld}

module _ {V W : Type 0} where
  -- Every key of the first dict is a key of the second.
  abbrev pub Covered : Dict V → Dict W → Type 0
  Covered d m = All (λ (e : ℕ × V). has_key e.0 m ≡ true) d

  Covered-insert_item :
      (k : ℕ) (v : V) (d : Dict V) (m : Dict W)
      → has_key k m ≡ true
      → Covered d m
      → Covered (insert_item k v d) m
  Covered-insert_item k v [] m p h = (p, tt)
  Covered-insert_item k v (e ∷ d) m p h = elim (Bool-cases (ltb k e.0)) [
    | inl before ↦ rw before (p, h)
    | inr behind ↦ rw behind (h.0, Covered-insert_item k v d m p h.1)
  ]

  Covered-sort_items : (d : Dict V) (m : Dict W) → Covered d m → Covered (sort_items d) m
  Covered-sort_items [] m h = tt
  Covered-sort_items (e ∷ d) m h =
      Covered-insert_item e.0 e.1 (sort_items d) m h.0 (Covered-sort_items d m h.1)

  Covered-of_keys :
      (d : Dict V) (m : Dict W) → ((t : ℕ) → has_key t d ≡ true → has_key t m ≡ true) → Covered d m
  Covered-of_keys [] m h = tt
  Covered-of_keys (e ∷ d) m h =
      (h e.0 (ground arith), Covered-of_keys d m (λ t k. h t (ground arith)))

module _ {V : Type 0} where
  In-insert_item :
      (e : ℕ × V) (k : ℕ) (v : V) (d : Dict V) → In e (insert_item k v d) → (e ≡ (k, v)) ⊎ In e d
  In-insert_item e k v [] h = h
  In-insert_item e k v (f ∷ d) h = elim (Bool-cases (ltb k f.0)) [
    | inl before ↦ rw before at h
    | inr behind ↦ elim (rw behind at h) [
      | inl same ↦ inr (inl same)
      | inr rest ↦ elim (In-insert_item e k v d rest) [
        | inl new ↦ inl new
        | inr old ↦ inr (inr old)
      ]
    ]
  ]

  In-sort_items : (e : ℕ × V) (d : Dict V) → In e (sort_items d) → In e d
  In-sort_items e [] h = h
  In-sort_items e (f ∷ d) h = elim (In-insert_item e f.0 f.1 (sort_items d) h) [
    | inl same ↦ inl same
    | inr rest ↦ inr (In-sort_items e d rest)
  ]

module _ (fl : FloatOps) (dc : DecimalOps fl) where
  open dc use {D}

  -- A holding, with its mark and average cost, whose `Position` is not valid.
  abbrev pub Unmarkable : Dict fl.F → ℕ → Dict D → Dict ℤ → ℕ → Type 0
  Unmarkable marks as_of costs shares t =
      (n : ℤ) × (price : fl.F) × (average : D) × In (t, n) shares
      × (lookup t marks ≡ some price)
      × (lookup t costs ≡ some average)
      × (is_valid_position fl (position_of fl dc as_of t n (dc.of_float price) average) ≡ false)

  -- What `positions` answers: a valid position for each holding, or a complaint about one.
  abbrev pub Marked :
      Dict fl.F → ℕ → Dict D → Dict ℤ → Dict ℤ → Result (List (Position fl)) → Type 0
  Marked marks as_of costs shares listed answer =
      ((ps : List (Position fl)) × (answer ≡ returned ps)
        × (map (λ (p : Position fl). p.ticker) ps ≡ keys listed)
        × All (λ p. is_valid_position fl p ≡ true) ps)
      ⊎ ((t : ℕ) × (answer ≡ raised (invalid_position t)) × Unmarkable marks as_of costs shares t)

  positions_of-Marked :
      (marks : Dict fl.F) (as_of : ℕ) (costs : Dict D) (shares : Dict ℤ)
      → Covered shares marks
      → Covered shares costs
      → Marked marks as_of costs shares shares (positions_of fl dc marks as_of costs shares)
  unfolding positions_of checked_position position_of
  positions_of-Marked marks as_of costs [] h k = inl ([], refl, refl, tt)
  positions_of-Marked marks as_of costs ((t, n) ∷ shares) h k =
      elim (Option-cases (lookup t marks)) [
        | inl unmarked ↦ absurd (cc (rw unmarked at h.0))
        | inr (mark, found) ↦ elim (Option-cases (lookup t costs)) [
          | inl costless ↦ absurd (cc (rw costless at k.0))
          | inr (average, known) ↦
              let p = position_of fl dc as_of t n (dc.of_float mark) average in
              elim (Bool-cases (is_valid_position fl p)) [
                | inr bad ↦ inr (
                  t,
                  rw (found, known, positions_of) (rw bad refl),
                  (n, mark, average, inl refl, found, known, bad),
                )
                | inl good ↦ elim (positions_of-Marked marks as_of costs shares h.1 k.1) [
                  | inl (ps, rest, names, valid) ↦ inl (
                    p ∷ ps,
                    rw (found, known, positions_of) (rw (good, rest) refl),
                    ap (λ ts. t ∷ ts) names,
                    (good, valid),
                  )
                  | inr (u, rest, (m, price, cost, there, priced, costed, bad)) ↦ inr (
                    u,
                    rw (found, known, positions_of) (rw (good, rest) refl),
                    (m, price, cost, inr there, priced, costed, bad),
                  )
                ]
              ]
        ]
      ]

  -- The cash and the marked holdings.
  abbrev pub total_of : Dict fl.F → Dict ℤ → D → D
  total_of marks [] total = total
  total_of marks ((t, n) ∷ shares) total =
      total_of marks shares
        (dc.add total (dc.mul (dc.of_int n) (dc.of_float (get_or fl.zero t marks))))

  add_holdings-ok :
      (marks : Dict fl.F) (shares : Dict ℤ) (total : D)
      → Covered shares marks
      → add_holdings fl dc marks shares total ≡ returned (total_of marks shares total)
  unfolding add_holdings
  add_holdings-ok marks [] total h = refl
  add_holdings-ok marks ((t, n) ∷ shares) total h = elim (Option-cases (lookup t marks)) [
    | inl unmarked ↦ absurd (cc (rw unmarked at h.0))
    | inr (mark, found) ↦
        let priced : get_or fl.zero t marks ≡ mark = rw (found, get_or) refl in
        rw (found, priced, add_holdings)
          (add_holdings-ok marks shares (dc.add total (dc.mul (dc.of_int n) (dc.of_float mark)))
            h.1)
  ]

  -- For a long-only broker and marks that cover what it holds, `positions` returns a valid
  -- position for every held ticker, in the order of the tickers, or raises the validation error of
  -- a held ticker whose position is not valid; it never lacks a mark or an average cost. `equity`
  -- returns the cash and the marked holdings, quantized, or raises if these cannot be quantized.
  pub held_is_priced :
      (marks : Dict fl.F) (as_of : ℕ) (broker : Broker fl dc)
      → IsHeld broker.shares broker.average_costs
      → Covered broker.shares marks
      → Marked marks as_of broker.average_costs broker.shares
          (sort_items broker.shares)
          (positions fl dc marks as_of broker)
        × (equity fl dc marks broker ≡ (
            let total = total_of marks broker.shares broker.cash in
            if dc.can_quantize_cent total
            then returned (dc.quantize_cent total)
            else raised invalid_operation))
  unfolding positions equity
  held_is_priced marks as_of broker h covered =
      let costed =
        Covered-of_keys broker.shares broker.average_costs (λ t k. sym (h.costed t) ∙ k) in
      (
        elim (positions_of-Marked marks as_of broker.average_costs (sort_items broker.shares)
            (Covered-sort_items broker.shares marks covered)
            (Covered-sort_items broker.shares broker.average_costs costed)) [
              | inl listed ↦ inl listed
              | inr (t, raises, (n, price, average, there, priced, costed', bad)) ↦ inr (
                t,
                raises,
                (n, price, average, In-sort_items (t, n) broker.shares there, priced, costed', bad),
              )
            ],
        rw (add_holdings-ok marks broker.shares broker.cash covered) refl,
      )
