-- ===== src/Broker/Step.antt =====
-- One order: what it does to the shares, and the invariant of a long-only book.
use aegis_quant.Common.{
  ℕ, ◌≡◌, refl, ap, subst, ◌∙◌, inl, inr, Bool, true, false, [], ◌∷◌, ◌++◌, Dict, get_or, insert,
  erase, contains, IsDict, insert-IsDict, erase-IsDict, lookup-insert, lookup-erase, if◌then◌else◌,
  ◌==◌, Bool-cases, Option-cases, arith,
}
use aegis_quant.Common.Int.{ℤ, pos, ◌+ℤ◌, ◌-ℤ◌, is_zero, int_laws}
use aegis_quant.Num.{FloatOps, DecimalOps}
use aegis_quant.Risk.Policy.{RiskPolicy}
use aegis_quant.Broker.Records.{
  is_valid_fill, OrderSide, buy, sell, returned, >>=-returned, Order, Fill,
}
use aegis_quant.Broker.Sim.{
  Batch, Quote, quote, average_cost, apply_buy, apply_sell, apply_side, fill_of, add_fill,
  quantity_of, is_whole, execute_order,
}

-- The shares held of a ticker.
abbrev pub position : ℕ → Dict ℤ → ℤ
position t shares = get_or (pos 0) t shares

-- What a filled order adds to the position of its ticker.
abbrev pub signed_quantity : OrderSide → ℕ → ℤ
signed_quantity buy n = pos n
signed_quantity sell n = pos 0 -ℤ pos n

position-insert :
    (k t : ℕ) (n : ℤ) (d : Dict ℤ)
    → position t (insert k n d) ≡ (if t == k then n else position t d)
position-insert k t n d = ground (arith, lookup-insert k t n d)

position-erase-insert :
    (k t : ℕ) (n : ℤ) (d : Dict ℤ)
    → IsDict d
    → is_zero n ≡ true
    → position t (erase k (insert k n d)) ≡ (if t == k then n else position t d)
position-erase-insert k t n d h z =
    ground (arith, lookup-erase k t (insert k n d) (insert-IsDict k n d h), lookup-insert k t n d)

if_add :
    (test : Bool) (a : ℤ) (n : ℕ)
    → (if test then a +ℤ pos n else a) ≡ a +ℤ (if test then pos n else pos 0)
if_add true a n = refl
if_add false a n = omega int_laws

if_sub :
    (test : Bool) (a : ℤ) (n : ℕ)
    → (if test then a -ℤ pos n else a) ≡ a +ℤ (if test then pos 0 -ℤ pos n else pos 0)
if_sub true a n = omega int_laws
if_sub false a n = omega int_laws

module _ (fl : FloatOps) (dc : DecimalOps fl) where
  open dc use {D}

  -- What an order adds to the position of `t`.
  abbrev pub moved : Order fl → ℕ → ℤ
  moved o t = if t == o.ticker then signed_quantity o.side (quantity_of fl dc o) else pos 0

  -- The shares and the costs are dicts.
  abbrev pub AreDicts : Batch fl dc → Type 0
  AreDicts b = IsDict b.shares × IsDict b.average_costs

  -- What a buy or a sale leaves, if it is carried out.
  apply_buy-Moves :
      (k n t : ℕ) (q : Quote fl dc) (b : Batch fl dc) {b' : Batch fl dc}
      → AreDicts b
      → apply_buy fl dc k n q b ≡ returned b'
      → AreDicts b'
        × (position t b'.shares
            ≡ (if t == k then position t b.shares +ℤ pos n else position t b.shares))
        × (b'.fills ≡ b.fills)
        × (b'.seen ≡ b.seen)
  unfolding apply_buy
  apply_buy-Moves k n t q b h e = elim (Option-cases (average_cost fl dc k n q b)) [
    | inl zero_shares ↦ absurd (cc (rw (zero_shares, apply_buy) at e))
    | inr (average, priced) ↦ ground (
      arith,
      insert-IsDict k (position k b.shares +ℤ pos n) b.shares h.0,
      insert-IsDict k average b.average_costs h.1,
      position-insert k t (position k b.shares +ℤ pos n) b.shares,
    )
  ]

  apply_sell-Moves :
      (short : Bool) (k n t : ℕ) (q : Quote fl dc) (b : Batch fl dc) {b' : Batch fl dc}
      → AreDicts b
      → apply_sell fl dc short k n q b ≡ returned b'
      → AreDicts b'
        × (position t b'.shares
            ≡ (if t == k then position t b.shares -ℤ pos n else position t b.shares))
        × (b'.fills ≡ b.fills)
        × (b'.seen ≡ b.seen)
  unfolding apply_sell
  apply_sell-Moves short k n t q b h e = ground (
    arith,
    insert-IsDict k (position k b.shares -ℤ pos n) b.shares h.0,
    erase-IsDict k (insert k (position k b.shares -ℤ pos n) b.shares),
    erase-IsDict k b.average_costs h.1,
    position-erase-insert k t (position k b.shares -ℤ pos n) b.shares h.0,
    position-insert k t (position k b.shares -ℤ pos n) b.shares,
  )

  apply_side-Moves :
      (short : Bool) (side : OrderSide) (k n t : ℕ) (q : Quote fl dc) (b : Batch fl dc)
      {b' : Batch fl dc}
      → AreDicts b
      → apply_side fl dc short side k n q b ≡ returned b'
      → AreDicts b'
        × (position t b'.shares
            ≡ position t b.shares +ℤ (if t == k then signed_quantity side n else pos 0))
        × (b'.fills ≡ b.fills)
        × (b'.seen ≡ b.seen)
  unfolding apply_side
  apply_side-Moves short buy k n t q b h e =
      let (dicts, held, fills, seen) = apply_buy-Moves k n t q b h e in
      (dicts, held ∙ if_add (t == k) (position t b.shares) n, fills, seen)
  apply_side-Moves short sell k n t q b h e =
      let (dicts, held, fills, seen) = apply_sell-Moves short k n t q b h e in
      (dicts, held ∙ if_sub (t == k) (position t b.shares) n, fills, seen)

  -- What one order that is carried out leaves: it was new, its quantity is a positive whole
  -- number, it moves its ticker by that quantity and no other, and it adds its fill.
  abbrev pub Outcome : Order fl → ℕ → Batch fl dc → Batch fl dc → Type 0
  Outcome o t b b' =
      AreDicts b'
      × (position t b'.shares ≡ position t b.shares +ℤ moved o t)
      × (b'.seen ≡ o.order_id ∷ b.seen)
      × (contains o.order_id b.seen ≡ false)
      × (is_whole fl dc (dc.of_float o.quantity) ≡ true)
      × ((f : Fill fl) × (b'.fills ≡ b.fills ++ f ∷ [])
          × (f.order_id ≡ o.order_id)
          × (f.quantity ≡ dc.float_of_int (quantity_of fl dc o)))

  pub add_fill-returned :
      (f : Fill fl) (b : Batch fl dc) {b' : Batch fl dc}
      → add_fill fl dc f b ≡ returned b'
      → record b { fills = b.fills ++ f ∷ [] } ≡ b'
  unfolding add_fill
  add_fill-returned f b e = elim (Bool-cases (is_valid_fill fl f)) [
    | inl good ↦ cc (rw good at e)
    | inr bad ↦ absurd (cc (rw bad at e))
  ]

  pub execute_order-Outcome :
      (hash : ℕ → Quote fl dc → ℕ → ℕ) (p : RiskPolicy fl) (at : ℕ) (fee slip : D) (o : Order fl)
      (b : Batch fl dc) (t : ℕ) {b' : Batch fl dc}
      → AreDicts b
      → execute_order fl dc hash p at fee slip o b ≡ returned b'
      → Outcome o t b b'
  unfolding execute_order fill_of
  execute_order-Outcome hash p at fee slip o b t {b'} h e =
      let n = quantity_of fl dc o in
      let q = quote fl dc fee slip o.side (dc.of_float o.reference_price) n in
      let started = record b { seen = o.order_id ∷ b.seen } in
      elim (Bool-cases (contains o.order_id b.seen)) [
        | inl old ↦ absurd (cc (rw (old, execute_order) at e))
        | inr new ↦ elim (Bool-cases (is_whole fl dc (dc.of_float o.quantity))) [
          | inr broken ↦ absurd (cc (rw (new, broken, execute_order) at e))
          | inl whole ↦
              let (m, run, done) =
                >>=-returned (apply_side fl dc p.allow_shorting o.side o.ticker n q started) _
                  (rw (new, whole, execute_order) at e) in
              let (dicts, held, fills, seen) =
                apply_side-Moves p.allow_shorting o.side o.ticker n t q started {b' = m} h run in
              let f = fill_of fl dc hash at o n q in
              let same = add_fill-returned f m {b' = b'} done in
              subst (Outcome o t b) same
                (dicts, held, seen, new, whole, (f, ap (λ fs. fs ++ f ∷ []) fills, refl, refl))
        ]
      ]
