-- ===== src/Orders/Build.antt =====
-- `build_orders` (aegis/fund/execution.py).
use aegis_quant.Common.{
  ℕ, none, some, List, [], ◌∷◌, ◌++◌, Dict, lookup, get_or, keys, if◌then◌else◌, Call,
}
pub use aegis_quant.Common.{returned, raised, ◌>>=◌, >>=-returned}
use aegis_quant.Common.Int.{ℤ, pos, ◌-ℤ◌, ltb_ℤ, is_zero, magnitude}
use aegis_quant.Common.Sort.{sort_set}
use aegis_quant.Num.{FloatOps, DecimalOps}
use aegis_quant.Broker.Records.{OrderSide, buy, sell, SimulationMode, Order, is_valid_order}

-- The ValueError of a ticker without a mark, the exception of a division by a mark of zero, and
-- the ValidationError of `Order`.
pub data OrderError : Type 0 where
  missing_mark : ℕ → OrderError
  zero_mark : OrderError
  invalid_order : ℕ → OrderError

abbrev pub Built {ℓ} : Type ℓ → Type ℓ
Built A = Call OrderError A

-- `"buy" if delta > 0 else "sell"`
unfoldable pub side_of : ℤ → OrderSide
side_of delta = if ltb_ℤ (pos 0) delta then buy else sell

module _ (fl : FloatOps) (dc : DecimalOps fl) where
  open dc use {D, mul, div, of_float, to_float, float_of_int, truncate}

  -- What every order of a call shares, and the hash of its ID: `canonical_sha256(payload)[:32]`
  -- of the case, the ticker, the side, the quantity, the mark, the time and the mode.
  pub record Context : Type 0 where
    pub case_id : ℕ
    pub marks : Dict fl.F
    pub equity : D
    pub created_at : ℕ
    pub execution_mode : SimulationMode
    pub hash : ℕ → ℕ → OrderSide → ℕ → D → ℕ → SimulationMode → ℕ

  -- `int((target_value / mark).to_integral_value(rounding=ROUND_DOWN))`
  unfoldable pub target_quantity : Context → Dict fl.F → ℕ → Built ℤ
  target_quantity c final_weights t = elim (lookup t c.marks) [
    | none ↦ raised (missing_mark t)
    | some mark ↦
        elim (div (mul (of_float (get_or fl.zero t final_weights)) c.equity) (of_float mark)) [
          | none ↦ raised zero_mark
          | some shares ↦ returned (truncate shares)
        ]
  ]

  unfoldable pub order_of : Context → ℕ → ℤ → D → Order fl
  order_of c t delta mark = record {
    order_id =
        c.hash c.case_id t (side_of delta) (magnitude delta) mark c.created_at c.execution_mode;
    case_id = c.case_id;
    ticker = t;
    side = side_of delta;
    quantity = float_of_int (magnitude delta);
    reference_price = to_float mark;
    created_at = c.created_at;
    execution_mode = c.execution_mode;
  }

  -- The two lists of the loop: sells, then buys.
  unfoldable pub add_order :
      OrderSide → Order fl → List (Order fl) × List (Order fl) → List (Order fl) × List (Order fl)
  add_order buy o (sells, buys) = (sells, o ∷ buys)
  add_order sell o (sells, buys) = (o ∷ sells, buys)

  -- One ticker: no order if the quantity is as it should be.
  unfoldable pub add_delta :
      Context → ℕ → ℤ → List (Order fl) × List (Order fl) → List (Order fl) × List (Order fl)
  add_delta c t delta lists =
      if is_zero delta
      then lists
      else add_order (side_of delta) (order_of c t delta (of_float (get_or fl.zero t c.marks)))
          lists

  -- `Order(...)` of one ticker, whose validators may raise
  unfoldable pub check_delta : Context → ℕ → ℤ → Built (Unit {0})
  check_delta c t delta =
      if is_zero delta
      then returned tt
      else if is_valid_order fl (order_of c t delta (of_float (get_or fl.zero t c.marks)))
      then returned tt
      else raised (invalid_order t)

  -- The loop, whose lists are in the order of the tickers.
  unfoldable pub build_loop :
      Context → Dict fl.F → Dict ℤ → List ℕ → Built (List (Order fl) × List (Order fl))
  build_loop c final_weights current [] = returned ([], [])
  build_loop c final_weights current (t ∷ ts) = do
    target ← target_quantity c final_weights t
    _ ← check_delta c t (target -ℤ get_or (pos 0) t current)
    rest ← build_loop c final_weights current ts
    returned (add_delta c t (target -ℤ get_or (pos 0) t current) rest)

  unfoldable pub build_orders : Context → Dict fl.F → Dict ℤ → Built (List (Order fl))
  build_orders c final_weights current = do
    lists ← build_loop c final_weights current (sort_set (keys final_weights ++ keys current))
    returned (lists.0 ++ lists.1)
