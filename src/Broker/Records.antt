-- ===== src/Broker/Records.antt =====
-- `Order`, `Fill`, `Position` and the state of the broker.
use aegis_quant.Common.{ℕ, Bool, ◌&&◌, ◌≡◌, refl, ◌⊎◌, inl, inr, Dict, Call}
pub use aegis_quant.Common.{returned, raised, ◌>>=◌, >>=-returned}
use aegis_quant.Common.Int.{ℤ}
use aegis_quant.Num.{FloatOps, DecimalOps}

pub data OrderSide : Type 0 where
  buy sell : OrderSide

pub data SimulationMode : Type 0 where
  replay historical paper : SimulationMode

-- `BrokerError` by its message; `division_by_zero` and `invalid_operation` are exceptions of
-- `Decimal`, `invalid_fill` and `invalid_position` the ValidationErrors of `Fill` and `Position`.
pub data BrokerError : Type 0 where
  duplicate_order : ℕ → BrokerError
  not_whole_shares : BrokerError
  short_sale_denied : ℕ → BrokerError
  division_by_zero : BrokerError
  negative_cash : BrokerError
  missing_mark : ℕ → BrokerError
  non_positive_equity : BrokerError
  missing_cost : ℕ → BrokerError
  invalid_operation : BrokerError
  invalid_fill : BrokerError
  invalid_position : ℕ → BrokerError

abbrev pub Result {ℓ} : Type ℓ → Type ℓ
Result A = Call BrokerError A

module _ (fl : FloatOps) where
  pub record Order : Type 0 where
    pub order_id : ℕ
    pub case_id : ℕ
    pub ticker : ℕ
    pub side : OrderSide
    pub quantity : fl.F
    pub reference_price : fl.F
    pub created_at : ℕ
    pub execution_mode : SimulationMode

  pub record Fill : Type 0 where
    pub fill_id : ℕ
    pub order_id : ℕ
    pub ticker : ℕ
    pub side : OrderSide
    pub quantity : fl.F
    pub price : fl.F
    pub fee : fl.F
    pub slippage : fl.F
    pub filled_at : ℕ
    pub execution_mode : SimulationMode

  pub record Position : Type 0 where
    pub ticker : ℕ
    pub quantity : fl.F
    pub average_cost : fl.F
    pub market_price : fl.F
    pub market_value : fl.F
    pub unrealized_pnl : fl.F
    pub as_of : ℕ

  -- `PositiveFinite` and `NonnegativeFinite`
  unfoldable pub is_positive_finite : fl.F → Bool
  is_positive_finite x = fl.lt fl.zero x && fl.is_finite x

  unfoldable pub is_nonnegative_finite : fl.F → Bool
  is_nonnegative_finite x = fl.le fl.zero x && fl.is_finite x

  -- What the fields of an `Order`, a `Fill` and a `Position` are validated for. (Tickers stand for
  -- normalized texts, and IDs for texts that are not empty.)
  unfoldable pub is_valid_order : Order → Bool
  is_valid_order o = is_positive_finite o.quantity && is_positive_finite o.reference_price

  unfoldable pub is_valid_fill : Fill → Bool
  is_valid_fill f =
      is_positive_finite f.quantity
      && is_positive_finite f.price
      && is_nonnegative_finite f.fee
      && is_nonnegative_finite f.slippage

  unfoldable pub is_valid_position : Position → Bool
  is_valid_position p =
      is_nonnegative_finite p.average_cost
      && is_nonnegative_finite p.market_price
      && fl.is_finite p.quantity
      && fl.is_finite p.market_value
      && fl.is_finite p.unrealized_pnl

  -- `SimBroker`'s fields, which `BrokerState` copies.
  pub record Broker (dc : DecimalOps fl) : Type 0 where
    pub cash : dc.D
    pub shares : Dict ℤ
    pub average_costs : Dict dc.D

pub OrderSide-cases : (s : OrderSide) → (s ≡ buy) ⊎ (s ≡ sell)
OrderSide-cases buy = inl refl
OrderSide-cases sell = inr refl
