-- ===== src/Num/Ops.antt =====
-- The operations on floats that the program uses, and the helpers it defines by them.
use aegis_quant.Common.{Bool, not, List, if◌then◌else◌}
use Prim.Native.String.{String}

pub record FloatOps : Type 1 where
  pub F : Type 0
  pub zero : F
  pub half : F
  pub one : F
  -- 1e-12 and 1e-15
  pub tolerance : F
  pub dust : F
  pub add : F → F → F
  pub sub : F → F → F
  pub mul : F → F → F
  pub div : F → F → F
  pub neg : F → F
  pub abs : F → F
  pub lt : F → F → Bool
  pub le : F → F → Bool
  pub eq : F → F → Bool
  pub is_finite : F → Bool
  pub sum : List F → F
  -- the number in a message, `f"{x:.6f}"`
  pub text : F → String

module _ (fl : FloatOps) where
  open fl use {F, lt, eq, zero}

  -- `max(a, b)` and `min(a, b)`, which keep the first of two equal values
  abbrev pub max : F → F → F
  max a b = if lt a b then b else a

  abbrev pub min : F → F → F
  min a b = if lt b a then b else a

  -- `if a`, which a NaN passes
  abbrev pub truthy : F → Bool
  truthy a = not (eq a zero)
