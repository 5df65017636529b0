-- ===== src/Num.antt =====
-- The floating-point numbers of the program. Python's `float`, its comparisons, `math.isfinite`,
-- `abs`, the operators and `sum` come from the interpreter, so they are the fields of a record
-- that every component over floats takes as its parameter.
mod Ops
mod Decimals
pub mod Laws
pub mod Fixed
pub mod FixedDecimals
pub use Ops.*
pub use Decimals.*
