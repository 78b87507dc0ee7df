-- ===== src/Float.antt =====
-- Go's `float64` as the program uses it. The type and its operations are a parameter of the model:
-- every definition takes an instance of `Float`. `IsIeee` states what IEEE 754 says of the
-- operations on finite numbers and of the comparisons, rounding included. `Float/Exact` is the
-- instance of whole numbers, on which binary64 does not round up to 2 ^ 53.
mod Defs
pub mod Exact
pub use Defs.*
