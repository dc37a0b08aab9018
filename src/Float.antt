-- ===== src/Float.antt =====
-- `float64` and the parts of Go's `math` that the code calls, as an interface: a type with the
-- operations, and the laws of IEEE 754 comparisons that the proofs need.
--
-- The code's constants are whole numbers, or quotients of whole numbers, which `div` rounds as the
-- compiler rounds the literal.
mod Interface
mod Sample
pub use Interface.*
pub use Sample.{Whole, whole, whole_float, Whole-IsIeee}
