-- ===== src/Decimal.antt =====
-- Python's `decimal.Decimal` under the default context, as the program uses it: a sign, a
-- coefficient and a scale (the negated exponent), 28 significant digits, ties to even. A positive
-- exponent is written out into the coefficient, so the scale is a natural number and two
-- representations of one value may differ; comparisons are by value, as Python's are. Infinities,
-- NaN and the exponent limits are not modelled: no operation of the program reaches them.
mod Defs
pub mod Sign
pub mod Order
pub mod Zero
unfoldable pub use Defs.*
