-- ===== src/Decimal/Defs.antt =====
-- The representation, rounding to the context's precision, and the arithmetic.
use Prim.Native.Nat.{max}
use ghg_tool.Prelude.{
  ℕ, zero, suc, ◌+◌, ◌-◌, ◌*◌, ◌/◌, ◌%◌, ◌^◌, Bool, false, not, ◌&&◌, ◌||◌, Option, none, some,
  List, [], ◌∷◌, ltb, leb, ◌==◌, if◌then◌else◌,
}

-- The value is coeff / 10 ^ scale, negated if `neg`.
pub record Decimal : Type 0 where
  pub neg : Bool
  pub coeff : ℕ
  pub scale : ℕ

abbrev pub prec : ℕ
prec = 28

abbrev pub differ : Bool → Bool → Bool
differ a b = if a then not b else b

-- A literal without a sign: `dec 4397 4` is Decimal("0.4397").
abbrev pub dec : ℕ → ℕ → Decimal
dec c s = record { neg = false; coeff = c; scale = s }

abbrev pub nought : Decimal
nought = dec 0 0

-- Decimal(n)
abbrev pub of_ℕ : ℕ → Decimal
of_ℕ n = dec n 0

-- len(str(n))
unfoldable pub digits_fuel : ℕ → ℕ → ℕ
digits_fuel zero n = 1
digits_fuel (suc f) n = let rest = digits_fuel f (n / 10) in if ltb n 10 then 1 else suc rest

unfoldable pub num_digits : ℕ → ℕ
unfolding digits_fuel
num_digits n = digits_fuel n n

-- c / p to the nearest whole number, a tie to the even one.
unfoldable pub half_even : ℕ → ℕ → ℕ
half_even c p =
    let q = c / p in
    let r = 2 * (c % p) in
    if ltb r p then q else if ltb p r then q + 1 else if q % 2 == 0 then q else q + 1

-- A coefficient and two powers of ten, c * 10 ^ up / 10 ^ down.
unfoldable pub scaled : Bool → ℕ → ℕ → ℕ → Decimal
scaled n c up down =
    if leb up down
    then record { neg = n; coeff = c; scale = down - up }
    else record { neg = n; coeff = c * 10 ^ (up - down); scale = 0 }

-- Rounding of a result to the context's precision.
unfoldable pub fix : Decimal → Decimal
fix x =
    let d = num_digits x.coeff in
    if leb d prec then x else scaled x.neg (half_even x.coeff (10 ^ (d - prec))) (d - prec) x.scale

unfoldable pub negate : Decimal → Decimal
negate x = record x { neg = not x.neg }

-- The coefficients of two numbers brought to their larger scale.
abbrev pub common : Decimal → Decimal → ℕ
common a b = a.coeff * 10 ^ (max a.scale b.scale - a.scale)

-- The sum of two signed magnitudes. An exact difference of zero is +0.
unfoldable pub add_signed : Bool → ℕ → Bool → ℕ → ℕ → Decimal
add_signed m a n b s =
    if (m && n) || (not m && not n)
    then record { neg = m; coeff = a + b; scale = s }
    else if ltb b a
    then record { neg = m; coeff = a - b; scale = s }
    else if ltb a b
    then record { neg = n; coeff = b - a; scale = s }
    else record { neg = false; coeff = 0; scale = s }

infixl 65 ◌+ᵈ◌ ◌-ᵈ◌
infixl 70 ◌*ᵈ◌
unfoldable pub ◌+ᵈ◌ : Decimal → Decimal → Decimal
a +ᵈ b = fix (add_signed a.neg (common a b) b.neg (common b a) (max a.scale b.scale))

unfoldable pub ◌-ᵈ◌ : Decimal → Decimal → Decimal
a -ᵈ b = a +ᵈ negate b

unfoldable pub ◌*ᵈ◌ : Decimal → Decimal → Decimal
a *ᵈ b =
    fix (record { neg = differ a.neg b.neg; coeff = a.coeff * b.coeff; scale = a.scale + b.scale })

-- An inexact quotient that ends in 0 or 5 is moved up by one, so that rounding sees no false tie.
unfoldable pub sticky : ℕ → ℕ → ℕ
sticky n d = let q = n / d in if n % d == 0 then q else if q % 5 == 0 then q + 1 else q

-- The quotient by a divisor other than zero: enough digits for the rounding to be right.
unfoldable pub quotient : Decimal → Decimal → Decimal
quotient a b =
    let want = num_digits b.coeff + prec + 1 in
    let have = num_digits a.coeff in
    let q = sticky (a.coeff * 10 ^ (want - have)) (b.coeff * 10 ^ (have - want)) in
    fix (scaled (differ a.neg b.neg) q (have - want + b.scale) (want - have + a.scale))

-- `a / b`; division by zero raises, here `none`.
unfoldable pub divide : Decimal → Decimal → Option Decimal
divide a b = if b.coeff == 0 then none else some (quotient a b)

-- The parts of a value above and below zero.
abbrev pub above : Decimal → ℕ
above x = if x.neg then 0 else x.coeff

abbrev pub below : Decimal → ℕ
below x = if x.neg then x.coeff else 0

-- `a <= b`, `a < b`, `a == b`: by value.
unfoldable pub le_dec : Decimal → Decimal → Bool
le_dec a b =
    leb (above a * 10 ^ b.scale + below b * 10 ^ a.scale)
      (above b * 10 ^ a.scale + below a * 10 ^ b.scale)

unfoldable pub lt_dec : Decimal → Decimal → Bool
unfolding le_dec
lt_dec a b = not (le_dec b a)

unfoldable pub eq_dec : Decimal → Decimal → Bool
unfolding le_dec
eq_dec a b = le_dec a b && le_dec b a

-- `abs(x)` rounds as every operation does.
unfoldable pub abs_dec : Decimal → Decimal
abs_dec x = fix (record x { neg = false })

-- Sum from the left, as `sum(values, Decimal("0"))` adds.
unfoldable pub sum_from : Decimal → List Decimal → Decimal
sum_from acc [] = acc
sum_from acc (v ∷ vs) = sum_from (acc +ᵈ v) vs
