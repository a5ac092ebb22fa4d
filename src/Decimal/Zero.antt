-- ===== src/Decimal/Zero.antt =====
-- What comes of zero: a number less itself, and what is made of it.
use native.Mathlib.Nat.{zero-mul, zero-div, zero-mod, mul-pos}
use Prim.Native.Nat.{max}
use ghg_tool.Prelude.{ℕ, ◌+◌, ◌-◌, ◌*◌, ◌^◌, ◌<◌, ◌≡◌, refl, Bool, true, false, not, arith}
use ghg_tool.Decimal.Defs.{
  Decimal, differ, scaled, fix, add_signed, negate, common, sticky, quotient, abs_dec, le_dec,
  lt_dec, ◌+ᵈ◌, ◌-ᵈ◌, ◌*ᵈ◌,
}
use ghg_tool.Decimal.Sign.{num_digits-zero}
use ghg_tool.Decimal.Order.{le_dec-of_signs, pow-pos}

abbrev pub IsZero : Decimal → Type 0
IsZero x = x.coeff ≡ 0

pub fix-IsZero : (x : Decimal) → IsZero x → IsZero (fix x)
unfolding fix
fix-IsZero x h = ground (arith, num_digits-zero)

add_signed-opposite : (m : Bool) (a s : ℕ) → IsZero (add_signed m a (not m) a s)
unfolding add_signed
add_signed-opposite true a s = ground arith
add_signed-opposite false a s = ground arith

pub -ᵈ-self : (x : Decimal) → IsZero (x -ᵈ x)
unfolding ◌-ᵈ◌ ◌+ᵈ◌ negate
-ᵈ-self x =
    fix-IsZero (add_signed x.neg (common x x) (not x.neg) (common x x) (max x.scale x.scale))
      (add_signed-opposite x.neg (common x x) (max x.scale x.scale))

pub abs_dec-IsZero : (x : Decimal) → IsZero x → IsZero (abs_dec x)
unfolding abs_dec
abs_dec-IsZero x h = fix-IsZero (record x { neg = false }) h

pub *ᵈ-IsZero : (a b : Decimal) → IsZero a → IsZero (a *ᵈ b)
unfolding ◌*ᵈ◌
*ᵈ-IsZero a b h =
    fix-IsZero
      (record { neg = differ a.neg b.neg; coeff = a.coeff * b.coeff; scale = a.scale + b.scale })
      (rw h (zero-mul b.coeff))

sticky-zero : (d : ℕ) → sticky 0 d ≡ 0
unfolding sticky
sticky-zero d = rw (zero-div d, zero-mod d) refl

scaled-IsZero : (n : Bool) (up down : ℕ) → IsZero (scaled n 0 up down)
unfolding scaled
scaled-IsZero n up down = ground (arith, zero-mul (10 ^ (up - down)))

scaled_quotient :
    (x m d : ℕ) (n : Bool) (up down : ℕ) → x ≡ 0 → IsZero (scaled n (sticky (x * m) d) up down)
scaled_quotient x m d n up down h =
    rw (h, zero-mul m) (rw (sticky-zero d) (scaled-IsZero n up down))

pub quotient-IsZero : (a b : Decimal) → IsZero a → IsZero (quotient a b)
unfolding quotient
quotient-IsZero a b h = fix-IsZero _ (scaled_quotient a.coeff _ _ _ _ _ h)

-- A limit that is not below zero is not exceeded by zero.
pub lt_dec-IsZero : (limit x : Decimal) → limit.neg ≡ false → IsZero x → lt_dec limit x ≡ false
unfolding lt_dec
lt_dec-IsZero limit x h z = rw (le_dec-of_signs x limit (ground arith) h) refl

le-mul_pow : (c k : ℕ) → 0 < c → 0 < c * 10 ^ k
le-mul_pow c k h = grind (arith, mul-pos h (pow-pos k))

-- A limit above zero is not reached by zero.
pub le_dec-IsZero :
    (limit x : Decimal) → limit.neg ≡ false → 0 < limit.coeff → IsZero x → le_dec limit x ≡ false
unfolding le_dec
le_dec-IsZero limit x h p z = ground (arith, le-mul_pow limit.coeff x.scale p)
