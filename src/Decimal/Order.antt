-- ===== src/Decimal/Order.antt =====
-- The order of values: a total preorder, and how it meets the signs.
use native.Mathlib.Nat.{
  pow-zero, pow-suc, add-zero, add-suc, mul-lt-mul_of_pos_left, mul-le-mul_left,
  le_of_mul-le-mul_left, pow-le-pow_right,
}
use Prim.Native.Nat.{max}
use ghg_tool.Prelude.{
  zero, suc, sym, ap, ◌∙◌, ℕ, ◌+◌, ◌-◌, ◌*◌, ◌^◌, ◌≤◌, ◌<◌, ◌≡◌, ◌⊎◌, inl, inr, Bool, true, false,
  not, some, arith, leb, leb→le, le→leb, Bool-cases,
}
use ghg_tool.Decimal.Defs.{
  Decimal, above, below, nought, differ, le_dec, prec, num_digits, scaled, fix, add_signed, negate,
  common, sticky, quotient, divide, ◌+ᵈ◌, ◌-ᵈ◌, ◌*ᵈ◌,
}
use ghg_tool.Decimal.Sign.{num_digits-zero}

pub pow-pos : (s : ℕ) → 0 < 10 ^ s
pow-pos s = pow-le-pow_right {n = 10} (omega arith) {i = 0} {j = s} (omega arith)

-- a / p <= b / q and b / q <= c / r give a / p <= c / r, on the parts above and below zero.
cross_trans :
    (u l p v m q w n r : ℕ)
    → 0 < q
    → u * q + m * p ≤ v * p + l * q
    → v * r + n * q ≤ w * q + m * r
    → u * r + n * p ≤ w * p + l * r
cross_trans u l p v m q w n r h a b =
    le_of_mul-le-mul_left {k = q} (omega (arith, mul-le-mul_left r a, mul-le-mul_left p b)) h

-- The order of the values, as a statement.
infix 50 ◌≤ᵈ◌
abbrev pub ◌≤ᵈ◌ : Decimal → Decimal → Type 0
a ≤ᵈ b =
    above a * 10 ^ b.scale + below b * 10 ^ a.scale
    ≤ above b * 10 ^ a.scale + below a * 10 ^ b.scale

pub ≤ᵈ-of_le_dec : (a b : Decimal) → le_dec a b ≡ true → a ≤ᵈ b
unfolding le_dec
≤ᵈ-of_le_dec a b h = leb→le _ _ h

pub le_dec-of_≤ᵈ : (a b : Decimal) → a ≤ᵈ b → le_dec a b ≡ true
unfolding le_dec
le_dec-of_≤ᵈ a b h = le→leb _ _ h

pub le_dec_refl : (a : Decimal) → le_dec a a ≡ true
le_dec_refl a = le_dec-of_≤ᵈ a a (omega arith)

gt_of_le_dec : (a b : Decimal) → le_dec a b ≡ false → b ≤ᵈ a
unfolding le_dec
gt_of_le_dec a b h = ground arith

pub le_dec_total : (a b : Decimal) → le_dec a b ≡ false → le_dec b a ≡ true
le_dec_total a b h = le_dec-of_≤ᵈ b a (gt_of_le_dec a b h)

pub le_dec_trans : (a b c : Decimal) → le_dec a b ≡ true → le_dec b c ≡ true → le_dec a c ≡ true
le_dec_trans a b c h k = le_dec-of_≤ᵈ a c (
    cross_trans (above a) (below a) (10 ^ a.scale) (above b) (below b) (10 ^ b.scale) (above c)
      (below c) (10 ^ c.scale) (pow-pos b.scale) (≤ᵈ-of_le_dec a b h) (≤ᵈ-of_le_dec b c k))

-- The value is zero or less.
abbrev pub IsNonpos : Decimal → Type 0
IsNonpos x = above x ≡ 0

minus_or_zero : (x : Decimal) → IsNonpos x → (x.neg ≡ true) ⊎ (x.coeff ≡ 0)
minus_or_zero x h = ground arith

scaled-IsNonpos : (n : Bool) (c up down : ℕ) → (n ≡ true) ⊎ (c ≡ 0) → IsNonpos (scaled n c up down)
unfolding scaled
scaled-IsNonpos n c up down h = ground arith

pub fix-IsNonpos : (x : Decimal) → IsNonpos x → IsNonpos (fix x)
unfolding fix
fix-IsNonpos x h = elim (minus_or_zero x h) [
  | inl minus ↦ elim (Bool-cases (leb (num_digits x.coeff) prec)) [
    | inl short ↦ rw short h
    | inr long ↦ rw long (scaled-IsNonpos _ _ _ _ (inl minus))
  ]
  | inr empty ↦ ground (arith, num_digits-zero)
]

pow-add : (s t : ℕ) → 10 ^ (s + t) ≡ 10 ^ s * 10 ^ t
pow-add s zero = rw (add-zero, pow-zero) (omega arith)
pow-add s (suc t) = rw (add-suc, pow-suc 10 (s + t), pow-suc 10 t, pow-add s t) (omega arith)

pow-max : (s t : ℕ) → 10 ^ (max s t - s) * 10 ^ s ≡ 10 ^ max s t
pow-max s t = sym (pow-add (max s t - s) s) ∙ ap (λ (n : ℕ). 10 ^ n) (omega arith)

pow-max_comm : (s t : ℕ) → 10 ^ (max t s - t) * 10 ^ t ≡ 10 ^ max s t
pow-max_comm s t = sym (pow-add (max t s - t) t) ∙ ap (λ (n : ℕ). 10 ^ n) (omega arith)

-- Cross-multiplied coefficients compare as those brought to the larger scale.
cancel : (x y p q m k n : ℕ) → 0 < p → 0 < q → k * p ≡ m → n * q ≡ m → x * q ≤ y * p → x * k ≤ y * n
cancel x y p q m k n hp hq ek en h =
    le_of_mul-le-mul_left {k = p * q}
      (omega
        (arith, mul-le-mul_left m h, ap (λ (t : ℕ). x * q * t) ek, ap (λ (t : ℕ). y * p * t) en))
      (grind (arith, mul-lt-mul_of_pos_left hq hp))

-- What makes a signed sum zero or less: the first term is at most the second, sign reversed.
abbrev SignedLe : Bool → ℕ → Bool → ℕ → Type 0
SignedLe false a false b = a + b ≡ 0
SignedLe false a true b = a ≤ b
SignedLe true a false b = b ≤ a
SignedLe true a true b = Unit

add_signed-IsNonpos : (m n : Bool) (a b s : ℕ) → SignedLe m a n b → IsNonpos (add_signed m a n b s)
unfolding add_signed
add_signed-IsNonpos false false a b s h = ground arith
add_signed-IsNonpos false true a b s h = ground arith
add_signed-IsNonpos true false a b s h = ground arith
add_signed-IsNonpos true true a b s h = ground arith

common_signed :
    (m n : Bool) (x y s t : ℕ)
    → record { neg = m; coeff = x; scale = s } ≤ᵈ record { neg = n; coeff = y; scale = t }
    → SignedLe m (x * 10 ^ (max s t - s)) (not n) (y * 10 ^ (max t s - t))
common_signed false false x y s t h =
    cancel x y (10 ^ s) (10 ^ t) (10 ^ max s t) (10 ^ (max s t - s)) (10 ^ (max t s - t))
      (pow-pos s) (pow-pos t) (pow-max s t) (pow-max_comm s t) (omega arith)
common_signed false true x y s t h = omega (
  arith,
  cancel x 0 (10 ^ s) (10 ^ t) (10 ^ max s t) (10 ^ (max s t - s)) (10 ^ (max t s - t)) (pow-pos s)
      (pow-pos t) (pow-max s t) (pow-max_comm s t) (omega arith),
  cancel y 0 (10 ^ t) (10 ^ s) (10 ^ max t s) (10 ^ (max t s - t)) (10 ^ (max s t - s)) (pow-pos t)
      (pow-pos s) (pow-max t s) (pow-max_comm t s) (omega arith),
)
common_signed true false x y s t h = tt
common_signed true true x y s t h =
    cancel y x (10 ^ t) (10 ^ s) (10 ^ max t s) (10 ^ (max t s - t)) (10 ^ (max s t - s))
      (pow-pos t) (pow-pos s) (pow-max t s) (pow-max_comm t s) (omega arith)

-- A difference a - b with a <= b is zero or less.
pub -ᵈ-IsNonpos : (a b : Decimal) → le_dec a b ≡ true → IsNonpos (a -ᵈ b)
unfolding ◌-ᵈ◌ ◌+ᵈ◌ negate
-ᵈ-IsNonpos a b h =
    fix-IsNonpos (add_signed a.neg (common a b) (not b.neg) (common b a) (max a.scale b.scale)) (
      add_signed-IsNonpos a.neg (not b.neg) (common a b) (common b a) (max a.scale b.scale)
        (common_signed a.neg b.neg a.coeff b.coeff a.scale b.scale (≤ᵈ-of_le_dec a b h)))

-- The sign of a product or a quotient of a value that is zero or less by one that is not negative.
signed_nonpos :
    (x : Decimal) (n : Bool) (c : ℕ)
    → IsNonpos x
    → n ≡ false
    → (differ x.neg n ≡ true) ⊎ (x.coeff * c ≡ 0)
signed_nonpos x n c h e = elim (minus_or_zero x h) [
  | inl minus ↦ inl (rw (minus, e))
  | inr empty ↦ inr (rw empty (omega arith))
]

pub *ᵈ-IsNonpos : (a b : Decimal) → IsNonpos a → b.neg ≡ false → IsNonpos (a *ᵈ b)
unfolding ◌*ᵈ◌
*ᵈ-IsNonpos a b h e =
    fix-IsNonpos
      (record { neg = differ a.neg b.neg; coeff = a.coeff * b.coeff; scale = a.scale + b.scale })
      (ground (arith, signed_nonpos a b.neg b.coeff h e))

sticky-zero : (n d : ℕ) → n ≡ 0 → sticky n d ≡ 0
unfolding sticky
sticky-zero n d h = rw h (ground arith)

pub quotient-IsNonpos : (a b : Decimal) → IsNonpos a → b.neg ≡ false → IsNonpos (quotient a b)
unfolding quotient
quotient-IsNonpos a b h e =
    let up = 10 ^ (num_digits b.coeff + prec + 1 - num_digits a.coeff) in
    let down = 10 ^ (num_digits a.coeff - (num_digits b.coeff + prec + 1)) in
    fix-IsNonpos _ (
      scaled-IsNonpos _ _ _ _ (elim (signed_nonpos a b.neg up h e) [
        | inl minus ↦ inl minus
        | inr empty ↦ inr (sticky-zero (a.coeff * up) (b.coeff * down) empty)
      ]))

-- A value that is zero or less is at most one that is not negative.
pub le_dec-of_signs : (a b : Decimal) → IsNonpos a → b.neg ≡ false → le_dec a b ≡ true
le_dec-of_signs a b h e = le_dec-of_≤ᵈ a b (rw (h, e) (omega arith))

-- A divisor other than zero gives the quotient.
pub divide-eq : (a b : Decimal) → 0 < b.coeff → divide a b ≡ some (quotient a b)
unfolding divide
divide-eq a b h = ground arith

-- The guard `x <= 0` fails exactly where the value is positive: no minus sign, and some digit.
pub positive_of_guard : (x : Decimal) → le_dec x nought ≡ false → (x.neg ≡ false) × (0 < x.coeff)
unfolding le_dec
positive_of_guard x h = ground arith
