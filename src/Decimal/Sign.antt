-- ===== src/Decimal/Sign.antt =====
-- Signs: what is not below zero stays so under every operation.
use Prim.Native.Nat.{max}
use ghg_tool.Prelude.{
  ℕ, ◌+◌, ◌*◌, ◌≡◌, refl, ◌⊎◌, inl, inr, Bool, true, false, List, [], ◌∷◌, arith, All, Bool-cases,
  leb,
}
use ghg_tool.Decimal.Defs.{
  Decimal, differ, nought, below, fix, prec, num_digits, scaled, add_signed, common, ◌+ᵈ◌, ◌*ᵈ◌,
  lt_dec, sum_from, abs_dec,
}

-- The value is zero or more: the sign is plus, or the coefficient is zero.
abbrev pub IsNonneg : Decimal → Type 0
IsNonneg x = below x ≡ 0

-- The guards of the program, `x < Decimal("0")`, decide it.
pub lt_dec-nought : (x : Decimal) → IsNonneg x → lt_dec x nought ≡ false
unfolding lt_dec
lt_dec-nought x h = ground arith

pub IsNonneg-of_guard : (x : Decimal) → lt_dec x nought ≡ false → IsNonneg x
unfolding lt_dec
IsNonneg-of_guard x h = ground arith

scaled-IsNonneg : (n : Bool) (c up down : ℕ) → (n ≡ false) ⊎ (c ≡ 0) → IsNonneg (scaled n c up down)
unfolding scaled
scaled-IsNonneg n c up down h = ground arith

pub num_digits-zero : leb (num_digits 0) prec ≡ true
unfolding num_digits
num_digits-zero = refl

sign_or_zero : (x : Decimal) → IsNonneg x → (x.neg ≡ false) ⊎ (x.coeff ≡ 0)
sign_or_zero x h = ground arith

pub fix-IsNonneg : (x : Decimal) → IsNonneg x → IsNonneg (fix x)
unfolding fix
fix-IsNonneg x h = elim (sign_or_zero x h) [
  | inl plus ↦ elim (Bool-cases (leb (num_digits x.coeff) prec)) [
    | inl short ↦ rw short h
    | inr long ↦ rw long (scaled-IsNonneg _ _ _ _ (inl plus))
  ]
  | inr none_left ↦ ground (arith, num_digits-zero)
]

add_signed-IsNonneg :
    (m n : Bool) (a b s : ℕ)
    → (m ≡ false) ⊎ (a ≡ 0)
    → (n ≡ false) ⊎ (b ≡ 0)
    → IsNonneg (add_signed m a n b s)
unfolding add_signed
add_signed-IsNonneg m n a b s h k = ground arith

sign_or_zero-common : (a b : Decimal) → IsNonneg a → (a.neg ≡ false) ⊎ (common a b ≡ 0)
sign_or_zero-common a b h = elim (sign_or_zero a h) [
  | inl plus ↦ inl plus
  | inr empty ↦ inr (rw empty (omega arith))
]

pub +ᵈ-IsNonneg : (a b : Decimal) → IsNonneg a → IsNonneg b → IsNonneg (a +ᵈ b)
unfolding ◌+ᵈ◌
+ᵈ-IsNonneg a b h k =
    fix-IsNonneg (add_signed a.neg (common a b) b.neg (common b a) (max a.scale b.scale)) (
      add_signed-IsNonneg a.neg b.neg (common a b) (common b a) (max a.scale b.scale)
        (sign_or_zero-common a b h) (sign_or_zero-common b a k))

mul_sign :
    (a b : Decimal)
    → IsNonneg a
    → IsNonneg b
    → (differ a.neg b.neg ≡ false) ⊎ (a.coeff * b.coeff ≡ 0)
mul_sign a b h k = elim (sign_or_zero a h) [
  | inl plus ↦ elim (sign_or_zero b k) [
    | inl plus' ↦ inl (rw (plus, plus'))
    | inr empty ↦ inr (rw empty (omega arith))
  ]
  | inr empty ↦ inr (rw empty (omega arith))
]

pub *ᵈ-IsNonneg : (a b : Decimal) → IsNonneg a → IsNonneg b → IsNonneg (a *ᵈ b)
unfolding ◌*ᵈ◌
*ᵈ-IsNonneg a b h k =
    fix-IsNonneg
      (record { neg = differ a.neg b.neg; coeff = a.coeff * b.coeff; scale = a.scale + b.scale })
      (ground (arith, mul_sign a b h k))

pub abs-IsNonneg : (x : Decimal) → IsNonneg (abs_dec x)
unfolding abs_dec
abs-IsNonneg x = fix-IsNonneg (record x { neg = false }) refl

pub sum_from-IsNonneg :
    (acc : Decimal) (vs : List Decimal)
    → IsNonneg acc
    → All IsNonneg vs
    → IsNonneg (sum_from acc vs)
unfolding sum_from
sum_from-IsNonneg acc [] h hs = h
sum_from-IsNonneg acc (v ∷ vs) h hs =
    sum_from-IsNonneg (acc +ᵈ v) vs (+ᵈ-IsNonneg acc v h hs.0) hs.1
