-- ===== src/Calc/Scope3/BusinessTravel/Interval.antt =====
-- The interval of `_bootstrap_ci`, for whatever draws the generator makes.
use ghg_tool.Prelude.{
  ℕ, zero, suc, ◌<◌, ◌≤◌, ◌≡◌, refl, true, List, [], ◌∷◌, map, length, length-map, get_or, All,
  Bool-cases, inl, inr, arith,
}
use ghg_tool.Prelude.Sort.{sort, IsSorted, All-sort, sort-IsSorted, length-sort}
use ghg_tool.Decimal.{Decimal, nought, eq_dec, le_dec, lt_dec}
use ghg_tool.Decimal.Sign.{IsNonneg, IsNonneg-of_guard}
use ghg_tool.Decimal.Order.{le_dec_total, le_dec_trans, le_dec_refl}
use ghg_tool.Calc.Scope3.BusinessTravel.{clamp, bootstrap_ci}

clamp-IsNonneg : (s : Decimal) → IsNonneg (clamp s)
clamp-IsNonneg s = elim (Bool-cases (lt_dec s nought)) [
  | inl below ↦ rw below refl
  | inr above ↦ rw above (IsNonneg-of_guard s above)
]

All-clamp : (ss : List Decimal) → All IsNonneg (map clamp ss)
All-clamp [] = tt
All-clamp (s ∷ ss) = (clamp-IsNonneg s, All-clamp ss)

get_or-All {κ} :
    (P : Decimal → Type κ) (xs : List Decimal) (i : ℕ)
    → All P xs
    → P nought
    → P (get_or xs i nought)
get_or-All P [] i h n = n
get_or-All P (x ∷ xs) zero h n = h.0
get_or-All P (x ∷ xs) (suc i) h n = get_or-All P xs i h.1 n

get_or-above :
    (x : Decimal) (ys : List Decimal) (j : ℕ)
    → All (λ y. le_dec x y ≡ true) ys
    → j < length ys
    → le_dec x (get_or ys j nought) ≡ true
get_or-above x [] j a l = absurd (omega (arith, l))
get_or-above x (y ∷ ys) zero a l = a.0
get_or-above x (y ∷ ys) (suc j) a l = get_or-above x ys j a.1 (omega (arith, l))

-- Within a sorted list, the element at a later place is no smaller.
get_or-le :
    (xs : List Decimal) (i j : ℕ)
    → IsSorted le_dec xs
    → i ≤ j
    → j < length xs
    → le_dec (get_or xs i nought) (get_or xs j nought) ≡ true
get_or-le [] i j s h k = absurd (omega (arith, k))
get_or-le (x ∷ xs) zero zero s h k = le_dec_refl x
get_or-le (x ∷ xs) zero (suc j) s h k = get_or-above x xs j s.0 (omega (arith, k))
get_or-le (x ∷ xs) (suc i) zero s h k = absurd (omega (arith, h))
get_or-le (x ∷ xs) (suc i) (suc j) s h k =
    get_or-le xs i j s.1 (omega (arith, h)) (omega (arith, k))

-- With 1000 draws the interval's bounds are not negative and the lower is at most the upper.
pub bootstrap_ci-bounds :
    (resample : Decimal → List Decimal) (point_estimate : Decimal)
    → length (resample point_estimate) ≡ 1000
    → IsNonneg (bootstrap_ci resample point_estimate).0
      × IsNonneg (bootstrap_ci resample point_estimate).1
      × (le_dec (bootstrap_ci resample point_estimate).0 (bootstrap_ci resample point_estimate).1
          ≡ true)
unfolding bootstrap_ci
bootstrap_ci-bounds resample pe h =
    let draws = map clamp (resample pe) in
    let nonneg = All-sort le_dec IsNonneg draws (All-clamp (resample pe)) in
    elim (Bool-cases (eq_dec pe nought)) [
      | inl zero_estimate ↦ rw zero_estimate (refl, refl, le_dec_refl nought)
      | inr other ↦ rw other (
        get_or-All IsNonneg (sort le_dec draws) 24 nonneg refl,
        get_or-All IsNonneg (sort le_dec draws) 974 nonneg refl,
        get_or-le (sort le_dec draws) 24 974 (sort-IsSorted le_dec le_dec_total le_dec_trans draws)
            (omega arith) (omega (arith, length-sort le_dec draws, length-map clamp (resample pe))),
      )
    ]
