-- ===== src/Prelude/Sort.antt =====
-- Python's `sorted`: a stable sort, as insertion sort, by a Boolean order on the elements.
use mathlib.Core.Path.{◌≡◌, refl}
use mathlib.Core.Bool.{Bool, true, false}
use mathlib.Core.List.{List, [], ◌∷◌, Perm}
use mathlib.Core.List.Perm
use mathlib.Core.Logic.{inl, inr}
use ghg_tool.Prelude.Tests.{Bool-cases, if◌then◌else◌}
use ghg_tool.Prelude.Lists.{All, length}
use Prim.Native.Nat.{suc}
use native.Mathlib.Omega.{arith}

-- Each element comes, in a given order, before every later one.
abbrev pub InOrder {ℓ} : {A : Type ℓ} → (A → A → Bool) → List A → Type 0
InOrder le [] = Unit
InOrder le (x ∷ xs) = All (λ y. le x y ≡ true) xs × InOrder le xs

module _ {ℓ} {A : Type ℓ} (le : A → A → Bool) where
  unfoldable pub insert : A → List A → List A
  insert x [] = x ∷ []
  insert x (y ∷ ys) = if le x y then x ∷ y ∷ ys else y ∷ insert x ys

  unfoldable pub sort : List A → List A
  unfolding insert
  sort [] = []
  sort (x ∷ xs) = insert x (sort xs)

  abbrev pub IsSorted : List A → Type 0
  IsSorted = InOrder le

  Perm-insert : (x : A) (ys : List A) → Perm (insert x ys) (x ∷ ys)
  unfolding insert
  Perm-insert x [] = Perm.refl (x ∷ [])
  Perm-insert x (y ∷ ys) = elim (Bool-cases (le x y)) [
    | inl small ↦ rw small (Perm.refl (x ∷ y ∷ ys))
    | inr big ↦ rw big (Perm.trans (Perm.cons y (Perm-insert x ys)) (Perm.swap x y ys))
  ]

  pub Perm-sort : (xs : List A) → Perm (sort xs) xs
  unfolding sort
  Perm-sort [] = Perm.refl []
  Perm-sort (x ∷ xs) = Perm.trans (Perm-insert x (sort xs)) (Perm.cons x (Perm-sort xs))

  length-insert : (x : A) (ys : List A) → length (insert x ys) ≡ suc (length ys)
  unfolding insert
  length-insert x [] = refl
  length-insert x (y ∷ ys) = ground (arith, length-insert x ys)

  pub length-sort : (xs : List A) → length (sort xs) ≡ length xs
  unfolding sort
  length-sort [] = refl
  length-sort (x ∷ xs) = omega (arith, length-insert x (sort xs), length-sort xs)

  module _ {κ} (P : A → Type κ) where
    All-insert : (x : A) (ys : List A) → P x → All P ys → All P (insert x ys)
    unfolding insert
    All-insert x [] p h = (p, tt)
    All-insert x (y ∷ ys) p h = elim (Bool-cases (le x y)) [
      | inl small ↦ rw small (p, h)
      | inr big ↦ rw big (h.0, All-insert x ys p h.1)
    ]

    pub All-sort : (xs : List A) → All P xs → All P (sort xs)
    unfolding sort
    All-sort [] h = tt
    All-sort (x ∷ xs) h = All-insert x (sort xs) h.0 (All-sort xs h.1)

  -- Sorting by an order that refines another puts the elements in that other order.
  module _ (coarse : A → A → Bool) (refines : (x y : A) → le x y ≡ true → coarse x y ≡ true)
      (flips : (x y : A) → le x y ≡ false → coarse y x ≡ true)
      (trans : (x y z : A) → coarse x y ≡ true → coarse y z ≡ true → coarse x z ≡ true) where
    All-after :
        (x y : A) (ys : List A)
        → coarse x y ≡ true
        → All (λ z. coarse y z ≡ true) ys
        → All (λ z. coarse x z ≡ true) ys
    All-after x y [] h hs = tt
    All-after x y (z ∷ ys) h hs = (trans x y z h hs.0, All-after x y ys h hs.1)

    insert-InOrder : (x : A) (ys : List A) → InOrder coarse ys → InOrder coarse (insert x ys)
    unfolding insert
    insert-InOrder x [] s = (tt, tt)
    insert-InOrder x (y ∷ ys) s = elim (Bool-cases (le x y)) [
      | inl small ↦ rw small ((refines x y small, All-after x y ys (refines x y small) s.0), s)
      | inr big ↦
          rw big
            (All-insert (λ z. coarse y z ≡ true) x ys (flips x y big) s.0, insert-InOrder x ys s.1)
    ]

    pub sort-InOrder : (xs : List A) → InOrder coarse (sort xs)
    unfolding sort
    sort-InOrder [] = tt
    sort-InOrder (x ∷ xs) = insert-InOrder x (sort xs) (sort-InOrder xs)

  pub sort-IsSorted :
      ((x y : A) → le x y ≡ false → le y x ≡ true)
      → ((x y z : A) → le x y ≡ true → le y z ≡ true → le x z ≡ true)
      → (xs : List A) → IsSorted (sort xs)
  sort-IsSorted = sort-InOrder le (λ x y h. h)
