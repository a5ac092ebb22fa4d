-- ===== src/Domain/Gwp/Policy.antt =====
-- The policy accepts a list of GWP sets exactly when it is not empty and all of them agree.
use ghg_tool.Prelude.{
  ◌≡◌, refl, ◌∙◌, ◌↔◌, inl, inr, String, List, [], ◌∷◌, arith, All, Bool-cases, str_eq, eq_iff, ◌≢◌,
}
use ghg_tool.Domain.Gwp.{without, distinct, single, assert_single_gwp_set}
use ghg_tool.Result.{ok}

-- Every element is `u`.
abbrev pub AllEq : String → List String → Type 0
AllEq u = All (λ y. y ≡ u)

without-eq-nil : (x : String) (ys : List String) → AllEq x ys → without x ys ≡ []
unfolding without
without-eq-nil x [] h = refl
without-eq-nil x (y ∷ ys) h = rw ((eq_iff y x).1 h.0) (without-eq-nil x ys h.1)

without-AllEq : (u x : String) (ys : List String) → AllEq u ys → AllEq u (without x ys)
unfolding without
without-AllEq u x [] h = tt
without-AllEq u x (y ∷ ys) h = ground (arith, without-AllEq u x ys h.1)

distinct-AllEq : (u : String) (xs : List String) → AllEq u xs → AllEq u (distinct xs)
unfolding distinct
distinct-AllEq u [] h = tt
distinct-AllEq u (x ∷ xs) h = (h.0, without-AllEq u x (distinct xs) (distinct-AllEq u xs h.1))

AllEq-of_without : (u x : String) (ys : List String) → x ≡ u → AllEq u (without x ys) → AllEq u ys
unfolding without
AllEq-of_without u x [] e h = tt
AllEq-of_without u x (y ∷ ys) e h = elim (Bool-cases (str_eq y x)) [
  | inl same ↦ ((eq_iff y x).0 same ∙ e, AllEq-of_without u x ys e (rw same at h))
  | inr other ↦
      let kept : AllEq u (y ∷ without x ys) = rw other at h in
      (kept.0, AllEq-of_without u x ys e kept.1)
]

AllEq-of_distinct : (u : String) (xs : List String) → AllEq u (distinct xs) → AllEq u xs
unfolding distinct
AllEq-of_distinct u [] h = tt
AllEq-of_distinct u (x ∷ xs) h =
    (h.0, AllEq-of_distinct u xs (AllEq-of_without u x (distinct xs) h.0 h.1))

-- A list that agrees on `u` is accepted, and `u` returned.
assert_of_AllEq :
    (u x : String) (xs : List String) → AllEq u (x ∷ xs) → assert_single_gwp_set (x ∷ xs) ≡ ok u
unfolding assert_single_gwp_set distinct
assert_of_AllEq u x xs h = rw (h.0, without-eq-nil u (distinct xs) (distinct-AllEq u xs h.1)) refl

single-eq : (u : String) (ys : List String) → single ys ≡ ok u → ys ≡ u ∷ []
unfolding single
single-eq u [] h = cc
single-eq u (y ∷ []) h = cc
single-eq u (y ∷ z ∷ ys) h = cc

AllEq-of_assert : (u : String) (xs : List String) → assert_single_gwp_set xs ≡ ok u → AllEq u xs
unfolding assert_single_gwp_set
AllEq-of_assert u xs h = AllEq-of_distinct u xs (rw (single-eq u (distinct xs) h) (refl, tt))

-- The policy returns `u` exactly when the list is not empty and every row's set is `u`.
pub assert_single_gwp_set-ok_iff :
    (u : String) (xs : List String) → (assert_single_gwp_set xs ≡ ok u) ↔ ((xs ≢ []) × AllEq u xs)
unfolding assert_single_gwp_set single distinct
assert_single_gwp_set-ok_iff u [] = (λ h. cc, λ h. absurd (h.0 refl))
assert_single_gwp_set-ok_iff u (x ∷ xs) =
    (λ h. (λ e. cc, AllEq-of_assert u (x ∷ xs) h), λ h. assert_of_AllEq u x xs h.1)
