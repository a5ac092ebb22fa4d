-- ===== src/Prelude/Every.antt =====
-- Tests of every element of a list or every entry of a dictionary, for tables that are written out.
use mathlib.Core.Path.{◌≡◌, sym, subst}
use mathlib.Core.Logic.{inl, inr}
use mathlib.Core.Bool.{Bool, true, false, ◌&&◌, ◌||◌}
use mathlib.Core.Option.{Option, none, some}
use mathlib.Core.List.{List, [], ◌∷◌}
use Prim.Native.String.{String}
use native.Mathlib.Omega.{arith}
use text.Mathlib.Text.{◌==◌ as str_eq}
use text.Mathlib.TextEquality.{eq_iff}
use ghg_tool.Prelude.Tests.{Bool-cases}
use ghg_tool.Prelude.Lists.{All}
use ghg_tool.Prelude.Dict.{Dict, string_eq, lookup}

abbrev pub or_nothing : {A : Type 0} → Option (List A) → List A
or_nothing none = []
or_nothing (some xs) = xs

abbrev pub every {ℓ} : {A : Type ℓ} → (A → Bool) → List A → Bool
every test [] = true
every test (x ∷ xs) = test x && every test xs

pub All-every {ℓ} :
    {A : Type ℓ} (test : A → Bool) (xs : List A)
    → every test xs ≡ true
    → All (λ x. test x ≡ true) xs
All-every test [] h = tt
All-every test (x ∷ xs) h = (ground arith, All-every test xs (ground arith))

-- What holds of every entry, and of no roles, holds of what is looked up.
module _ {A : Type 0} (P : String → List A → Type 0) (nothing : (k : String) → P k []) where
  pub lookup-entry :
      (k : String) (d : Dict String (List A))
      → All (λ p. P p.0 p.1) d
      → P k (or_nothing (lookup k d))
  unfolding lookup
  lookup-entry k [] h = nothing k
  lookup-entry k ((j, v) ∷ d) h = elim (Bool-cases (str_eq j k)) [
    | inl same ↦ rw same (subst (λ i. P i v) ((eq_iff j k).0 same) h.0)
    | inr other ↦ rw other (lookup-entry k d h.1)
  ]

-- What passes for every text of a list passes for a text that is one of them.
abbrev pub member : String → List String → Bool
member x [] = false
member x (y ∷ ys) = str_eq x y || member x ys

pub every-member :
    (test : String → Bool) (x : String) (ys : List String)
    → every test ys ≡ true
    → member x ys ≡ true
    → test x ≡ true
every-member test x [] h m = ground arith
every-member test x (y ∷ ys) h m = elim (Bool-cases (str_eq x y)) [
  | inl same ↦ subst (λ i. test i ≡ true) (sym ((eq_iff x y).0 same)) (ground arith)
  | inr other ↦ every-member test x ys (ground arith) (ground arith)
]
