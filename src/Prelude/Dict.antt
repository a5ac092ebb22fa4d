-- ===== src/Prelude/Dict.antt =====
-- Python dictionaries as association lists in insertion order, over keys with an equality test.
use mathlib.Core.Path.{◌≡◌, refl}
use mathlib.Core.Logic.{◌↔◌}
use mathlib.Core.Bool.{Bool, true, ◌&&◌}
use mathlib.Core.Option.{Option, none, some}
use mathlib.Core.List.{List, [], ◌∷◌}
use Prim.Native.Nat.{ℕ}
use Prim.Native.String.{String}
use native.Mathlib.Omega.{arith}
use text.Mathlib.Text.{◌==◌ as str_eq}
use text.Mathlib.TextEquality.{eq_iff}
use ghg_tool.Prelude.Tests.{◌==◌ as nat_beq, ==_iff, if◌then◌else◌}

pub record Eq {ℓ} (A : Type ℓ) : Type ℓ where
  pub beq : A → A → Bool
  pub beq_iff : (k j : A) → (beq k j ≡ true) ↔ (k ≡ j)

instance abbrev pub nat_eq : Eq ℕ
nat_eq = record { beq = nat_beq; beq_iff = ==_iff }

instance abbrev pub string_eq : Eq String
string_eq = record { beq = str_eq; beq_iff = eq_iff }

abbrev pair_beq {ℓ} : {A B : Type ℓ} → Eq A → Eq B → A × B → A × B → Bool
pair_beq ea eb p q = ea.beq p.0 q.0 && eb.beq p.1 q.1

pub pair_beq_iff {ℓ} :
    {A B : Type ℓ} (ea : Eq A) (eb : Eq B) (p q : A × B) → (pair_beq ea eb p q ≡ true) ↔ (p ≡ q)
pair_beq_iff ea eb (a, b) (c, d) = ground (arith, ea.beq_iff a c, eb.beq_iff b d)

instance abbrev pub pair_eq {ℓ} : {A B : Type ℓ} ⦃ea : Eq A⦄ ⦃eb : Eq B⦄ → Eq (A × B)
pair_eq ⦃ea⦄ ⦃eb⦄ = record { beq = pair_beq ea eb; beq_iff = pair_beq_iff ea eb }

abbrev pub Dict {ℓ κ} : Type ℓ → Type κ → Type (ℓ ⊔ κ)
Dict K V = List (K × V)

module _ {ℓ κ} {K : Type ℓ} {V : Type κ} ⦃e : Eq K⦄ where
  -- d.get(k)
  unfoldable pub lookup : K → Dict K V → Option V
  lookup k [] = none
  lookup k ((j, v) ∷ d) = if e.beq j k then some v else lookup k d

  -- d[k] = f(d.get(k))
  unfoldable pub update : K → (Option V → V) → Dict K V → Dict K V
  update k f [] = (k, f none) ∷ []
  update k f ((j, v) ∷ d) = if e.beq j k then (j, f (some v)) ∷ d else (j, v) ∷ update k f d

  pub lookup-update_self :
      (k : K) (f : Option V → V) (d : Dict K V) → lookup k (update k f d) ≡ some (f (lookup k d))
  unfolding lookup update
  lookup-update_self k f [] = ground (arith, e.beq_iff k k)
  lookup-update_self k f ((j, v) ∷ d) = ground (arith, lookup-update_self k f d)

  pub lookup-update :
      (k i : K) (f : Option V → V) (d : Dict K V)
      → lookup i (update k f d) ≡ (if e.beq k i then some (f (lookup k d)) else lookup i d)
  unfolding lookup update
  lookup-update k i f [] = refl
  lookup-update k i f ((j, v) ∷ d) = ground (
    arith,
    lookup-update k i f d,
    e.beq_iff j k,
    e.beq_iff j i,
    e.beq_iff k i,
    lookup-update_self k f d,
  )
