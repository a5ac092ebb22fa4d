-- ===== src/Prelude/Text.antt =====
-- Text as lists of code points, for the code that walks it. The letters and blanks are those of
-- ASCII: `lower`, `upper` and `strip` leave every other character alone.
use Prim.Native.Nat.{ℕ, ◌+◌, ◌-◌}
use Prim.Native.Char.{code}
use Prim.Native.Nat.{Ordering}
use Prim.Native.String.{String, compare}
use mathlib.Core.Path.{◌≡◌, refl}
use mathlib.Core.Bool.{Bool, true, false, ◌&&◌, ◌||◌}
use mathlib.Core.Option.{Option, none, some}
use mathlib.Core.List.{List, [], ◌∷◌, map, reverse}
use ghg_tool.Prelude.Tests.{leb, ◌==◌, if◌then◌else◌}

abbrev pub Codes : Type 0
Codes = List ℕ

abbrev pub codes : String → Codes
codes String.[] = []
codes (String.◌∷◌ c s) = code c ∷ codes s

lower_code : ℕ → ℕ
lower_code c = if leb b'A' c && leb c b'Z' then c + 32 else c

unfoldable pub upper_code : ℕ → ℕ
upper_code c = if leb b'a' c && leb c b'z' then c - 32 else c

-- s.lower(), s.upper()
unfoldable pub lower : Codes → Codes
unfolding lower_code
lower = map lower_code

unfoldable pub upper : Codes → Codes
unfolding upper_code
upper = map upper_code

is_blank : ℕ → Bool
is_blank c = c == 32 || (leb 9 c && leb c 13) || (leb 28 c && leb c 31)

lstrip : Codes → Codes
unfolding is_blank
lstrip [] = []
lstrip (c ∷ s) = let rest = lstrip s in if is_blank c then rest else c ∷ s

-- s.strip()
unfoldable pub strip : Codes → Codes
unfolding lstrip
strip s = reverse (lstrip (reverse (lstrip s)))

-- s.replace(a, b), on single characters
unfoldable pub replace_code : ℕ → ℕ → Codes → Codes
replace_code a b = map (λ c. if c == a then b else c)

-- a == b
unfoldable pub codes_eq : Codes → Codes → Bool
codes_eq [] [] = true
codes_eq [] (d ∷ t) = false
codes_eq (c ∷ s) [] = false
codes_eq (c ∷ s) (d ∷ t) = c == d && codes_eq s t

-- a < b, by code points
unfoldable pub str_ltb : String → String → Bool
str_ltb a b = elim (compare a b) [ Ordering.lt ↦ true | _ ↦ false ]

-- s.startswith(p)
unfoldable pub starts : Codes → Codes → Bool
starts [] s = true
starts (c ∷ p) [] = false
starts (c ∷ p) (d ∷ s) = c == d && starts p s

-- p in s
unfoldable pub within : Codes → Codes → Bool
unfolding starts
within p [] = starts p []
within p (d ∷ s) = starts p (d ∷ s) || within p s

-- d.get(k) on a literal dictionary
module _ {ℓ} {V : Type ℓ} where
  unfoldable pub find_codes : Codes → List (String × V) → Option V
  unfolding codes_eq
  find_codes k [] = none
  find_codes k ((j, v) ∷ d) = if codes_eq k (codes j) then some v else find_codes k d

-- The value of the first key that the text contains.
module _ {ℓ} {V : Type ℓ} where
  unfoldable pub first_within : Codes → List (String × V) → Option V
  unfolding within
  first_within k [] = none
  first_within k ((j, v) ∷ d) = if within (codes j) k then some v else first_within k d

strip-lower : strip (lower (codes " Voli AZ ")) ≡ codes "voli az"
unfolding strip lower
strip-lower = refl
