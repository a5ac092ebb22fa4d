-- ===== src/Services/Reconciliation/Snapshot.antt =====
-- api/routers/reconciliation.py: the totals that a snapshot freezes.
use mathlib.Core.List.{reverse}
use ghg_tool.Prelude.{
  ℕ, ◌≡◌, refl, Bool, true, not, ◌&&◌, ◌||◌, ap, ◌∙◌, String, List, [], ◌∷◌, map, keep, ◌==◌, arith,
  if◌then◌else◌, All, Bool-cases, inl, inr,
}
use ghg_tool.Prelude.Text.{Codes, codes, starts}
use ghg_tool.Prelude.Every.{every-member, member}
use ghg_tool.Decimal.{Decimal, nought, sum_from, ◌+ᵈ◌}

-- A row's scope, sub-scope and amount; a row of the table always has an amount.
pub record FrozenRow : Type 0 where
  pub scope : ℕ
  pub sub_scope : String
  pub tco2e : Decimal

pub record Totals : Type 0 where
  pub scope1 : Decimal
  pub scope2_lb : Decimal
  pub scope2_mb : Decimal
  pub scope3 : Decimal
  pub biogenic_memo : Decimal

-- s.endswith(p)
unfoldable pub ends : Codes → Codes → Bool
ends p s = starts (reverse p) (reverse s)

-- One turn of the loop.
unfoldable pub add_row : Totals → FrozenRow → Totals
add_row t r =
    if r.scope == 1
    then record t { scope1 = t.scope1 +ᵈ r.tco2e }
    else if r.scope == 2 && ends (codes "_LB") (codes r.sub_scope)
    then record t { scope2_lb = t.scope2_lb +ᵈ r.tco2e }
    else if r.scope == 2 && ends (codes "_MB") (codes r.sub_scope)
    then record t { scope2_mb = t.scope2_mb +ᵈ r.tco2e }
    else if r.scope == 3
    then record t { scope3 = t.scope3 +ᵈ r.tco2e }
    else t

unfoldable pub totals_from : Totals → List FrozenRow → Totals
totals_from t [] = t
totals_from t (r ∷ rs) = totals_from (add_row t r) rs

abbrev zero_totals : Totals
zero_totals = record {
  scope1 = nought;
  scope2_lb = nought;
  scope2_mb = nought;
  scope3 = nought;
  biogenic_memo = nought;
}

-- `_result_totals_by_scope`
unfoldable pub result_totals_by_scope : List FrozenRow → Totals
result_totals_by_scope = totals_from zero_totals

-- The two sub-scopes of Scope 2.
abbrev pub scope2_names : List String
scope2_names = "LB" ∷ "MB" ∷ []

abbrev is_plain : String → Bool
is_plain name = not (ends (codes "_LB") (codes name)) && not (ends (codes "_MB") (codes name))

-- A row of Scope 2 has one of them.
abbrev pub IsNamed : FrozenRow → Type 0
IsNamed r = (not (r.scope == 2) || member r.sub_scope scope2_names) ≡ true

abbrev pub amounts : ℕ → List FrozenRow → List Decimal
amounts scope rows =
    map (λ (r : FrozenRow). r.tco2e) (keep (λ (r : FrozenRow). r.scope == scope) rows)

plain : (name : String) → member name scope2_names ≡ true → is_plain name ≡ true
unfolding ends starts
plain name h = every-member is_plain name scope2_names refl h

abbrev counted : Totals → FrozenRow → Totals
counted t r = record t {
  scope1 = if r.scope == 1 then t.scope1 +ᵈ r.tco2e else t.scope1;
  scope3 = if r.scope == 3 then t.scope3 +ᵈ r.tco2e else t.scope3;
}

add_row-named : (t : Totals) (r : FrozenRow) → IsNamed r → add_row t r ≡ counted t r
unfolding add_row
add_row-named t r h = elim (Bool-cases (r.scope == 2)) [
  | inl two ↦ ground (arith, plain r.sub_scope (ground arith))
  | inr other ↦ ground arith
]

sum-amounts :
    (scope : ℕ) (v : Decimal) (r : FrozenRow) (rs : List FrozenRow)
    → sum_from (if r.scope == scope then v +ᵈ r.tco2e else v) (amounts scope rs)
      ≡ sum_from v (amounts scope (r ∷ rs))
unfolding sum_from
sum-amounts scope v r rs = ground arith

totals_from-sums :
    (t : Totals) (rows : List FrozenRow)
    → All IsNamed rows
    → totals_from t rows ≡ record t {
      scope1 = sum_from t.scope1 (amounts 1 rows);
      scope3 = sum_from t.scope3 (amounts 3 rows);
    }
unfolding totals_from sum_from
totals_from-sums t [] h = refl
totals_from-sums t (r ∷ rs) h =
    ap (λ u. totals_from u rs) (add_row-named t r h.0)
    ∙ totals_from-sums (counted t r) rs h.1
    ∙ rw (sum-amounts 1 t.scope1 r rs, sum-amounts 3 t.scope3 r rs) refl

-- On rows whose Scope 2 sub-scopes are the two that the program stores, LB and MB, the frozen totals of
-- Scope 1 and Scope 3 are the sums of their rows, and both totals of Scope 2 are zero, whatever its
-- rows hold.
pub result_totals_by_scope-sums :
    (rows : List FrozenRow)
    → All IsNamed rows
    → ((result_totals_by_scope rows).scope1 ≡ sum_from nought (amounts 1 rows))
      × ((result_totals_by_scope rows).scope3 ≡ sum_from nought (amounts 3 rows))
      × ((result_totals_by_scope rows).scope2_lb ≡ nought)
      × ((result_totals_by_scope rows).scope2_mb ≡ nought)
unfolding result_totals_by_scope
result_totals_by_scope-sums rows h =
    let sums = totals_from-sums zero_totals rows h in
    (
      ap (λ t. t.scope1) sums,
      ap (λ t. t.scope3) sums,
      ap (λ t. t.scope2_lb) sums,
      ap (λ t. t.scope2_mb) sums,
    )
