-- ===== src/Services/Sbti/Coverage.antt =====
-- api/routers/sbti.py: the actual emissions that a target's trajectory is compared with, of the
-- tenant's active rows. The database's sum is that of Decimal, up to its 28 digits.
use ghg_tool.Prelude.{
  ℕ, ◌≡◌, refl, sym, ap, ◌∙◌, Bool, true, false, not, ◌&&◌, ◌||◌, String, Option, none, some, List,
  [], ◌∷◌, keep, leb, ◌==◌, arith, All, Bool-cases, inl, inr, str_eq,
}
use ghg_tool.Prelude.Dict.{Dict, nat_eq, string_eq, lookup, update}
use ghg_tool.Prelude.Sort.{sort}
use ghg_tool.Prelude.Every.{every, every-member, All-every, lookup-entry, member, or_nothing}
use ghg_tool.Decimal.{Decimal, nought, ◌+ᵈ◌}
use ghg_tool.Domain.Emission.{allowed_sub_scopes, mem}

pub record ConsolidatedRow : Type 0 where
  pub scope : ℕ
  pub sub_scope : String
  pub anno : ℕ
  pub tco2e : Decimal

abbrev scope1 : List String
scope1 = "combustion" ∷ "process" ∷ "fugitive" ∷ []

abbrev scope3 : List String
scope3 =
    "3_cat1" ∷ "3_cat2" ∷ "3_cat3" ∷ "3_cat4" ∷ "3_cat5" ∷ "3_cat6" ∷ "3_cat7" ∷ "3_cat9"
    ∷ "3_cat11" ∷ "3_cat12" ∷ []

abbrev pub scope_map : Dict String (List String)
scope_map =
    ("S1", scope1)
    ∷ ("S2_LB", "2_LB" ∷ [])
    ∷ ("S2_MB", "2_MB" ∷ [])
    ∷ ("S3", scope3)
    ∷ ("S1+S2_LB", "combustion" ∷ "process" ∷ "fugitive" ∷ "2_LB" ∷ [])
    ∷ ("S1+S2_MB", "combustion" ∷ "process" ∷ "fugitive" ∷ "2_MB" ∷ [])
    ∷ ("S1+S2_MB+S3", "combustion" ∷ "process" ∷ "fugitive" ∷ "2_MB" ∷ scope3)
    ∷ []

abbrev year_le : ℕ × Decimal → ℕ × Decimal → Bool
year_le p q = leb p.0 q.0

abbrev plus : Decimal → Option Decimal → Decimal
plus v none = nought +ᵈ v
plus v (some total) = total +ᵈ v

-- SUM(tco2e) ... GROUP BY anno
unfoldable pub sums_from : Dict ℕ Decimal → List ConsolidatedRow → Dict ℕ Decimal
sums_from d [] = d
sums_from d (r ∷ rs) = sums_from (update r.anno (plus r.tco2e) d) rs

-- sub_scope = ANY(:sub_scopes) AND anno BETWEEN :from_year AND :to_year
abbrev pub is_covered : List String → (from_year to_year : ℕ) → ConsolidatedRow → Bool
is_covered sub_scopes from_year to_year r =
    member r.sub_scope sub_scopes && (leb from_year r.anno && leb r.anno to_year)

-- The sub-scopes of a coverage; none where it is unknown, and then no row is covered.
unfoldable pub sub_scopes_of : String → List String
sub_scopes_of scope_coverage = or_nothing (lookup scope_coverage scope_map)

unfoldable pub load_actuals :
    (scope_coverage : String) (from_year to_year : ℕ) → List ConsolidatedRow → Dict ℕ Decimal
load_actuals scope_coverage from_year to_year rows =
    sort year_le
      (sums_from [] (keep (is_covered (sub_scopes_of scope_coverage) from_year to_year) rows))

-- The row's sub-scope is one of those of its scope.
abbrev pub IsAllowed : ConsolidatedRow → Type 0
IsAllowed r = mem r.sub_scope (allowed_sub_scopes r.scope) ≡ true

abbrev names : Bool → List String
names true = allowed_sub_scopes 2
names false = allowed_sub_scopes 3

abbrev is_missing : String → List String → Bool
is_missing name covered = not (member name covered)

mem-member : (x : String) (ys : List String) → mem x ys ≡ member x ys
unfolding mem
mem-member x [] = refl
mem-member x (y ∷ ys) = ap (λ b. str_eq x y || b) (mem-member x ys)

abbrev all_missing : List String → List String → Bool
all_missing these covered = every (λ name. is_missing name covered) these

none_covered :
    (these : List String)
    → all_missing these [] ≡ true
    → every (λ (p : String × List String). all_missing these p.1) scope_map ≡ true
    → (name coverage : String) → member name these ≡ true
    → is_missing name (sub_scopes_of coverage) ≡ true
unfolding sub_scopes_of
none_covered these empty table name coverage h =
    every-member (λ n. is_missing n (sub_scopes_of coverage)) name these
      (lookup-entry (λ k covered. all_missing these covered ≡ true) (λ k. empty) coverage scope_map
        (All-every (λ p. all_missing these p.1) scope_map table))
      h

missing_of :
    (these : List String) (r : ConsolidatedRow) (coverage : String)
    → all_missing these [] ≡ true
    → every (λ (p : String × List String). all_missing these p.1) scope_map ≡ true
    → allowed_sub_scopes r.scope ≡ these
    → IsAllowed r
    → member r.sub_scope (sub_scopes_of coverage) ≡ false
missing_of these r coverage empty table names allowed =
    let named : member r.sub_scope these ≡ true =
      sym (mem-member r.sub_scope these) ∙ ap (mem r.sub_scope) (sym names) ∙ allowed in
    let gone : is_missing r.sub_scope (sub_scopes_of coverage) ≡ true =
      none_covered these empty table r.sub_scope coverage named in
    ground arith

-- No sub-scope of a scope other than the first is covered.
uncovered :
    (r : ConsolidatedRow) (coverage : String)
    → IsAllowed r
    → (r.scope == 1) ≡ false
    → member r.sub_scope (sub_scopes_of coverage) ≡ false
unfolding allowed_sub_scopes
uncovered r coverage allowed other = elim (Bool-cases (r.scope == 2)) [
  | inl two ↦ missing_of (allowed_sub_scopes 2) r coverage refl refl (rw (other, two) refl) allowed
  | inr rest ↦
      missing_of (allowed_sub_scopes 3) r coverage refl refl (rw (other, rest) refl) allowed
]

covered-scope1 :
    (coverage : String) (from_year to_year : ℕ) (rows : List ConsolidatedRow)
    → All IsAllowed rows
    → keep (is_covered (sub_scopes_of coverage) from_year to_year) rows
      ≡ keep
          (is_covered (sub_scopes_of coverage) from_year to_year)
          (keep (λ (r : ConsolidatedRow). r.scope == 1) rows)
covered-scope1 coverage from_year to_year [] h = refl
covered-scope1 coverage from_year to_year (r ∷ rs) h = elim (Bool-cases (r.scope == 1)) [
  | inl one ↦ ground (arith, covered-scope1 coverage from_year to_year rs h.1)
  | inr other ↦
      ground
        (arith, covered-scope1 coverage from_year to_year rs h.1, uncovered r coverage h.0 other)
]

-- On rows whose sub-scopes are those that the emission records have, the actual emissions of every
-- coverage are those of the rows of Scope 1 alone: no row of Scope 2 or Scope 3 is ever counted.
pub load_actuals-scope1 :
    (coverage : String) (from_year to_year : ℕ) (rows : List ConsolidatedRow)
    → All IsAllowed rows
    → load_actuals coverage from_year to_year rows
      ≡ load_actuals coverage from_year to_year (keep (λ (r : ConsolidatedRow). r.scope == 1) rows)
unfolding load_actuals
load_actuals-scope1 coverage from_year to_year rows h =
    ap (λ rs. sort year_le (sums_from [] rs)) (covered-scope1 coverage from_year to_year rows h)
