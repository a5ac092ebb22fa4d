-- ===== src/Calc/Orchestrator/Sigma.antt =====
-- The totals by fuel and year, and by year: each is the sum, from the left, of the quantities of its
-- rows (FR-11).
use ghg_tool.Prelude.{
  All, eq_iff, ℕ, ◌≡◌, refl, Bool, not, ◌&&◌, true, false, String, List, [], ◌∷◌, map, keep, str_eq,
  arith, ◌==◌, inl, inr, Bool-cases, if◌then◌else◌,
}
use ghg_tool.Prelude.Dict.{Dict, Eq, nat_eq, pair_eq, string_eq, lookup, update, lookup-update}
use ghg_tool.Decimal.{Decimal, nought, sum_from}
use ghg_tool.Decimal.Sign.{IsNonneg, +ᵈ-IsNonneg}
use ghg_tool.Calc.Helpers.{Scope1Row, Scope2Row, or_zero}
use ghg_tool.Calc.Scope3.FuelEnergy.{SigmaScope1, SigmaScope2}
use ghg_tool.Calc.Orchestrator.{
  plus_quantity, sigma1_from, sigma2_from, sigma_scope1_from_rows, sigma_scope2_from_rows,
}

-- The row counts towards the total of this fuel and year.
abbrev pub counts_for : String → ℕ → Scope1Row → Bool
counts_for fuel anno row =
    not (str_eq row.categoria_s1 "Processo_Decarb")
    && (str_eq row.combustibile fuel && row.anno == anno)

sigma1_from-lookup :
    (fuel : String) (anno : ℕ) (sigma : SigmaScope1) (rows : List Scope1Row)
    → or_zero (lookup (fuel, anno) (sigma1_from sigma rows))
      ≡ sum_from
          (or_zero (lookup (fuel, anno) sigma))
          (map (λ r. r.quantita) (keep (counts_for fuel anno) rows))
unfolding sigma1_from sum_from
sigma1_from-lookup fuel anno sigma [] = refl
sigma1_from-lookup fuel anno sigma (row ∷ rows) =
    let key : String × ℕ = (row.combustibile, row.anno) in
    let plus = plus_quantity row.quantita in
    ground (
      arith,
      sigma1_from-lookup fuel anno sigma rows,
      sigma1_from-lookup fuel anno (update key plus sigma) rows,
      lookup-update key (fuel, anno) plus sigma,
      eq_iff row.combustibile fuel,
    )

sigma2_from-lookup :
    (anno : ℕ) (sigma : SigmaScope2) (rows : List Scope2Row)
    → or_zero (lookup anno (sigma2_from sigma rows))
      ≡ sum_from
          (or_zero (lookup anno sigma))
          (map (λ r. r.quantita) (keep (λ r. r.anno == anno) rows))
unfolding sigma2_from sum_from
sigma2_from-lookup anno sigma [] = refl
sigma2_from-lookup anno sigma (row ∷ rows) = ground (
  arith,
  sigma2_from-lookup anno (update row.anno (plus_quantity row.quantita) sigma) rows,
  lookup-update row.anno anno (plus_quantity row.quantita) sigma,
)

-- The total of a fuel and a year is the sum, from the left, of the quantities of its rows; the rows
-- of process decarbonation do not count.
pub sigma_scope1-lookup :
    (fuel : String) (anno : ℕ) (rows : List Scope1Row)
    → or_zero (lookup (fuel, anno) (sigma_scope1_from_rows rows))
      ≡ sum_from nought (map (λ r. r.quantita) (keep (counts_for fuel anno) rows))
unfolding sigma_scope1_from_rows lookup
sigma_scope1-lookup fuel anno rows = sigma1_from-lookup fuel anno [] rows

-- The total of a year is the sum, from the left, of the quantities of its rows.
pub sigma_scope2-lookup :
    (anno : ℕ) (rows : List Scope2Row)
    → or_zero (lookup anno (sigma_scope2_from_rows rows))
      ≡ sum_from nought (map (λ r. r.quantita) (keep (λ r. r.anno == anno) rows))
unfolding sigma_scope2_from_rows lookup
sigma_scope2-lookup anno rows = sigma2_from-lookup anno [] rows

All-update :
    {K : Type 0} ⦃e : Eq K⦄ (k : K) (q : Decimal) (d : Dict K Decimal)
    → IsNonneg q
    → All (λ p. IsNonneg p.1) d
    → All (λ p. IsNonneg p.1) (update k (plus_quantity q) d)
unfolding update
All-update k q [] h hs = (+ᵈ-IsNonneg nought q refl h, tt)
All-update ⦃e⦄ k q ((j, v) ∷ d) h hs = elim (Bool-cases (e.beq j k)) [
  | inl same ↦ rw same (+ᵈ-IsNonneg v q hs.0 h, hs.1)
  | inr other ↦ rw other (hs.0, All-update k q d h hs.1)
]

All-if :
    {A : Type 0} (P : A → Type 0) (xs ys : List A) (b : Bool)
    → All P xs
    → All P ys
    → All P (if b then xs else ys)
All-if P xs ys true h k = h
All-if P xs ys false h k = k

sigma1_from-IsNonneg :
    (sigma : SigmaScope1) (rows : List Scope1Row)
    → All (λ p. IsNonneg p.1) sigma
    → All (λ r. IsNonneg r.quantita) rows
    → All (λ p. IsNonneg p.1) (sigma1_from sigma rows)
unfolding sigma1_from
sigma1_from-IsNonneg sigma [] h hs = h
sigma1_from-IsNonneg sigma (row ∷ rows) h hs =
    let key : String × ℕ = (row.combustibile, row.anno) in
    sigma1_from-IsNonneg
      (if str_eq row.categoria_s1 "Processo_Decarb"
        then sigma
        else update key (plus_quantity row.quantita) sigma)
      rows
      (All-if (λ p. IsNonneg p.1) sigma (update key (plus_quantity row.quantita) sigma)
        (str_eq row.categoria_s1 "Processo_Decarb") h (All-update key row.quantita sigma hs.0 h))
      hs.1

sigma2_from-IsNonneg :
    (sigma : SigmaScope2) (rows : List Scope2Row)
    → All (λ p. IsNonneg p.1) sigma
    → All (λ r. IsNonneg r.quantita) rows
    → All (λ p. IsNonneg p.1) (sigma2_from sigma rows)
unfolding sigma2_from
sigma2_from-IsNonneg sigma [] h hs = h
sigma2_from-IsNonneg sigma (row ∷ rows) h hs =
    sigma2_from-IsNonneg (update row.anno (plus_quantity row.quantita) sigma) rows
      (All-update {K = ℕ} row.anno row.quantita sigma hs.0 h) hs.1

pub sigma_scope1-IsNonneg :
    (rows : List Scope1Row)
    → All (λ r. IsNonneg r.quantita) rows
    → All (λ p. IsNonneg p.1) (sigma_scope1_from_rows rows)
unfolding sigma_scope1_from_rows
sigma_scope1-IsNonneg rows = sigma1_from-IsNonneg [] rows tt

pub sigma_scope2-IsNonneg :
    (rows : List Scope2Row)
    → All (λ r. IsNonneg r.quantita) rows
    → All (λ p. IsNonneg p.1) (sigma_scope2_from_rows rows)
unfolding sigma_scope2_from_rows
sigma_scope2-IsNonneg rows = sigma2_from-IsNonneg [] rows tt
