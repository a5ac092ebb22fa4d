-- ===== src/Calc/Scope2/MarketBased/Evidence.antt =====
-- Guarantees of origin: a row that names one counts as zero only if the evidence check passes it.
use ghg_tool.Prelude.{
  ◌≡◌, ◌∙◌, refl, ap, Bool, true, not, ◌||◌, String, Option, none, List, [], ◌∷◌, map, All,
  Bool-cases, inl, inr, arith, if◌then◌else◌,
}
use ghg_tool.Decimal.{Decimal, nought, ◌*ᵈ◌}
use ghg_tool.Domain.Emission.{EmissionRecord}
use ghg_tool.Domain.Factor.{FactorRecord, FactorCatalogPort, require_factor}
use ghg_tool.Domain.Gwp.{GwpTablePort}
use ghg_tool.Result.{Result, ok, gather, go_validation}
use ghg_tool.Result.Ensures.{Ensures, Ensures-ok, Ensures-bind, Ensures-raise_if}
use ghg_tool.Result.Trace.{spread, map-gather, All-of_gather}
use ghg_tool.Calc.Helpers.{Ctx, Draft, Scope2Row, kg_to_tonne, or_zero, stamp, make_emission, one}
use ghg_tool.Calc.Helpers.Stamp.{make_emission-eq}
use ghg_tool.Calc.Scope2.MarketBased.{
  GoEvidenceCheck, is_go, go_zero_id, residual_id, build_mb_record, checker_of, row_records,
  calculate,
}

-- The factor that a record was made with, and its amount.
abbrev pub amount : EmissionRecord → String × Decimal
amount e = (e.factor_id, e.tco2e)

module _ (zero_factor residual_factor : FactorRecord) where
  -- The amount owed to a row: nothing for a guarantee of origin, the residual mix for any other.
  abbrev pub owed : Scope2Row → String × Decimal
  owed row =
      if is_go row.strumento_mb
      then (zero_factor.factor_id, nought)
      else (residual_factor.factor_id, or_zero residual_factor.value *ᵈ row.quantita *ᵈ kg_to_tonne)

-- No guarantee of origin, or one whose evidence is validated.
abbrev pub is_backed : GoEvidenceCheck → Scope2Row → Bool
is_backed checker row =
    not (is_go row.strumento_mb) || checker row.codice_sito row.anno row.strumento_mb

make_emission-amount :
    (ctx : Ctx) (d : Draft)
    → Ensures (λ e. amount e ≡ (d.factor.factor_id, d.tco2e)) (make_emission ctx d)
unfolding stamp
make_emission-amount ctx d = record { at = λ e h. ap amount ((make_emission-eq ctx d).at e h) }

one-amount :
    (a : String × Decimal) (m : Result EmissionRecord)
    → Ensures (λ e. amount e ≡ a) m
    → Ensures (λ es. map amount es ≡ a ∷ []) (one m)
unfolding one
one-amount a m h =
    Ensures-bind m (λ e. ok (e ∷ [])) λ e he. Ensures-ok (e ∷ []) (ap (λ b. b ∷ []) (h.at e he))

module _ (zero_factor residual_factor : FactorRecord) (gwp : GwpTablePort)
    (checker : GoEvidenceCheck) (ctx : Ctx) where
  build-amount :
      (row : Scope2Row)
      → Ensures
          (λ e. amount e ≡ owed zero_factor residual_factor row)
          (build_mb_record zero_factor residual_factor gwp checker ctx row)
  unfolding build_mb_record
  build-amount row = elim (Bool-cases (is_go row.strumento_mb)) [
    | inl go ↦ rw go (
        Ensures-raise_if (not (checker row.codice_sito row.anno row.strumento_mb)) go_validation _
          (λ _. make_emission-amount ctx _))
    | inr other ↦ rw other (make_emission-amount ctx _)
  ]

  row-amount :
      (row : Scope2Row)
      → Ensures
          (λ es. map amount es ≡ owed zero_factor residual_factor row ∷ [])
          (row_records zero_factor residual_factor gwp checker ctx row)
  unfolding row_records
  row-amount row = one-amount _ _ (build-amount row)

  row-is_backed :
      (row : Scope2Row) (es : List EmissionRecord)
      → row_records zero_factor residual_factor gwp checker ctx row ≡ ok es
      → is_backed checker row ≡ true
  unfolding row_records build_mb_record one
  row-is_backed row es h = ground arith

spread-map {ℓ κ} :
    {A : Type ℓ} {B : Type κ} (f : A → B) (xs : List A) → spread (λ x. f x ∷ []) xs ≡ map f xs
unfolding spread
spread-map f [] = refl
spread-map f (x ∷ xs) = ap (λ ys. f x ∷ ys) (spread-map f xs)

-- If the market-based calculation returns records for some rows, and the two factors are those that
-- the catalog gives, then every row that names a guarantee of origin passes the evidence check (the
-- one that is given, or else the default, which passes every such row), and the records are, row by
-- row, the amounts owed: zero by the guarantee's factor for a row that names one, and the residual
-- mix times the quantity, in tonnes, for any other.
pub calculate-amounts :
    (catalog : FactorCatalogPort) (gwp : GwpTablePort) (go_evidence : Option GoEvidenceCheck)
    (ctx : Ctx) (rows : List Scope2Row) (zero_factor residual_factor : FactorRecord)
    (es : List EmissionRecord)
    → require_factor catalog go_zero_id gwp.code none ≡ ok zero_factor
    → require_factor catalog residual_id gwp.code none ≡ ok residual_factor
    → calculate catalog gwp go_evidence ctx rows ≡ ok es
    → All (λ row. is_backed (checker_of go_evidence) row ≡ true) rows
      × (map amount es ≡ map (owed zero_factor residual_factor) rows)
unfolding calculate
calculate-amounts catalog gwp go_evidence ctx rows zf rf es hz hr h =
    let checker = checker_of go_evidence in
    let returned : gather (row_records zf rf gwp checker ctx) rows ≡ ok es = rw (hz, hr) at h in
    (
      All-of_gather (λ row. is_backed checker row ≡ true) (row_records zf rf gwp checker ctx)
          (row-is_backed zf rf gwp checker ctx) rows es returned,
      (map-gather amount (row_records zf rf gwp checker ctx) (λ row. owed zf rf row ∷ [])
              (row-amount zf rf gwp checker ctx) rows).at
            es returned
          ∙ spread-map (owed zf rf) rows,
    )
