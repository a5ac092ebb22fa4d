-- ===== src/Calc/Scope2/MarketBased.antt =====
-- application/calc/scope2_mb.py
pub mod Evidence
use ghg_tool.Prelude.{
  ℕ, Bool, true, false, not, ◌&&◌, ◌||◌, String, Option, none, some, List, [], ◌∷◌, ◌++◌, map,
  str_eq, ◌==◌, if◌then◌else◌, All, ◌≡◌,
}
use ghg_tool.Prelude.Text.{Codes, codes, lower, strip, within, starts, find_codes, first_within}
use ghg_tool.Decimal.{Decimal, dec, nought, eq_dec, ◌*ᵈ◌}
use ghg_tool.Domain.Emission.{EmissionRecord, Note, Piece, text, shown, counted}
use ghg_tool.Domain.Factor.{FactorRecord, FactorCatalogPort, require_factor}
use ghg_tool.Domain.Gwp.{GwpTablePort}
use ghg_tool.Result.{Result, ok, err, go_validation, gather, raise_if, ◌>>=◌, ◌>>◌}
use ghg_tool.Result.Trace.{spread}
use ghg_tool.Result.Ensures.{Ensures}
use ghg_tool.Calc.Helpers.{
  Ctx, Scope2Row, Scope3Row, kg_to_tonne, or_zero, draft, make_emission, one, only_if, if_some,
}
use ghg_tool.Calc.Helpers.Keys.{RowKey, HasKeys, keys_if, keys_some, key_rules}
use ghg_tool.Calc.Helpers.Stamp.{IsOfRun, of_run_rules}

-- GOEvidenceCheck: `is_validated codice_sito anno strumento_mb`
abbrev pub GoEvidenceCheck : Type 0
GoEvidenceCheck = String → ℕ → Option String → Bool

abbrev pub go_zero_id : String
go_zero_id = "MB_GO_ZERO"

abbrev pub residual_id : String
residual_id = "MB_IT_RESIDUAL_AIB_2024"

-- strumento_mb == _GO_INSTRUMENT_LABEL
unfoldable pub is_go : Option String → Bool
is_go none = false
is_go (some s) = str_eq s "GO_GSE"

-- _DefaultGOEvidenceCheck
unfoldable pub default_go_evidence_check : GoEvidenceCheck
unfolding is_go
default_go_evidence_check codice_sito anno strumento_mb = is_go strumento_mb

abbrev pub keys : Scope2Row → List RowKey
keys row = (some row.id, some row.codice_sito, "MB", row.anno) ∷ []

-- str(strumento)
abbrev pub printed : Option String → String
printed none = "None"
printed (some s) = s

-- `_build_mb_record`
unfoldable pub build_mb_record :
    FactorRecord
    → FactorRecord
    → GwpTablePort
    → GoEvidenceCheck
    → Ctx
    → Scope2Row
    → Result EmissionRecord
build_mb_record zero_factor residual_factor gwp checker ctx row =
    let emit = λ (factor : FactorRecord) (tco2e : Decimal) (disclosure : Note).
      let base =
        draft 2 "MB" "market-based" gwp.code (some row.id) (some row.codice_sito) row.anno tco2e
          factor disclosure in
      make_emission ctx (record base { co2_tonne = some tco2e; co2_fossil_tonne = some tco2e }) in
    if is_go row.strumento_mb
    then (do
      raise_if (not (checker row.codice_sito row.anno row.strumento_mb)) go_validation
      emit zero_factor nought (
          text "Scope 2 MB: GO_GSE validated (QC1-QC8 passed); applied factor "
          ∷ text zero_factor.factor_id
          ∷ text " (0 tCO2e/MWh)."
          ∷ []))
    else emit residual_factor (or_zero residual_factor.value *ᵈ row.quantita *ᵈ kg_to_tonne) (
        text "Scope 2 MB: residual mix applied to "
        ∷ shown row.quantita
        ∷ text " kWh (strumento_mb="
        ∷ text (printed row.strumento_mb)
        ∷ text "); factor "
        ∷ text residual_factor.factor_id
        ∷ text "."
        ∷ [])

-- `go_evidence if go_evidence is not None else _DefaultGOEvidenceCheck()`
unfoldable pub checker_of : Option GoEvidenceCheck → GoEvidenceCheck
unfolding default_go_evidence_check
checker_of none = default_go_evidence_check
checker_of (some c) = c

unfoldable pub row_records :
    FactorRecord
    → FactorRecord
    → GwpTablePort
    → GoEvidenceCheck
    → Ctx
    → Scope2Row
    → Result (List EmissionRecord)
row_records zero_factor residual_factor gwp checker ctx row =
    one (build_mb_record zero_factor residual_factor gwp checker ctx row)

unfoldable pub calculate :
    FactorCatalogPort
    → GwpTablePort
    → Option GoEvidenceCheck
    → Ctx
    → List Scope2Row
    → Result (List EmissionRecord)
calculate factors gwp go_evidence ctx rows = do
  zero_factor ← require_factor factors go_zero_id gwp.code none
  residual_factor ← require_factor factors residual_id gwp.code none
  gather (row_records zero_factor residual_factor gwp (checker_of go_evidence) ctx) rows

module _ (factors : FactorCatalogPort) (gwp : GwpTablePort) (go_evidence : Option GoEvidenceCheck)
    (ctx : Ctx) where
  row-IsOfRun :
      (zf rf : FactorRecord) (checker : GoEvidenceCheck) (row : Scope2Row)
      → Ensures (All (IsOfRun ctx gwp.code)) (row_records zf rf gwp checker ctx row)
  unfolding row_records build_mb_record
  row-IsOfRun zf rf checker row = search of_run_rules depth 12

  row-HasKeys :
      (zf rf : FactorRecord) (checker : GoEvidenceCheck) (row : Scope2Row)
      → HasKeys (keys row) (row_records zf rf gwp checker ctx row)
  unfolding row_records build_mb_record
  row-HasKeys zf rf checker row = search key_rules depth 12

  pub calculate-IsOfRun :
      (rows : List Scope2Row)
      → Ensures (All (IsOfRun ctx gwp.code)) (calculate factors gwp go_evidence ctx rows)
  unfolding calculate
  calculate-IsOfRun rows = search (of_run_rules, row-IsOfRun) depth 12

  pub calculate-HasKeys :
      (rows : List Scope2Row)
      → HasKeys (spread keys rows) (calculate factors gwp go_evidence ctx rows)
  unfolding calculate
  calculate-HasKeys rows = search (key_rules, row-HasKeys) depth 12
