-- ===== src/Calc/Scope1/Process.antt =====
-- application/calc/scope1_process.py
use ghg_tool.Prelude.{Bool, not, String, none, some, List, [], ◌∷◌, str_eq, All}
use ghg_tool.Decimal.{dec, eq_dec, ◌*ᵈ◌}
use ghg_tool.Domain.Emission.{EmissionRecord, Note, text}
use ghg_tool.Domain.Factor.{FactorRecord, FactorCatalogPort, require_factor}
use ghg_tool.Domain.Gwp.{GwpTablePort}
use ghg_tool.Result.{Result, value_error, gather, raise_if, ◌>>=◌, ◌>>◌}
use ghg_tool.Result.Trace.{spread}
use ghg_tool.Result.Ensures.{Ensures}
use ghg_tool.Calc.Helpers.{Ctx, Scope1Row, or_zero, draft, make_emission, one, only_if}
use ghg_tool.Calc.Helpers.Keys.{RowKey, HasKeys, keys_if, key_rules}
use ghg_tool.Calc.Helpers.Stamp.{IsOfRun, of_run_rules}

abbrev pub process_factor_id : String
process_factor_id = "STOICH_CACO3_IPCC_2006"

abbrev pub loi_uncertainty_note : Note
loi_uncertainty_note =
    text "Stoichiometric factor 0.4397 tCO2/t CaCO3 (IPCC 2006 V3 Ch.2 §2.5.1.3 Table 2.1). "
    ∷ text "CaCO3 mass estimated via LOI 3.5% method; uncertainty band "
    ∷ text "±10–20% relative (methodology_validation §6.4 / MG-09). "
    ∷ text "Tier-2 XRF / Tier-3 titration upgrade in Year-1 plan."
    ∷ []

-- row.get("categoria_s1") == _PROCESS_CATEGORY_TAG
abbrev pub is_process : Scope1Row → Bool
is_process row = str_eq row.categoria_s1 "Processo_Decarb"

abbrev pub keys : Scope1Row → List RowKey
keys row = keys_if (is_process row) ((some row.id, some row.codice_sito, "process", row.anno) ∷ [])

module _ (gwp : GwpTablePort) (ctx : Ctx) (factor : FactorRecord) where
  unfoldable pub build_record : Scope1Row → Result EmissionRecord
  build_record row = do
    let co2_tonne = or_zero factor.value *ᵈ row.quantita
    gwp_co2 ← gwp.get "CO2"
    let tco2e = co2_tonne *ᵈ gwp_co2
    let base =
        draft 1 "process" "stoichiometric" gwp.code (some row.id) (some row.codice_sito) row.anno
          tco2e factor loi_uncertainty_note
    make_emission ctx (record base { co2_tonne = some co2_tonne })

  unfoldable pub row_records : Scope1Row → Result (List EmissionRecord)
  row_records row = only_if (is_process row) (one (build_record row))

  row-IsOfRun : (row : Scope1Row) → Ensures (All (IsOfRun ctx gwp.code)) (row_records row)
  unfolding row_records build_record
  row-IsOfRun row = search of_run_rules depth 12

  row-HasKeys : (row : Scope1Row) → HasKeys (keys row) (row_records row)
  unfolding row_records build_record
  row-HasKeys row = search key_rules depth 12

-- The factor is looked up, and its value checked, before the rows are read.
unfoldable pub calculate :
    FactorCatalogPort → GwpTablePort → Ctx → List Scope1Row → Result (List EmissionRecord)
calculate factors gwp ctx rows = do
  factor ← require_factor factors process_factor_id gwp.code none
  raise_if (not (eq_dec (or_zero factor.value) (dec 4397 4))) value_error
  gather (row_records gwp ctx factor) rows

module _ (factors : FactorCatalogPort) (gwp : GwpTablePort) (ctx : Ctx)
    (rows : List Scope1Row) where
  pub calculate-IsOfRun : Ensures (All (IsOfRun ctx gwp.code)) (calculate factors gwp ctx rows)
  unfolding calculate
  calculate-IsOfRun = search (of_run_rules, row-IsOfRun) depth 12

  pub calculate-HasKeys : HasKeys (spread keys rows) (calculate factors gwp ctx rows)
  unfolding calculate
  calculate-HasKeys = search (key_rules, row-HasKeys) depth 12
