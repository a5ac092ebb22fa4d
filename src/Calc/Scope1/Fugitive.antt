-- ===== src/Calc/Scope1/Fugitive.antt =====
-- application/calc/scope1_fugitive_zero.py
use ghg_tool.Prelude.{ℕ, false, String, none, some, List, [], ◌∷◌, All}
use ghg_tool.Decimal.{nought}
use ghg_tool.Domain.Emission.{EmissionRecord, text}
use ghg_tool.Domain.Factor.{FactorRecord}
use ghg_tool.Domain.Gwp.{GwpTablePort}
use ghg_tool.Result.{Result, gather}
use ghg_tool.Result.Trace.{spread, map-gather}
use ghg_tool.Result.Ensures.{Ensures, Ensures-gather}
use ghg_tool.Calc.Helpers.{Ctx, draft, make_emission, one}
use ghg_tool.Calc.Helpers.Keys.{RowKey, row_key, HasKeys, key_rules}
use ghg_tool.Calc.Helpers.Stamp.{IsOfRun, of_run_rules}

abbrev pub fugitive_rationale : String
fugitive_rationale =
    "FR-35 / MG-18 / OI-10 closure: Closed-loop refrigeration systems; refrigerant top-ups across all 7 sites declared negligible by user 2026-05-13. Zero-line is a disclosure of completeness, not an absence of accounting. Supersedable via FR-21 correction workflow if future inventory data emerges."

-- `_synth_factor_record`
abbrev pub synth_factor_record : String → FactorRecord
synth_factor_record gwp_set = record {
  factor_id = "FUGITIVE_ZERO_OI_10";
  version = "2026-05-13";
  value = some nought;
  unit = "tCO2e";
  source = "OI-10 user confirmation";
  gwp_set = gwp_set;
  biogenic_co2_kg_per_unit = none;
  vintage = none;
  applicability_note = some fugitive_rationale;
  is_tbc = false;
  is_licence_only = false;
  factor_db_id = none;
}

abbrev pub keys : ℕ → String → List RowKey
keys anno site = (none, some site, "fugitive", anno) ∷ []

module _ (gwp : GwpTablePort) (anno : ℕ) (ctx : Ctx) where
  unfoldable pub site_records : String → Result (List EmissionRecord)
  site_records site =
      let base =
        draft 1 "fugitive" "declared-zero" gwp.code none (some site) anno nought
          (synth_factor_record gwp.code) (text fugitive_rationale ∷ []) in
      one (
        make_emission ctx (record base {
          co2_tonne = some nought;
          co2_biogenic_tonne = some nought;
          co2_fossil_tonne = some nought;
        }))

  -- One zero-line per site. The catalog argument is not used.
  unfoldable pub calculate : List String → Result (List EmissionRecord)
  calculate = gather site_records

  site-IsOfRun : (site : String) → Ensures (All (IsOfRun ctx gwp.code)) (site_records site)
  unfolding site_records
  site-IsOfRun site = search of_run_rules

  pub calculate-IsOfRun :
      (sites : List String) → Ensures (All (IsOfRun ctx gwp.code)) (calculate sites)
  unfolding calculate
  calculate-IsOfRun = Ensures-gather site_records site-IsOfRun

  site-HasKeys : (site : String) → HasKeys (keys anno site) (site_records site)
  unfolding site_records
  site-HasKeys site = search key_rules

  pub calculate-HasKeys :
      (sites : List String) → HasKeys (spread (keys anno) sites) (calculate sites)
  unfolding calculate
  calculate-HasKeys = map-gather row_key site_records (keys anno) site-HasKeys
