-- ===== src/Calc/Scope3/ZeroLines.antt =====
-- application/calc/scope3_cat11_zero_line.py and scope3_cat_omitted_zero_lines.py
use ghg_tool.Prelude.{ℕ, false, String, none, some, List, [], ◌∷◌, All}
use ghg_tool.Decimal.{nought}
use ghg_tool.Domain.Emission.{EmissionRecord, text}
use ghg_tool.Domain.Factor.{FactorRecord}
use ghg_tool.Domain.Gwp.{GwpTablePort}
use ghg_tool.Result.{Result, gather}
use ghg_tool.Result.Trace.{spread}
use ghg_tool.Result.Ensures.{Ensures}
use ghg_tool.Calc.Helpers.{Ctx, Draft, draft, make_emission, one}
use ghg_tool.Calc.Helpers.Keys.{RowKey, HasKeys, key_rules}
use ghg_tool.Calc.Helpers.Stamp.{IsOfRun, of_run_rules}

-- A declared-zero factor, built on the spot.
abbrev pub synth_factor : (factor_id source rationale gwp_set : String) → FactorRecord
synth_factor factor_id source rationale gwp_set = record {
  factor_id = factor_id;
  version = "2026-05-13";
  value = some nought;
  unit = "tCO2e";
  source = source;
  gwp_set = gwp_set;
  biogenic_co2_kg_per_unit = none;
  vintage = none;
  applicability_note = some rationale;
  is_tbc = false;
  is_licence_only = false;
  factor_db_id = none;
}

abbrev pub cat11_rationale : String
cat11_rationale =
    "Omitted — Immaterial: ceramic tiles are passive products with no operational energy consumption during use phase."

pub record OmittedCategory : Type 0 where
  pub sub_scope : String
  pub rationale : String
  pub factor_id : String

abbrev pub omitted : (sub_scope rationale factor_id : String) → OmittedCategory
omitted sub_scope rationale factor_id = record {
  sub_scope = sub_scope;
  rationale = rationale;
  factor_id = factor_id;
}

-- _OMITTED_CATEGORIES
abbrev pub omitted_categories : List OmittedCategory
omitted_categories =
    omitted "Cat8_ZERO"
      "Cat 8 not applicable — all leased assets, where present, are consolidated within the operational-control boundary and accounted for in Scope 1 and Scope 2."
      "CAT8_ZERO_OMISSION"
    ∷ omitted "Cat10_ZERO"
        "Cat 10 not applicable — finished products (gres porcellanato tiles) undergo no industrial processing between sale and end-use."
        "CAT10_ZERO_OMISSION"
    ∷ omitted "Cat13_ZERO"
        "Cat 13 not applicable — the company is not a lessor of operational assets."
        "CAT13_ZERO_OMISSION"
    ∷ omitted "Cat14_ZERO" "Cat 14 not applicable — the company operates no franchise network."
        "CAT14_ZERO_OMISSION"
    ∷ omitted "Cat15_ZERO"
        "Cat 15 not applicable — the company is a non-financial undertaking and holds no investment portfolio in scope of GHG Protocol Cat 15 (OI-8 closed 2026-05-13)."
        "CAT15_ZERO_OMISSION"
    ∷ []

-- The zero-line of one category.
abbrev pub zero_draft :
    (gwp : GwpTablePort) (anno : ℕ) (sub_scope rationale : String) → FactorRecord → Draft
zero_draft gwp anno sub_scope rationale factor =
    let base =
      draft 3 sub_scope "declared-zero" gwp.code none none anno nought factor
        (text rationale ∷ []) in
    record base {
      co2_tonne = some nought;
      co2_biogenic_tonne = some nought;
      co2_fossil_tonne = some nought;
    }

abbrev pub omitted_keys : ℕ → OmittedCategory → List RowKey
omitted_keys anno c = (none, none, c.sub_scope, anno) ∷ []

module _ (gwp : GwpTablePort) (anno : ℕ) (ctx : Ctx) where
  unfoldable pub calculate_cat11 : Result (List EmissionRecord)
  calculate_cat11 = one (
      make_emission ctx (
        zero_draft gwp anno "Cat11_ZERO" cat11_rationale (
          synth_factor "CAT11_ZERO_OMISSION" "FR-18 / MG-06 declared-zero" cat11_rationale
            gwp.code)))

  unfoldable pub category_records : OmittedCategory → Result (List EmissionRecord)
  category_records c = one (
      make_emission ctx (
        zero_draft gwp anno c.sub_scope c.rationale
          (synth_factor c.factor_id "FR-36 / MG-07 declared-zero" c.rationale gwp.code)))

  unfoldable pub calculate_omitted : Result (List EmissionRecord)
  calculate_omitted = gather category_records omitted_categories

  pub calculate_cat11-IsOfRun : Ensures (All (IsOfRun ctx gwp.code)) calculate_cat11
  unfolding calculate_cat11
  calculate_cat11-IsOfRun = search of_run_rules

  category-IsOfRun :
      (c : OmittedCategory) → Ensures (All (IsOfRun ctx gwp.code)) (category_records c)
  unfolding category_records
  category-IsOfRun c = search of_run_rules

  pub calculate_omitted-IsOfRun : Ensures (All (IsOfRun ctx gwp.code)) calculate_omitted
  unfolding calculate_omitted
  calculate_omitted-IsOfRun = search (of_run_rules, category-IsOfRun)

  pub calculate_cat11-HasKeys : HasKeys ((none, none, "Cat11_ZERO", anno) ∷ []) calculate_cat11
  unfolding calculate_cat11
  calculate_cat11-HasKeys = search key_rules

  category-HasKeys : (c : OmittedCategory) → HasKeys (omitted_keys anno c) (category_records c)
  unfolding category_records
  category-HasKeys c = search key_rules

  pub calculate_omitted-HasKeys :
      HasKeys (spread (omitted_keys anno) omitted_categories) calculate_omitted
  unfolding calculate_omitted
  calculate_omitted-HasKeys = search (key_rules, category-HasKeys)
