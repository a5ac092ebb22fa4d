-- ===== src/Tests/Inputs.antt =====
-- A catalog, a plant and a year of data, for the examples.
use mathlib.Core.Path.{subst}
use ghg_tool.Prelude.{◌≡◌, refl, true, false, String, none, some, List, [], ◌∷◌}
use ghg_tool.Prelude.Text.{upper, replace_code, find_codes, codes_eq, upper_code}
use ghg_tool.Decimal.{Decimal, dec, eq_dec, le_dec}
use ghg_tool.Domain.Emission.{mem}
use ghg_tool.Domain.Factor.{FactorRecord, FactorCatalogPort, require_factor}
use ghg_tool.Domain.Gwp.{GwpTablePort, gwp_set_table, or_key_error, ar6}
use ghg_tool.Result.{ok}
use ghg_tool.Result.Ensures.{ok-injective}
use ghg_tool.Calc.Helpers.{or_zero, Scope1Row, Scope2Row, Scope3Row}
use ghg_tool.Calc.Orchestrator.{CalcRunInputs}
use ghg_tool.Calc.Scope2.MarketBased.{is_go, checker_of, default_go_evidence_check}
use ghg_tool.Calc.Returns.{IsReady}
use ghg_tool.Calc.Returns.Run.{IsGood}

abbrev pub factor_of : String → FactorRecord
factor_of id = record {
  factor_id = id;
  version = "2025";
  value = some (dec 4397 4);
  unit = "kg";
  source = "test";
  gwp_set = "AR6";
  biogenic_co2_kg_per_unit = none;
  vintage = none;
  applicability_note = none;
  is_tbc = false;
  is_licence_only = false;
  factor_db_id = none;
}

abbrev pub catalog : FactorCatalogPort
catalog = record {
  get = λ id gwp_set vintage. ok (factor_of id);
  get_biogenic_share = λ id gwp_set. some (dec 5 1);
}

abbrev pub table : GwpTablePort
table = gwp_set_table ar6

abbrev pub draws : Decimal → List Decimal
draws pe = []

abbrev pub gas_row : Scope1Row
gas_row = record {
  id = 1;
  codice_sito = "IT01";
  anno = 2024;
  categoria_s1 = "Combustione";
  combustibile = "GAS_NAT";
  quantita = dec 1000 0;
}

abbrev pub clay_row : Scope1Row
clay_row = record {
  id = 2;
  codice_sito = "IT01";
  anno = 2024;
  categoria_s1 = "Processo_Decarb";
  combustibile = "CACO3";
  quantita = dec 12 0;
}

abbrev pub go_row : Scope2Row
go_row = record {
  id = 3;
  codice_sito = "IT01";
  anno = 2024;
  voce_s2 = "Energia";
  strumento_mb = some "GO_GSE";
  quantita = dec 500 0;
}

abbrev pub grid_row : Scope2Row
grid_row = record {
  id = 4;
  codice_sito = "IT01";
  anno = 2024;
  voce_s2 = "Energia";
  strumento_mb = none;
  quantita = dec 700 0;
}

abbrev pallet_row : Scope3Row
pallet_row = record {
  id = 5;
  anno = 2024;
  categoria_s3 = 1;
  sottocategoria = "Pallet legno";
  quantita = dec 40 0;
}

abbrev tile_row : Scope3Row
tile_row = record {
  id = 6;
  anno = 2024;
  categoria_s3 = 12;
  sottocategoria = "Piastrelle";
  quantita = dec 9000 0;
}

abbrev pub inputs : CalcRunInputs
inputs = record {
  correlation_id = 77;
  anno = 2024;
  sites = "IT01" ∷ "IT02" ∷ [];
  scope1_rows = gas_row ∷ clay_row ∷ [];
  scope2_rows = go_row ∷ grid_row ∷ [];
  scope3_rows = pallet_row ∷ tile_row ∷ [];
  created_by = "analyst";
  regulatory_stream = "CSRD_ESRS_E1";
  go_evidence = none;
}

pub ready : IsReady catalog table "CSRD_ESRS_E1"
unfolding require_factor gwp_set_table or_key_error find_codes codes_eq upper upper_code
    replace_code mem eq_dec le_dec
ready = record {
  factor = λ id _. (factor_of id, refl, refl);
  share = λ id. refl;
  co2 = (dec 1 0, refl, refl);
  ch4 = (dec 279 1, refl, refl);
  n2o = (dec 273 0, refl, refl);
  process = λ f e.
      subst (λ (g : FactorRecord). eq_dec (or_zero g.value) (dec 4397 4) ≡ true)
        (ok-injective (factor_of "STOICH_CACO3_IPCC_2006") f e) refl;
  known_stream = refl;
  known_set = refl;
}

pub good : IsGood inputs
unfolding checker_of is_go default_go_evidence_check
good = record {
  scope1 = (refl, (refl, tt));
  scope2 = (refl, (refl, tt));
  scope3 = (refl, (refl, tt));
  backed = (refl, (refl, tt));
}
