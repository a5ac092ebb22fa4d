-- ===== src/Domain/Factor.antt =====
-- domain/ports/factor_catalog.py: factor records and the catalog port, which is an interface: the
-- calculations take any catalog.
use ghg_tool.Prelude.{ℕ, Bool, String, Option, none, some}
use ghg_tool.Decimal.{Decimal}
use ghg_tool.Result.{Result, ok, err, missing_factor, ◌>>=◌}

-- A UUID is a number that is only compared.
abbrev pub Uuid : Type 0
Uuid = ℕ

pub record FactorRecord : Type 0 where
  pub factor_id : String
  pub version : String
  pub value : Option Decimal
  pub unit : String
  pub source : String
  pub gwp_set : String
  pub biogenic_co2_kg_per_unit : Option Decimal
  pub vintage : Option String
  pub applicability_note : Option String
  pub is_tbc : Bool
  pub is_licence_only : Bool
  pub factor_db_id : Option Uuid

-- `get` takes the factor's id, the GWP set and the vintage year.
pub record FactorCatalogPort : Type 0 where
  pub get : String → String → Option ℕ → Result FactorRecord
  pub get_biogenic_share : String → String → Option Decimal

-- `require_factor` of application/calc/_helpers.py
unfoldable pub require_factor : FactorCatalogPort → String → String → Option ℕ → Result FactorRecord
require_factor catalog factor_id gwp_set vintage_year = do
  factor ← catalog.get factor_id gwp_set vintage_year
  elim factor.value [ none ↦ err (missing_factor factor_id) | some _ ↦ ok factor ]
