-- ===== src/Calc/Helpers.antt =====
-- application/calc/_helpers.py: what the sixteen calculation modules share. The raw rows are those
-- of the raw.scope*_ingestions tables, with the columns that the calculations read; `quantita` is a
-- Numeric column, so that `to_decimal` is the identity on it. The clock reading of a run stands for
-- each call of `utc_now`.
pub mod Stamp
pub mod Keys
use ghg_tool.Prelude.{ℕ, Bool, true, String, Option, none, some, List, [], ◌∷◌, if◌then◌else◌}
use ghg_tool.Decimal.{Decimal, dec, nought}
use ghg_tool.Domain.Emission.{Datetime, Note, EmissionRecord, post_init}
use ghg_tool.Domain.Factor.{Uuid, FactorRecord}
use ghg_tool.Result.{Result, ok, ◌>>=◌}

abbrev pub kg_to_tonne : Decimal
kg_to_tonne = dec 1 3

-- `datetime.now(UTC)` at an instant
abbrev pub utc_now : ℕ → Datetime
utc_now t = record { instant = t; aware = true }

-- What all calls of one run share.
pub record Ctx : Type 0 where
  pub correlation_id : Uuid
  pub created_by : String
  pub regulatory_stream : String
  pub clock : ℕ

-- The other arguments of `make_emission`.
pub record Draft : Type 0 where
  pub raw_row_id : Option Uuid
  pub scope : ℕ
  pub sub_scope : String
  pub codice_sito : Option String
  pub anno : ℕ
  pub tco2e : Decimal
  pub factor : FactorRecord
  pub gwp_set : String
  pub methodology : String
  pub calc_timestamp : Option Datetime
  pub co2_tonne : Option Decimal
  pub co2_biogenic_tonne : Option Decimal
  pub co2_fossil_tonne : Option Decimal
  pub ch4_tco2e : Option Decimal
  pub n2o_tco2e : Option Decimal
  pub disclosure_notes : Option Note
  pub uncertainty_band_lower : Option Decimal
  pub uncertainty_band_upper : Option Decimal

-- The required arguments, and `None` for the optional ones.
abbrev pub draft :
    (scope : ℕ) (sub_scope methodology gwp_set : String) (raw_row_id : Option Uuid)
    (codice_sito : Option String) (anno : ℕ) (tco2e : Decimal)
    → FactorRecord
    → Note
    → Draft
draft scope sub_scope methodology gwp_set raw_row_id codice_sito anno tco2e factor notes = record {
  raw_row_id = raw_row_id;
  scope = scope;
  sub_scope = sub_scope;
  codice_sito = codice_sito;
  anno = anno;
  tco2e = tco2e;
  factor = factor;
  gwp_set = gwp_set;
  methodology = methodology;
  calc_timestamp = none;
  co2_tonne = none;
  co2_biogenic_tonne = none;
  co2_fossil_tonne = none;
  ch4_tco2e = none;
  n2o_tco2e = none;
  disclosure_notes = some notes;
  uncertainty_band_lower = none;
  uncertainty_band_upper = none;
}

unfoldable pub or_now : ℕ → Option Datetime → Datetime
or_now t none = utc_now t
or_now t (some d) = d

-- The record that `make_emission` hands to the constructor.
unfoldable pub stamp : Ctx → Draft → EmissionRecord
unfolding or_now
stamp ctx d = record {
  correlation_id = ctx.correlation_id;
  raw_row_id = d.raw_row_id;
  scope = d.scope;
  sub_scope = d.sub_scope;
  codice_sito = d.codice_sito;
  anno = d.anno;
  tco2e = d.tco2e;
  factor_id = d.factor.factor_id;
  factor_version = d.factor.version;
  factor_source = d.factor.source;
  gwp_set = d.gwp_set;
  methodology = d.methodology;
  regulatory_stream = ctx.regulatory_stream;
  calc_timestamp = or_now ctx.clock d.calc_timestamp;
  created_by = ctx.created_by;
  co2_tonne = d.co2_tonne;
  co2_biogenic_tonne = d.co2_biogenic_tonne;
  co2_fossil_tonne = d.co2_fossil_tonne;
  ch4_tco2e = d.ch4_tco2e;
  n2o_tco2e = d.n2o_tco2e;
  factor_id_uuid = d.factor.factor_db_id;
  valid_from = none;
  valid_to = none;
  superseded_by = none;
  reason_code = none;
  disclosure_notes = d.disclosure_notes;
  uncertainty_band_lower = d.uncertainty_band_lower;
  uncertainty_band_upper = d.uncertainty_band_upper;
}

unfoldable pub make_emission : Ctx → Draft → Result EmissionRecord
unfolding stamp
make_emission ctx d = post_init (stamp ctx d)

-- records.append(m)
unfoldable pub one : Result EmissionRecord → Result (List EmissionRecord)
one m = do e ← m; ok (e ∷ [])

-- records.append(m); records.append(n)
unfoldable pub two : Result EmissionRecord → Result EmissionRecord → Result (List EmissionRecord)
two m n = do e ← m; f ← n; ok (e ∷ f ∷ [])

-- `if not b: continue`
unfoldable pub only_if : Bool → Result (List EmissionRecord) → Result (List EmissionRecord)
only_if b m = if b then m else ok []

-- `if o is None: continue`
unfoldable pub if_some {ℓ} :
    {A : Type ℓ} → Option A → (A → Result (List EmissionRecord)) → Result (List EmissionRecord)
if_some none f = ok []
if_some (some a) f = f a

-- `factor.value or Decimal("0")`
abbrev pub or_zero : Option Decimal → Decimal
or_zero none = nought
or_zero (some v) = v

-- The columns that the calculations read.
pub record Scope1Row : Type 0 where
  pub id : Uuid
  pub codice_sito : String
  pub anno : ℕ
  pub categoria_s1 : String
  pub combustibile : String
  pub quantita : Decimal

pub record Scope2Row : Type 0 where
  pub id : Uuid
  pub codice_sito : String
  pub anno : ℕ
  pub voce_s2 : String
  pub strumento_mb : Option String
  pub quantita : Decimal

pub record Scope3Row : Type 0 where
  pub id : Uuid
  pub anno : ℕ
  pub categoria_s3 : ℕ
  pub sottocategoria : String
  pub quantita : Decimal
