-- ===== src/Domain/Emission.antt =====
-- domain/entities/emission_record.py: the emission record and what its construction checks. The
-- default `id` (a fresh uuid4) is not modelled: nothing in the calculations reads it.
pub mod Validity
use ghg_tool.Prelude.{
  ℕ, Bool, true, false, not, ◌&&◌, ◌||◌, String, Option, none, some, List, [], ◌∷◌, str_eq, ◌==◌,
  if◌then◌else◌,
}
use ghg_tool.Decimal.{Decimal, nought, lt_dec}
use ghg_tool.Domain.Factor.{Uuid}
use ghg_tool.Result.{
  Result, ok, err, value_error, negative_emission, invalid_sub_scope, invalid_methodology,
  invalid_regulatory_stream, invalid_gwp_set, naive_timestamp, raise_if, ◌>>=◌, ◌>>◌,
}

-- A `datetime`: an instant, and whether it carries a time zone.
pub record Datetime : Type 0 where
  pub instant : ℕ
  pub aware : Bool

-- A piece of a text built by an f-string. How a number is printed is left open.
pub data Piece : Type 0 where
  text : String → Piece
  shown : Decimal → Piece
  counted : ℕ → Piece

abbrev pub Note : Type 0
Note = List Piece

-- `x in set` on a set of texts
unfoldable pub mem : String → List String → Bool
mem x [] = false
mem x (y ∷ ys) = str_eq x y || mem x ys

-- ALLOWED_SUB_SCOPES
unfoldable pub allowed_sub_scopes : ℕ → List String
allowed_sub_scopes scope =
    if scope == 1
    then "combustion" ∷ "process" ∷ "fugitive" ∷ []
    else if scope == 2
    then "LB" ∷ "MB" ∷ []
    else "Cat1" ∷ "Cat2" ∷ "Cat3_WTT_FUEL" ∷ "Cat3_WTT_ELEC" ∷ "Cat3_TND" ∷ "Cat4" ∷ "Cat5" ∷ "Cat6"
      ∷ "Cat7" ∷ "Cat8_ZERO" ∷ "Cat9" ∷ "Cat10_ZERO" ∷ "Cat11_ZERO" ∷ "Cat12" ∷ "Cat13_ZERO"
      ∷ "Cat14_ZERO" ∷ "Cat15_ZERO" ∷ []

abbrev pub allowed_methodologies : List String
allowed_methodologies =
    "activity-based" ∷ "mass-based" ∷ "spend-based" ∷ "distance-based" ∷ "stoichiometric"
    ∷ "declared-zero" ∷ "location-based" ∷ "market-based" ∷ []

abbrev pub allowed_regulatory_streams : List String
allowed_regulatory_streams = "CSRD_ESRS_E1" ∷ "EU_ETS_PHASE_IV" ∷ []

abbrev pub allowed_gwp_sets : List String
allowed_gwp_sets = "AR6" ∷ "AR5" ∷ []

pub record EmissionRecord : Type 0 where
  pub correlation_id : Uuid
  pub raw_row_id : Option Uuid
  pub scope : ℕ
  pub sub_scope : String
  pub codice_sito : Option String
  pub anno : ℕ
  pub tco2e : Decimal
  pub factor_id : String
  pub factor_version : String
  pub factor_source : String
  pub gwp_set : String
  pub methodology : String
  pub regulatory_stream : String
  pub calc_timestamp : Datetime
  pub created_by : String
  pub co2_tonne : Option Decimal
  pub co2_biogenic_tonne : Option Decimal
  pub co2_fossil_tonne : Option Decimal
  pub ch4_tco2e : Option Decimal
  pub n2o_tco2e : Option Decimal
  pub factor_id_uuid : Option Uuid
  pub valid_from : Option Datetime
  pub valid_to : Option Datetime
  pub superseded_by : Option Uuid
  pub reason_code : Option String
  pub disclosure_notes : Option Note
  pub uncertainty_band_lower : Option Decimal
  pub uncertainty_band_upper : Option Decimal

-- x is not None and x < Decimal("0")
unfoldable pub is_negative : Option Decimal → Bool
is_negative none = false
is_negative (some x) = lt_dec x nought

-- `__post_init__`: the record itself if all checks pass.
unfoldable pub post_init : EmissionRecord → Result EmissionRecord
post_init r = do
  raise_if (not (r.scope == 1 || r.scope == 2 || r.scope == 3)) value_error
  raise_if (lt_dec r.tco2e nought) negative_emission
  raise_if (not (mem r.sub_scope (allowed_sub_scopes r.scope))) invalid_sub_scope
  raise_if (not (mem r.methodology allowed_methodologies)) invalid_methodology
  raise_if (not (mem r.regulatory_stream allowed_regulatory_streams)) invalid_regulatory_stream
  raise_if (not (mem r.gwp_set allowed_gwp_sets)) invalid_gwp_set
  raise_if (not r.calc_timestamp.aware) naive_timestamp
  raise_if (is_negative r.co2_biogenic_tonne) value_error
  raise_if (is_negative r.co2_fossil_tonne) value_error
  ok r
