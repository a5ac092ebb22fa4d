-- ===== src/Domain/SbtiTarget.antt =====
-- domain/entities/sbti_target.py: an SBTi target and the checks of its construction. Dates are
-- numbers that are never compared here.
use ghg_tool.Prelude.{
  ℕ, ◌<◌, ◌≡◌, Bool, true, false, not, ◌&&◌, String, Option, none, some, List, [], ◌∷◌, arith, leb,
  str_eq,
}
use ghg_tool.Decimal.{Decimal, nought, le_dec, lt_dec}
use ghg_tool.Domain.Emission.{mem}
use ghg_tool.Domain.Factor.{Uuid}
use ghg_tool.Result.{Result, ok, value_error, raise_if, ◌>>◌}

abbrev pub allowed_scopes : List String
allowed_scopes = "S1" ∷ "S2_LB" ∷ "S2_MB" ∷ "S3" ∷ "S1+S2_LB" ∷ "S1+S2_MB" ∷ "S1+S2_MB+S3" ∷ []

abbrev pub allowed_alignment : List String
allowed_alignment = "1.5C" ∷ "WB2C" ∷ "2C" ∷ []

abbrev pub allowed_target_methodologies : List String
allowed_target_methodologies =
    "SBTi_ACA" ∷ "SDA" ∷ "GEVA" ∷ "SBTi_NetZero" ∷ "supplier_engagement" ∷ "custom" ∷ []

abbrev pub allowed_sbti_status : List String
allowed_sbti_status = "none" ∷ "committed" ∷ "targets_set" ∷ "validated" ∷ []

pub record SbtiTarget : Type 0 where
  pub target_id : Uuid
  pub tenant_id : Uuid
  pub name : String
  pub scope_coverage : String
  pub baseline_year : ℕ
  pub baseline_tco2e : Decimal
  pub target_year : ℕ
  pub target_tco2e : Decimal
  pub reduction_pct : Decimal
  pub alignment : String
  pub methodology : String
  pub sbti_approval_status : String
  pub sbti_validation_date : Option ℕ
  pub created_by : String
  pub created_at : ℕ
  pub is_active : Bool

abbrev pub is_none {ℓ} : {A : Type ℓ} → Option A → Bool
is_none none = true
is_none (some a) = false

-- `__post_init__`
unfoldable pub post_init : SbtiTarget → Result SbtiTarget
post_init t = do
  raise_if (not (mem t.scope_coverage allowed_scopes)) value_error
  raise_if (not (mem t.alignment allowed_alignment)) value_error
  raise_if (not (mem t.methodology allowed_target_methodologies)) value_error
  raise_if (not (mem t.sbti_approval_status allowed_sbti_status)) value_error
  raise_if (leb t.target_year t.baseline_year) value_error
  raise_if (le_dec t.baseline_tco2e nought) value_error
  raise_if (lt_dec t.target_tco2e nought) value_error
  raise_if (not (le_dec t.target_tco2e t.baseline_tco2e)) value_error
  raise_if (str_eq t.sbti_approval_status "validated" && is_none t.sbti_validation_date) value_error
  ok t

-- The part of a target's validity that the trajectory rests on.
pub record IsReduction (t : SbtiTarget) : Type 0 where
  pub years : t.baseline_year < t.target_year
  pub baseline : le_dec t.baseline_tco2e nought ≡ false
  pub target : lt_dec t.target_tco2e nought ≡ false
  pub reduction : le_dec t.target_tco2e t.baseline_tco2e ≡ true

pub IsReduction-post_init : (t u : SbtiTarget) → post_init t ≡ ok u → IsReduction t
unfolding post_init
IsReduction-post_init t u h = ground arith
