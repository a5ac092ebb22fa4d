-- ===== src/Domain/Emission/Validity.antt =====
-- What a constructed emission record satisfies, and that construction accepts nothing else.
use mathlib.Core.Path.{◌≡◌}
use ghg_tool.Prelude.{◌≤◌, refl, ◌↔◌, ◌∙◌, ap, sym, true, false, Option, none, some, arith}
use ghg_tool.Decimal.{Decimal}
use ghg_tool.Decimal.Sign.{IsNonneg, IsNonneg-of_guard, lt_dec-nought}
use ghg_tool.Domain.Emission.{
  EmissionRecord, mem, allowed_sub_scopes, allowed_methodologies, allowed_regulatory_streams,
  allowed_gwp_sets, is_negative, post_init,
}
use ghg_tool.Result.{ok}

abbrev pub IsNonnegIfAny : Option Decimal → Type 0
IsNonnegIfAny none = Unit
IsNonnegIfAny (some x) = IsNonneg x

pub record IsValid (r : EmissionRecord) : Type 0 where
  pub scope_from : 1 ≤ r.scope
  pub scope_to : r.scope ≤ 3
  pub tco2e : IsNonneg r.tco2e
  pub sub_scope : mem r.sub_scope (allowed_sub_scopes r.scope) ≡ true
  pub methodology : mem r.methodology allowed_methodologies ≡ true
  pub regulatory_stream : mem r.regulatory_stream allowed_regulatory_streams ≡ true
  pub gwp_set : mem r.gwp_set allowed_gwp_sets ≡ true
  pub calc_timestamp : r.calc_timestamp.aware ≡ true
  pub co2_biogenic : IsNonnegIfAny r.co2_biogenic_tonne
  pub co2_fossil : IsNonnegIfAny r.co2_fossil_tonne

IsNonnegIfAny-of_guard : (o : Option Decimal) → is_negative o ≡ false → IsNonnegIfAny o
unfolding is_negative
IsNonnegIfAny-of_guard none h = tt
IsNonnegIfAny-of_guard (some x) h = IsNonneg-of_guard x h

is_negative-IsNonnegIfAny : (o : Option Decimal) → IsNonnegIfAny o → is_negative o ≡ false
unfolding is_negative
is_negative-IsNonnegIfAny none h = refl
is_negative-IsNonnegIfAny (some x) h = lt_dec-nought x h

-- A valid record is constructed as it stands.
pub post_init-IsValid : (r : EmissionRecord) → IsValid r → post_init r ≡ ok r
unfolding post_init
post_init-IsValid r v = ground (
  arith,
  lt_dec-nought r.tco2e v.tco2e,
  is_negative-IsNonnegIfAny r.co2_biogenic_tonne v.co2_biogenic,
  is_negative-IsNonnegIfAny r.co2_fossil_tonne v.co2_fossil,
)

-- A record that is constructed is the one asked for.
pub post_init-eq : (r e : EmissionRecord) → post_init r ≡ ok e → e ≡ r
unfolding post_init
post_init-eq r e h = ground arith

-- A record that is constructed is valid.
pub IsValid-post_init : (r e : EmissionRecord) → post_init r ≡ ok e → IsValid r
unfolding post_init
IsValid-post_init r e h = ground (
  arith,
  IsNonneg-of_guard r.tco2e,
  IsNonnegIfAny-of_guard r.co2_biogenic_tonne,
  IsNonnegIfAny-of_guard r.co2_fossil_tonne,
)

-- The constructor accepts a record exactly when the record is valid, and then gives that record
-- unchanged.
pub post_init_iff : (r e : EmissionRecord) → (post_init r ≡ ok e) ↔ ((e ≡ r) × IsValid r)
post_init_iff r e = (
  λ h. (post_init-eq r e h, IsValid-post_init r e h),
  λ h. post_init-IsValid r h.1 ∙ ap ok (sym h.0),
)
