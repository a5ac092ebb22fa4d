-- ===== src/Calc/Helpers/Stamp.antt =====
-- What every row built by `make_emission` carries, and when it is built.
use mathlib.Core.Path.{subst, sym}
use ghg_tool.Prelude.{
  Bool, false, Option, some, List, [], ◌∷◌, All, if◌then◌else◌, ◌≤◌, ◌≡◌, refl, true, none, String,
  arith,
}
use ghg_tool.Decimal.Sign.{IsNonneg}
use ghg_tool.Domain.Emission.{
  EmissionRecord, mem, allowed_sub_scopes, allowed_methodologies, allowed_regulatory_streams,
  allowed_gwp_sets,
}
use ghg_tool.Domain.Emission.Validity.{
  IsValid, IsNonnegIfAny, post_init-IsValid, post_init-eq, IsValid-post_init,
}
use ghg_tool.Result.{Result, ok, ◌>>=◌}
use ghg_tool.Result.Ensures.{Ensures, Ensures-ok, Ensures-err, Ensures-bind, Ensures-gather, IsOk}
use ghg_tool.Calc.Helpers.{one, two, only_if, if_some, Ctx, Draft, stamp, make_emission}

-- The row is valid and belongs to the run: its identifier, stream, author and GWP set.
pub record IsOfRun (ctx : Ctx) (code : String) (e : EmissionRecord) : Type 0 where
  pub valid : IsValid e
  pub correlation_id : e.correlation_id ≡ ctx.correlation_id
  pub regulatory_stream : e.regulatory_stream ≡ ctx.regulatory_stream
  pub created_by : e.created_by ≡ ctx.created_by
  pub gwp_set : e.gwp_set ≡ code

module _ (ctx : Ctx) (d : Draft) where
  pub make_emission-eq : Ensures (λ e. e ≡ stamp ctx d) (make_emission ctx d)
  unfolding make_emission
  make_emission-eq = record { at = λ e h. post_init-eq (stamp ctx d) e h }

  stamp-IsOfRun : IsValid (stamp ctx d) → IsOfRun ctx d.gwp_set (stamp ctx d)
  unfolding stamp
  stamp-IsOfRun v = record {
    valid = v;
    correlation_id = refl;
    regulatory_stream = refl;
    created_by = refl;
    gwp_set = refl;
  }

  pub make_emission-IsOfRun : Ensures (IsOfRun ctx d.gwp_set) (make_emission ctx d)
  unfolding make_emission
  make_emission-IsOfRun = record {
    at = λ e h.
        subst (IsOfRun ctx d.gwp_set) (sym (post_init-eq (stamp ctx d) e h))
          (stamp-IsOfRun (IsValid-post_init (stamp ctx d) e h));
  }

-- The vocabulary checks on the parts of a draft that are fixed per module.
pub record IsSound (ctx : Ctx) (d : Draft) : Type 0 where
  pub scope_from : 1 ≤ d.scope
  pub scope_to : d.scope ≤ 3
  pub tco2e : IsNonneg d.tco2e
  pub sub_scope : mem d.sub_scope (allowed_sub_scopes d.scope) ≡ true
  pub methodology : mem d.methodology allowed_methodologies ≡ true
  pub regulatory_stream : mem ctx.regulatory_stream allowed_regulatory_streams ≡ true
  pub gwp_set : mem d.gwp_set allowed_gwp_sets ≡ true
  pub calc_timestamp : d.calc_timestamp ≡ none
  pub co2_biogenic : IsNonnegIfAny d.co2_biogenic_tonne
  pub co2_fossil : IsNonnegIfAny d.co2_fossil_tonne

stamp-IsValid : (ctx : Ctx) (d : Draft) → IsSound ctx d → IsValid (stamp ctx d)
unfolding stamp
stamp-IsValid ctx d s = ground arith

pub make_emission-IsOk : (ctx : Ctx) (d : Draft) → IsSound ctx d → IsOk (make_emission ctx d)
unfolding make_emission
make_emission-IsOk ctx d s = rw (post_init-IsValid (stamp ctx d) (stamp-IsValid ctx d s)) tt

module _ (ctx : Ctx) (code : String) where
  pub AllOfRun-one :
      (m : Result EmissionRecord)
      → Ensures (IsOfRun ctx code) m
      → Ensures (All (IsOfRun ctx code)) (one m)
  unfolding one
  AllOfRun-one m h = Ensures-bind m (λ e. ok (e ∷ [])) λ e he. Ensures-ok (e ∷ []) (h.at e he, tt)

  pub AllOfRun-two :
      (m n : Result EmissionRecord)
      → Ensures (IsOfRun ctx code) m
      → Ensures (IsOfRun ctx code) n
      → Ensures (All (IsOfRun ctx code)) (two m n)
  unfolding two
  AllOfRun-two m n h k =
      Ensures-bind m (λ e. n >>= λ f. ok (e ∷ f ∷ []))
        λ e he.
          Ensures-bind n (λ f. ok (e ∷ f ∷ []))
            λ f hf. Ensures-ok (e ∷ f ∷ []) (h.at e he, (k.at f hf, tt))

  -- A branch.
  pub OfRun-if :
      (b : Bool) (m n : Result EmissionRecord)
      → Ensures (IsOfRun ctx code) m
      → Ensures (IsOfRun ctx code) n
      → Ensures (IsOfRun ctx code) (if b then m else n)
  OfRun-if true m n h k = h
  OfRun-if false m n h k = k

  pub AllOfRun-only_if :
      (b : Bool) (m : Result (List EmissionRecord))
      → Ensures (All (IsOfRun ctx code)) m
      → Ensures (All (IsOfRun ctx code)) (only_if b m)
  unfolding only_if
  AllOfRun-only_if true m h = h
  AllOfRun-only_if false m h = Ensures-ok [] tt

  pub AllOfRun-if_some {ℓ} :
      {A : Type ℓ} (o : Option A) (f : A → Result (List EmissionRecord))
      → ((a : A) → Ensures (All (IsOfRun ctx code)) (f a))
      → Ensures (All (IsOfRun ctx code)) (if_some o f)
  unfolding if_some
  AllOfRun-if_some none f h = Ensures-ok [] tt
  AllOfRun-if_some (some a) f h = h a

pub ruleset of_run_rules = (
  AllOfRun-one, AllOfRun-two, OfRun-if, AllOfRun-only_if, AllOfRun-if_some, Ensures-bind,
  Ensures-gather, Ensures-err, make_emission-IsOfRun,
)
