-- ===== src/Result.antt =====
-- Exceptions as values: a call that may raise returns a `Result`.
pub mod Ensures
pub mod Trace
use ghg_tool.Prelude.{◌≡◌, refl, Bool, true, false, String, List, [], ◌∷◌, ◌++◌}

-- The exceptions of the calculation layer (domain/exceptions/calc_errors.py and
-- domain/policies/gwp_enforcement.py), and the built-in ones that it raises. The message is left
-- out, but for the key that was not found.
pub data Error : Type 0 where
  missing_factor key_error : String → Error
  value_error : Error
  negative_emission invalid_sub_scope invalid_methodology invalid_regulatory_stream : Error
  invalid_gwp_set naive_timestamp go_validation mixed_gwp_set zero_division type_error : Error
  invalid_intensity_denominator : Error

pub data Result {ℓ} (A : Type ℓ) : Type ℓ where
  ok : A → Result A
  err : Error → Result A

infixl 5 ◌>>=◌ ◌>>◌
abbrev pub ◌>>=◌ {ℓ κ} : {A : Type ℓ} {B : Type κ} → Result A → (A → Result B) → Result B
err raised >>= rest = err raised
ok value >>= rest = rest value

abbrev pub ◌>>◌ {ℓ} : {B : Type ℓ} → Result (Unit {0}) → Result B → Result B
call >> rest = call >>= λ done. rest

-- if b: raise e
abbrev pub raise_if : Bool → Error → Result (Unit {0})
raise_if true e = err e
raise_if false e = ok tt

-- The loop `for x in xs: records.extend(f(x))`.
unfoldable pub gather {ℓ κ} :
    {A : Type ℓ} {B : Type κ} → (A → Result (List B)) → List A → Result (List B)
gather f [] = ok []
gather f (x ∷ xs) = do ys ← f x; zs ← gather f xs; ok (ys ++ zs)

-- Successive `rows.extend(f())`, each call made once those before it have returned.
abbrev pub extend_all {ℓ} : {B : Type ℓ} → List (Result (List B)) → Result (List B)
extend_all = gather (λ m. m)
