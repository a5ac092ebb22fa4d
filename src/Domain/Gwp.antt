-- ===== src/Domain/Gwp.antt =====
-- GWP100 values (domain/value_objects/gwp_set.py), the table port and its adapter
-- (domain/ports/gwp_table.py), and the single-set policy (domain/policies/gwp_enforcement.py).
pub mod Policy
use ghg_tool.Prelude.{Bool, false, String, Option, none, some, List, [], ◌∷◌, str_eq, if◌then◌else◌}
use ghg_tool.Prelude.Text.{codes, upper, replace_code, find_codes}
use ghg_tool.Decimal.{Decimal, dec}
use ghg_tool.Result.{Result, ok, err, value_error, key_error, mixed_gwp_set}

pub record GwpValues : Type 0 where
  pub code : String
  pub co2 : Decimal
  pub ch4 : Decimal
  pub n2o : Decimal
  pub sf6 : Decimal
  pub hfc134a : Decimal

abbrev pub ar6 : GwpValues
ar6 = record {
  code = "AR6";
  co2 = dec 1 0;
  ch4 = dec 279 1;
  n2o = dec 273 0;
  sf6 = dec 25200 0;
  hfc134a = dec 1530 0;
}

abbrev pub ar5 : GwpValues
ar5 = record {
  code = "AR5";
  co2 = dec 1 0;
  ch4 = dec 28 0;
  n2o = dec 265 0;
  sf6 = dec 23500 0;
  hfc134a = dec 1300 0;
}

unfoldable pub get_gwp_values : String → Result GwpValues
get_gwp_values code =
    if str_eq code "AR6" then ok ar6 else if str_eq code "AR5" then ok ar5 else err (key_error code)

-- GWPTablePort
pub record GwpTablePort : Type 0 where
  pub code : String
  pub get : String → Result Decimal

unfoldable pub or_key_error : String → Option Decimal → Result Decimal
or_key_error k none = err (key_error k)
or_key_error k (some v) = ok v

-- GWPSetTable
unfoldable pub gwp_set_table : GwpValues → GwpTablePort
unfolding or_key_error
gwp_set_table values = record {
  code = values.code;
  get = λ substance. or_key_error substance (
      find_codes (replace_code b'_' b'-' (upper (codes substance))) (
        ("CO2", values.co2)
        ∷ ("CH4", values.ch4)
        ∷ ("N2O", values.n2o)
        ∷ ("SF6", values.sf6)
        ∷ ("HFC-134A", values.hfc134a)
        ∷ []));
}

without : String → List String → List String
without x [] = []
without x (y ∷ ys) = let rest = without x ys in if str_eq y x then rest else y ∷ rest

-- The distinct values of a list, `set(gwp_sets)`, in the order of their first occurrence.
unfoldable pub distinct : List String → List String
unfolding without
distinct [] = []
distinct (x ∷ xs) = x ∷ without x (distinct xs)

single : List String → Result String
single [] = err value_error
single (u ∷ []) = ok u
single (u ∷ v ∷ us) = err mixed_gwp_set

-- More than one distinct value is refused, and so is an empty list.
unfoldable pub assert_single_gwp_set : List String → Result String
unfolding single
assert_single_gwp_set gwp_sets = single (distinct gwp_sets)
