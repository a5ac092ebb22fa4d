-- ===== src/Services/Reconciliation.antt =====
-- application/services/reconciliation_service.py: a frozen snapshot against the current emissions,
-- key by key. A row's fields are typed here, so the conversions `int`, `str` and `_as_decimal` are the
-- identity. `sorted` compares a missing site with a text and raises TypeError exactly if two keys
-- have the same scope and sub-scope and only one of them a site, whatever the order of the sort: the
-- keys of one scope and sub-scope stand together, and no comparison could order them. The history's
-- statistics are those of Services.YoyStats.
pub mod Deltas
pub mod Tallies
pub mod Matching
pub mod Snapshot
use ghg_tool.Prelude.{
  ℕ, ◌+◌, Bool, true, false, not, ◌&&◌, ◌||◌, String, Option, none, some, List, [], ◌∷◌, ◌++◌, map,
  keep, ltb, leb, ◌==◌, str_eq, eq_iff, ◌≡◌, ◌↔◌, refl, arith, if◌then◌else◌,
}
use ghg_tool.Prelude.Text.{str_ltb}
use ghg_tool.Prelude.Dict.{Dict, Eq, nat_eq, string_eq, pair_eq, lookup, update}
use ghg_tool.Prelude.Sort.{sort}
use ghg_tool.Decimal.{
  Decimal, dec, nought, le_dec, lt_dec, eq_dec, abs_dec, divide, ◌-ᵈ◌, ◌+ᵈ◌, ◌*ᵈ◌,
}
use ghg_tool.Result.{Result, ok, err, type_error}
use ghg_tool.Services.YoyStats.{YoyStatsBaseline, History, baseline_for, threshold_pct}

-- A missing site, or its code.
abbrev pub site_beq : Option String → Option String → Bool
site_beq none none = true
site_beq none (some b) = false
site_beq (some a) none = false
site_beq (some a) (some b) = str_eq a b

pub site_beq_iff : (a b : Option String) → (site_beq a b ≡ true) ↔ (a ≡ b)
site_beq_iff none none = ground arith
site_beq_iff none (some b) = ground arith
site_beq_iff (some a) none = ground arith
site_beq_iff (some a) (some b) = ground (arith, eq_iff a b)

instance abbrev pub site_eq : Eq (Option String)
site_eq = record { beq = site_beq; beq_iff = site_beq_iff }

-- (scope, sub_scope, codice_sito), and with the year.
abbrev pub Key3 : Type 0
Key3 = ℕ × (String × Option String)

abbrev pub Key : Type 0
Key = Key3 × ℕ

pub record Row : Type 0 where
  pub key : Key
  pub tco2e : Option Decimal
  pub factor_version : Option String

-- The causes: the constants CAUSE_...
abbrev pub factor_update : String
factor_update = "factor_update"

abbrev pub data_correction : String
data_correction = "data_correction"

abbrev pub methodology : String
methodology = "methodology"

abbrev pub unknown : String
unknown = "unknown"

abbrev pub new_row : String
new_row = "new_row"

abbrev pub withdrawn_row : String
withdrawn_row = "withdrawn_row"

abbrev pub all_causes : List String
all_causes = factor_update ∷ data_correction ∷ methodology ∷ unknown ∷ new_row ∷ withdrawn_row ∷ []

pub record ReconciliationDelta : Type 0 where
  pub key : Key
  pub prior_tco2e : Option Decimal
  pub current_tco2e : Option Decimal
  pub abs_delta : Decimal
  pub pct_delta : Option Decimal
  pub cause_category : String
  pub material : Bool
  pub threshold_pct_used : Decimal

pub record ReconciliationResult : Type 0 where
  pub total_prior : Decimal
  pub total_current : Decimal
  pub total_abs_delta : Decimal
  pub total_delta_pct : Option Decimal
  pub rows : List ReconciliationDelta
  pub material_count : ℕ
  pub restatement_required : Bool
  pub cause_breakdown : Dict String Decimal

abbrev pub or_nought : Option Decimal → Decimal
or_nought none = nought
or_nought (some v) = v

abbrev times_100 : Option Decimal → Option Decimal
times_100 none = none
times_100 (some ratio) = some (ratio *ᵈ dec 100 0)

-- (current - prior) / prior * 100, where the first is not zero
unfoldable pub change_pct : (prior current : Decimal) → Option Decimal
change_pct prior current =
    if eq_dec prior nought then none else times_100 (divide (current -ᵈ prior) prior)

-- `_pct`
unfoldable pub pct : (prior current : Option Decimal) → Option Decimal
pct none current = none
pct (some prior) current = change_pct prior (or_nought current)

-- `_infer_cause`
unfoldable pub infer_cause : (prior current : Option Row) → (methodology_flagged : Bool) → String
infer_cause prior current true = methodology
infer_cause none (some current) false = new_row
infer_cause (some prior) none false = withdrawn_row
infer_cause (some prior) (some current) false =
    if site_beq prior.factor_version current.factor_version then data_correction else factor_update
infer_cause none none false = unknown

-- by_key[_key(row)] = row, row after row
unfoldable pub index_from : Dict Key Row → List Row → Dict Key Row
index_from d [] = d
index_from d (row ∷ rows) = index_from (update row.key (λ old. row) d) rows

unfoldable pub by_key : List Row → Dict Key Row
by_key = index_from []

abbrev has : Option Row → Bool
has none = false
has (some row) = true

-- set(prior_by_key) | set(current_by_key)
unfoldable pub union_keys : (prior current : Dict Key Row) → List Key
union_keys prior current =
    map (λ e. e.0) prior ++ keep (λ k. not (has (lookup k prior))) (map (λ e. e.0) current)

-- Tuples in their order; sites as far as they can be compared.
abbrev site_ltb : Option String → Option String → Bool
site_ltb none b = false
site_ltb (some a) none = false
site_ltb (some a) (some b) = str_ltb a b

unfoldable pub key_le : Key → Key → Bool
key_le ((s, (u, c)), y) ((t, (v, d)), z) =
    if not (s == t)
    then ltb s t
    else if not (str_eq u v)
    then str_ltb u v
    else if not (site_beq c d)
    then site_ltb c d
    else leb y z

abbrev one_site : Option String → Option String → Bool
one_site none none = false
one_site none (some b) = true
one_site (some a) none = true
one_site (some a) (some b) = false

-- The comparison of the two raises.
abbrev pub clash : Key → Key → Bool
clash ((s, (u, c)), y) ((t, (v, d)), z) = s == t && str_eq u v && one_site c d

abbrev pub any_clash : Key → List Key → Bool
any_clash k [] = false
any_clash k (j ∷ ks) = clash k j || any_clash k ks

unfoldable pub unsortable : List Key → Bool
unsortable [] = false
unsortable (k ∷ ks) = any_clash k ks || unsortable ks
