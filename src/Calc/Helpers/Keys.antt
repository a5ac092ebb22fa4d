-- ===== src/Calc/Helpers/Keys.antt =====
-- Which rows of input the emission records come from: a record's key is the raw row it points to,
-- its site, its sub-scope and its year.
use mathlib.Core.Path.{ap₂}
use ghg_tool.Prelude.{
  if◌then◌else◌, ℕ, ◌≡◌, refl, ap, Bool, true, false, String, Option, none, some, List, [], ◌∷◌,
  map,
}
use ghg_tool.Domain.Emission.{EmissionRecord}
use ghg_tool.Domain.Factor.{Uuid}
use ghg_tool.Result.{Result, ok, ◌>>=◌}
use ghg_tool.Result.Ensures.{Ensures, Ensures-ok, Ensures-err, Ensures-bind}
use ghg_tool.Result.Trace.{map-gather}
use ghg_tool.Calc.Helpers.{two, Ctx, Draft, stamp, make_emission, one, only_if, if_some}
use ghg_tool.Calc.Helpers.Stamp.{make_emission-eq}

abbrev pub RowKey : Type 0
RowKey = Option Uuid × Option String × String × ℕ

abbrev pub row_key : EmissionRecord → RowKey
row_key e = (e.raw_row_id, e.codice_sito, e.sub_scope, e.anno)

-- The record of a call has this key; the records of a call have these keys, in order.
abbrev pub HasKey : RowKey → Result EmissionRecord → Type 0
HasKey k = Ensures (λ e. row_key e ≡ k)

abbrev pub HasKeys : List RowKey → Result (List EmissionRecord) → Type 0
HasKeys ks = Ensures (λ es. map row_key es ≡ ks)

-- The keys of a row that may be skipped.
unfoldable pub keys_if : Bool → List RowKey → List RowKey
keys_if true ks = ks
keys_if false ks = []

unfoldable pub keys_some {ℓ} : {A : Type ℓ} → Option A → List RowKey → List RowKey
keys_some none ks = []
keys_some (some a) ks = ks

pub HasKey-make_emission :
    (ctx : Ctx) (d : Draft)
    → HasKey (d.raw_row_id, d.codice_sito, d.sub_scope, d.anno) (make_emission ctx d)
unfolding stamp
HasKey-make_emission ctx d = record { at = λ e h. ap row_key ((make_emission-eq ctx d).at e h) }

pub HasKeys-one : (k : RowKey) (m : Result EmissionRecord) → HasKey k m → HasKeys (k ∷ []) (one m)
unfolding one
HasKeys-one k m h =
    Ensures-bind m (λ e. ok (e ∷ [])) λ e he. Ensures-ok (e ∷ []) (ap (λ k. k ∷ []) (h.at e he))

pub HasKeys-two :
    (k l : RowKey) (m n : Result EmissionRecord)
    → HasKey k m
    → HasKey l n
    → HasKeys (k ∷ l ∷ []) (two m n)
unfolding two
HasKeys-two k l m n h i =
    Ensures-bind m (λ e. n >>= λ f. ok (e ∷ f ∷ []))
      λ e he.
        Ensures-bind n (λ f. ok (e ∷ f ∷ []))
          λ f hf. Ensures-ok (e ∷ f ∷ []) (ap₂ (λ k l. k ∷ l ∷ []) (h.at e he) (i.at f hf))

pub HasKey-if :
    (k : RowKey) (b : Bool) (m n : Result EmissionRecord)
    → HasKey k m
    → HasKey k n
    → HasKey k (if b then m else n)
HasKey-if k true m n h i = h
HasKey-if k false m n h i = i

pub HasKeys-only_if :
    (ks : List RowKey) (b : Bool) (m : Result (List EmissionRecord))
    → HasKeys ks m
    → HasKeys (keys_if b ks) (only_if b m)
unfolding only_if keys_if
HasKeys-only_if ks true m h = h
HasKeys-only_if ks false m h = Ensures-ok [] refl

pub HasKeys-if_some {ℓ} :
    {A : Type ℓ} (ks : List RowKey) (o : Option A) (f : A → Result (List EmissionRecord))
    → ((a : A) → HasKeys ks (f a))
    → HasKeys (keys_some o ks) (if_some o f)
unfolding if_some keys_some
HasKeys-if_some ks none f h = Ensures-ok [] refl
HasKeys-if_some ks (some a) f h = h a

pub ruleset key_rules = (
  HasKeys-one, HasKeys-two, HasKey-if, HasKeys-only_if, HasKeys-if_some, Ensures-bind, map-gather,
  Ensures-err, HasKey-make_emission,
)
