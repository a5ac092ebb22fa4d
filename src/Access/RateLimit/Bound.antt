-- ===== src/Access/RateLimit/Bound.antt =====
-- How many calls of a key any window holds, by the abstract limiter.
use ghg_tool.Prelude.{
  ℕ, ◌+◌, ◌≤◌, ◌≡◌, refl, Bool, true, ◌&&◌, String, List, [], ◌∷◌, count_if, leb, str_eq, arith,
  if◌then◌else◌, Bool-cases, inl, inr, eq_iff,
}
use ghg_tool.Access.RateLimit.{new_counter}
use ghg_tool.Access.RateLimit.Window.{
  Call, InOrder, serve, recent, spec_allows, spec_serve, serve-spec_serve,
}

-- The calls that were allowed.
abbrev pub admitted : List Call → List Bool → List Call
admitted [] answers = []
admitted (call ∷ calls) [] = []
admitted (call ∷ calls) (a ∷ answers) =
    let rest = admitted calls answers in if a then call ∷ rest else rest

-- Of a key's calls, those from `now - window` to `now`, both included.
abbrev pub within_span : (window now : ℕ) → String → Call → Bool
within_span window now key call = str_eq call.0 key && leb call.1 now && leb now (call.1 + window)

abbrev pub span : (window now : ℕ) → String → List Call → ℕ
span window now key = count_if (within_span window now key)

module _ (window limit : ℕ) (key : String) (now : ℕ) where
  span-recent :
      (t : ℕ) (log : List Call) → t ≤ now → span window now key log ≤ recent window t key log
  span-recent t [] h = omega arith
  span-recent t (call ∷ log) h = ground (arith, span-recent t log h)

  recent_same :
      (t : ℕ) (log : List Call) (k : String)
      → k ≡ key
      → recent window t k log ≡ recent window t key log
  recent_same t log k e = rw e refl

  span-allowed :
      (log : List Call) (call : Call)
      → spec_allows window limit log call ≡ true
      → span window now key log ≤ limit
      → span window now key (call ∷ log) ≤ limit
  span-allowed log (k, t) free h = elim (Bool-cases (within_span window now key (k, t))) [
    | inl counted ↦ ground (
      arith,
      span-recent t log (ground arith),
      recent_same t log k (ground (arith, eq_iff k key)),
    )
    | inr other ↦ rw other (omega (arith, h))
  ]

  span-admitted :
      (log calls : List Call)
      → span window now key log ≤ limit
      → span window now key log
          + span window now key (admitted calls (spec_serve window limit log calls))
        ≤ limit
  span-admitted log [] h = omega (arith, h)
  span-admitted log (call ∷ calls) h = elim (Bool-cases (spec_allows window limit log call)) [
    | inl free ↦
        rw free (omega (arith, span-admitted (call ∷ log) calls (span-allowed log call free h)))
    | inr full ↦ rw full (span-admitted log calls h)
  ]

-- Whatever calls are made, in the order of their instants, a new counter allows of one key at most
-- `limit` in any stretch of time as long as the window, both ends included.
pub serve-bounded :
    (window limit : ℕ) (calls : List Call)
    → InOrder 0 calls
    → (key : String) (now : ℕ)
    → span window now key (admitted calls (serve (new_counter window limit) calls)) ≤ limit
serve-bounded window limit calls h key now =
    rw (serve-spec_serve window limit calls h)
      (omega (arith, span-admitted window limit key now [] calls (omega arith)))
