-- ===== src/Access/Blacklist.antt =====
-- infrastructure/security/token_blacklist.py, over any Redis-like store. The store's clock and the
-- wall clock count seconds alike; a call takes one instant for both, and `ttl_seconds` is never
-- negative, since its one caller passes `exp - now` of an `exp` later than now. Log lines are left
-- out.
use Prim.Native.Nat.{max, min}
use Prim.Native.String.{◌++◌ as str_append}
use text.Mathlib.TextLemmas.{append_cancel_left}
use ghg_tool.Prelude.{
  ℕ, ◌+◌, ◌-◌, ◌≤◌, ◌<◌, ◌≡◌, Bool, true, false, String, Option, none, some, str_eq, eq_iff, ltb,
  arith, if◌then◌else◌, Bool-cases, inl, inr,
}
use ghg_tool.Access.Redis.{RedisLike, RedisLaws}
use ghg_tool.Access.Tokens.{Claims, ExpClaim, absent, number, textual}

abbrev pub key_prefix : String
key_prefix = "jwt:blacklist:"

abbrev pub min_ttl : ℕ
min_ttl = 5

abbrev pub max_ttl : ℕ
max_ttl = 691200

-- `_make_key`, of an identifier that is not empty
unfoldable pub make_key : String → String
make_key jti = str_append key_prefix jti

-- `_clamp_ttl`
unfoldable pub clamp_ttl : ℕ → ℕ
clamp_ttl ttl = if ltb ttl min_ttl then min_ttl else if ltb max_ttl ttl then max_ttl else ttl

-- A revocation gives the store, or raises: ValueError on an empty identifier, or the store's failure.
pub data Revoked (S : Type 0) : Type 0 where
  recorded : S → Revoked S
  empty_jti backend_failure : Revoked S

-- The answer to `is_revoked`; `unavailable` is JWTUnavailableError.
pub data Answer : Type 0 where
  known : Bool → Answer
  unavailable : Answer

-- exp_int, 0 where `exp` cannot be read
unfoldable pub exp_int : ExpClaim → ℕ
exp_int absent = 0
exp_int (number n) = n
exp_int (textual none) = 0
exp_int (textual (some n)) = n

unfoldable pub remaining : ExpClaim → (now : ℕ) → ℕ
remaining exp now = if ltb now (exp_int exp) then exp_int exp - now else min_ttl

module _ (r : RedisLike) where
  abbrev recorded_in : Option r.Store → Revoked r.Store
  recorded_in none = backend_failure
  recorded_in (some s) = recorded s

  unfoldable pub revoke : String → (ttl_seconds now : ℕ) → r.Store → Revoked r.Store
  revoke jti ttl_seconds now s =
      if str_eq jti ""
      then empty_jti
      else recorded_in (r.setex (make_key jti) (clamp_ttl ttl_seconds) "revoked" now s)

  -- Claims without an identifier are passed over.
  unfoldable pub revoke_from_claims : Claims → (now : ℕ) → r.Store → Revoked r.Store
  revoke_from_claims claims now s =
      if str_eq claims.jti ""
      then recorded s
      else revoke claims.jti (remaining claims.exp now) now s

  abbrev pub answer_of : Option Bool → Answer
  answer_of none = unavailable
  answer_of (some found) = known found

  unfoldable pub is_revoked : String → (now : ℕ) → r.Store → Answer
  is_revoked jti now s =
      if str_eq jti "" then known false else answer_of (r.exists (make_key jti) now s)

make_key-injective : (a b : String) → str_eq (make_key a) (make_key b) ≡ str_eq a b
unfolding make_key
make_key-injective a b = ground (
  arith,
  eq_iff a b,
  eq_iff (str_append key_prefix a) (str_append key_prefix b),
  append_cancel_left key_prefix a b,
)

-- The bounds of a time to live: at least 5 seconds, at most 8 days.
abbrev pub lifetime : (ttl : ℕ) → ℕ
lifetime ttl = max 5 (min ttl 691200)

clamp_ttl-lifetime : (ttl : ℕ) → clamp_ttl ttl ≡ lifetime ttl
unfolding clamp_ttl
clamp_ttl-lifetime ttl = ground arith

clamp_ttl-le : (ttl : ℕ) → ttl ≤ max_ttl → ttl ≤ clamp_ttl ttl
unfolding clamp_ttl
clamp_ttl-le ttl h = ground arith

module _ (r : RedisLike) (laws : RedisLaws r) (now : ℕ) (s t : r.Store) where
  recorded-setex : (o : Option r.Store) → recorded_in r o ≡ recorded t → o ≡ some t
  recorded-setex none h = ground arith
  recorded-setex (some s') h = ground arith

  set_of_revoke :
      (jti : String) (ttl : ℕ)
      → revoke r jti ttl now s ≡ recorded t
      → r.setex (make_key jti) (clamp_ttl ttl) "revoked" now s ≡ some t
  unfolding revoke
  set_of_revoke jti ttl h = elim (Bool-cases (str_eq jti "")) [
    | inl empty ↦ ground arith
    | inr real ↦
        recorded-setex (r.setex (make_key jti) (clamp_ttl ttl) "revoked" now s) (ground arith)
  ]

  -- Once an identifier is revoked, it is found revoked until its time to live has passed, or 5 seconds
  -- if that is less, or 8 days if that is more; what was known of any other identifier does not change.
  pub is_revoked-revoke :
      (jti : String) (ttl : ℕ)
      → revoke r jti ttl now s ≡ recorded t
      → (k : String) (later : ℕ) → now ≤ later
      → is_revoked r k later t
        ≡ (if str_eq jti k then known (ltb later (now + lifetime ttl)) else is_revoked r k later s)
  unfolding revoke is_revoked
  is_revoked-revoke jti ttl h k later g = elim (Bool-cases (str_eq jti "")) [
    | inl empty ↦ ground arith
    | inr real ↦ ground (
      arith,
      laws.exists-setex (make_key jti) (clamp_ttl ttl) "revoked" now s t (set_of_revoke jti ttl h)
          (make_key k) later g,
      make_key-injective jti k,
      clamp_ttl-lifetime ttl,
      eq_iff jti k,
    )
  ]

  -- A token that is revoked by its claims is found revoked at every later instant at which it has
  -- not expired, if it expires within 8 days.
  pub is_revoked-revoke_from_claims :
      (c : Claims)
      → str_eq c.jti "" ≡ false
      → exp_int c.exp ≤ now + max_ttl
      → revoke_from_claims r c now s ≡ recorded t
      → (later : ℕ) → now ≤ later
      → later < exp_int c.exp
      → is_revoked r c.jti later t ≡ known true
  unfolding revoke_from_claims remaining
  is_revoked-revoke_from_claims c real near h later g live = ground (
    arith,
    is_revoked-revoke c.jti (remaining c.exp now) (ground arith) c.jti later g,
    clamp_ttl-le (remaining c.exp now),
    clamp_ttl-lifetime (remaining c.exp now),
    eq_iff c.jti c.jti,
  )
