-- ===== src/Access/RateLimit.antt =====
-- api/middleware/rate_limit.py: the sliding-window counter and the middleware that asks it. Instants
-- of the monotonic clock and the window are natural numbers in one unit; the source compares with
-- `now - window`, here the window is added to the other side. The limiter behind Redis is that of the
-- package `limits` and is not modelled. What the package for tokens reads from an unverified token,
-- if anything, is a parameter.
pub mod Window
pub mod Bound
pub mod Middleware
use Prim.Native.String.{◌++◌ as str_append}
use ghg_tool.Prelude.{
  ℕ, ◌+◌, Bool, true, false, String, Option, none, some, List, [], ◌∷◌, ◌++◌, length, ltb, leb,
  str_eq, if◌then◌else◌,
}
use ghg_tool.Prelude.Text.{Codes, codes, starts}
use ghg_tool.Prelude.Dict.{Dict, string_eq, lookup, update}

abbrev pub Bucket : Type 0
Bucket = List ℕ

pub record InMemorySlidingWindow : Type 0 where
  pub window : ℕ
  pub limit : ℕ
  pub buckets : Dict String Bucket

-- while bucket and bucket[0] < cutoff: bucket.popleft()
unfoldable pub drop_expired : (window now : ℕ) → Bucket → Bucket
drop_expired window now [] = []
drop_expired window now (t ∷ ts) =
    let rest = drop_expired window now ts in if ltb (t + window) now then rest else t ∷ ts

-- self._buckets.setdefault(key, deque())
unfoldable pub bucket_of : String → Dict String Bucket → Bucket
bucket_of key buckets = elim (lookup key buckets) [ none ↦ [] | some bucket ↦ bucket ]

-- The bucket that a call leaves, and its answer.
unfoldable pub admit : (limit now : ℕ) → Bucket → Bool × Bucket
admit limit now bucket =
    if leb limit (length bucket) then (false, bucket) else (true, bucket ++ (now ∷ []))

unfoldable pub is_allowed :
    InMemorySlidingWindow → String → (now : ℕ) → Bool × InMemorySlidingWindow
is_allowed c key now =
    let r = admit c.limit now (drop_expired c.window now (bucket_of key c.buckets)) in
    (r.0, record c { buckets = update key (λ old. r.1) c.buckets })

unfoldable pub reset : InMemorySlidingWindow → InMemorySlidingWindow
reset c = record c { buckets = [] }

abbrev pub new_counter : (window limit : ℕ) → InMemorySlidingWindow
new_counter window limit = record { window = window; limit = limit; buckets = [] }

-- What the limiter reads of a request; a missing Authorization header is the empty text.
pub record Request : Type 0 where
  pub path : String
  pub user_sub : Option String
  pub authorization : Codes
  pub client_host : Option String

-- any(path.startswith(p) for p in _EXEMPT_PREFIXES)
abbrev pub starts_with_any : List String → Codes → Bool
starts_with_any [] path = false
starts_with_any (p ∷ ps) path =
    let later = starts_with_any ps path in if starts (codes p) path then true else later

abbrev pub exempt_prefixes : List String
exempt_prefixes = "/healthz" ∷ "/readyz" ∷ "/openapi" ∷ "/docs" ∷ []

unfoldable pub is_exempt : Request → Bool
is_exempt r = starts_with_any exempt_prefixes (codes r.path)

-- The subject, unless there is none or it is the empty text.
abbrev pub nonempty : Option String → Option String
nonempty none = none
nonempty (some s) = if str_eq s "" then none else some s

unfoldable pub ip_key : Option String → String
ip_key none = "ip:unknown"
ip_key (some host) = str_append "ip:" host

abbrev pub bearer : Codes
bearer = codes "Bearer "

abbrev skip : Codes → Codes → Codes
skip [] s = s
skip (c ∷ p) [] = []
skip (c ∷ p) (d ∷ s) = skip p s

-- header.removeprefix("Bearer "), where it starts so
unfoldable pub bearer_token : Codes → Option Codes
bearer_token header = if starts bearer header then some (skip bearer header) else none

abbrev key_or_ip : Option String → Option String → String
key_or_ip none host = ip_key host
key_or_ip (some sub) host = str_append "user:" sub

-- The middleware either passes the request on or answers 429.
pub data Response : Type 0 where
  call_next too_many_requests : Response

abbrev respond : Bool → Response
respond true = call_next
respond false = too_many_requests

module _ (unverified_sub : Codes → Option String) where
  -- The subject that the bearer token claims.
  unfoldable pub claimed_sub : Request → Option String
  claimed_sub r = elim (bearer_token r.authorization) [
    | none ↦ none
    | some token ↦ nonempty (unverified_sub token)
  ]

  -- `_extract_rate_key`
  unfoldable pub extract_rate_key : Request → String
  extract_rate_key r = elim (nonempty r.user_sub) [
    | none ↦ key_or_ip (claimed_sub r) r.client_host
    | some sub ↦ str_append "user:" sub
  ]

  -- `RateLimitMiddleware.dispatch`
  unfoldable pub dispatch :
      InMemorySlidingWindow → Request → (now : ℕ) → Response × InMemorySlidingWindow
  dispatch c r now =
      let asked = is_allowed c (extract_rate_key r) now in
      if is_exempt r then (call_next, c) else (respond asked.0, asked.1)
