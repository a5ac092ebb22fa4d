-- ===== src/Access/SessionCheck.antt =====
-- api/middleware/session_check.py: what it answers to a request. A database that fails gives no
-- result.
use ghg_tool.Prelude.{
  ℕ, ◌≡◌, arith, Bool, true, false, ◌||◌, String, Option, none, some, List, [], ◌∷◌, str_eq,
  if◌then◌else◌,
}
use ghg_tool.Access.Tokens.{
  Jwt, Claims, Decoded, claims_of, expired, forbidden_algorithm, invalid_token, decode_token,
}
use ghg_tool.Access.Sessions.{Sessions, SessionRow, find_jti, is_open}

-- `call_next`, or 503, or one of the two refusals with 401.
pub data Verdict : Type 0 where
  passed_on service_unavailable not_found revoked : Verdict

abbrev pub is_one_of : String → List String → Bool
is_one_of path [] = false
is_one_of path (p ∷ ps) = str_eq path p || is_one_of path ps

abbrev pub excluded_paths : List String
excluded_paths = "/healthz" ∷ "/readyz" ∷ []

abbrev pub no_session_paths : List String
no_session_paths =
    "/api/v1/auth/login" ∷ "/api/v1/auth/totp/challenge" ∷ "/api/v1/auth/refresh"
    ∷ "/api/v1/auth/logout" ∷ "/openapi.json" ∷ "/docs" ∷ "/redoc" ∷ []

unfoldable pub needs_session : String → Bool
needs_session path =
    if is_one_of path excluded_paths || is_one_of path no_session_paths then false else true

abbrev verdict_of_row : Option SessionRow → Verdict
verdict_of_row none = not_found
verdict_of_row (some row) = if is_open row then passed_on else revoked

abbrev verdict_of : String → Option Sessions → Verdict
verdict_of jti none = service_unavailable
verdict_of jti (some rows) = verdict_of_row (find_jti jti rows)

-- An invalid token is left to the dependency that reads the user.
abbrev check_claims : Decoded → Option Sessions → Verdict
check_claims (claims_of c) db = if str_eq c.jti "" then passed_on else verdict_of c.jti db
check_claims expired db = passed_on
check_claims forbidden_algorithm db = passed_on
check_claims invalid_token db = passed_on

module _ (j : Jwt) where
  abbrev check_token : Option j.Token → (now : ℕ) → Option Sessions → Verdict
  check_token none now db = passed_on
  check_token (some token) now db = check_claims (decode_token j token now) db

  -- `SessionCheckMiddleware.dispatch`, of the path and the bearer token, if there is one
  unfoldable pub check_session :
      String → Option j.Token → (now : ℕ) → (db : Option Sessions) → Verdict
  check_session path token now db =
      if needs_session path then check_token token now db else passed_on

module _ (j : Jwt) (path : String) (token : j.Token) (now : ℕ) (c : Claims)
    (decodes : decode_token j token now ≡ claims_of c) (rows : Sessions) (row : SessionRow)
    (found : find_jti c.jti rows ≡ some row) where
  pub check_session-open :
      is_open row ≡ true → check_session j path (some token) now (some rows) ≡ passed_on
  unfolding check_session
  check_session-open h = ground (arith, decodes, found)

  pub check_session-closed :
      needs_session path ≡ true
      → str_eq c.jti "" ≡ false
      → is_open row ≡ false
      → check_session j path (some token) now (some rows) ≡ revoked
  unfolding check_session
  check_session-closed needs real h = ground (arith, decodes, found)
