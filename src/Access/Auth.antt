-- ===== src/Access/Auth.antt =====
-- api/routers/auth.py and application/services/auth_service.py: login, refresh and logout, on the
-- users, the sessions, the blacklist and the login counter. The identifiers that a call draws are
-- arguments. A user's id in a token is a UUID. A call that raises another exception answers 500 and,
-- as its transaction is rolled back, leaves the tables. Log lines and SIEM events are left out.
pub mod Issue
pub mod Logout
pub mod Replay
use Prim.Native.String.{◌++◌ as str_append}
use ghg_tool.Prelude.{
  ℕ, Bool, true, false, ◌&&◌, ◌||◌, String, Option, none, some, List, [], ◌∷◌, str_eq, keep,
  if◌then◌else◌,
}
use ghg_tool.Prelude.Text.{Codes}
use ghg_tool.Access.RateLimit.{InMemorySlidingWindow, is_allowed}
use ghg_tool.Access.Redis.{RedisLike}
use ghg_tool.Access.Blacklist.{Revoked, recorded, empty_jti, backend_failure, revoke_from_claims}
use ghg_tool.Access.Sessions.{
  Sessions, SessionRow, find_jti, is_open, insert_auth_session, revoke_where,
  revoke_auth_session_by_jti,
}
use ghg_tool.Access.Users.{
  UserRow, LoginRequest, Lookup, no_user, ambiguous, one_user, lookup_user, find_user,
  credentials_fit,
}
use ghg_tool.Access.Tokens.{
  Jwt, Claims, Decoded, claims_of, expired, forbidden_algorithm, invalid_token, decode_token,
  access_token_ttl, partial_token_ttl, create_access_token, create_refresh_token,
}

pub record World (r : RedisLike) : Type 0 where
  pub users : List UserRow
  pub sessions : Sessions
  pub store : r.Store
  pub login_limiter : InMemorySlidingWindow

-- What a call draws or reads of the request.
pub record Call : Type 0 where
  pub now : ℕ
  pub client_ip : Option String
  pub user_agent : Option Codes
  pub session_id : String
  pub access_jti : String
  pub refresh_jti : String
  pub partial_jti : String

abbrev pub ip_or_unknown : Option String → String
ip_or_unknown none = "unknown"
ip_or_unknown (some host) = host

module _ (j : Jwt) where
  -- The answers of login and refresh.
  pub data Reply : Type 0 where
    tokens : (access refresh : j.Token) → Reply
    requires_totp : (partial : j.Token) → Reply
    too_many_requests ambiguous_username invalid_credentials : Reply
    not_valid not_a_refresh_token refresh_token_reused no_such_user : Reply
    server_error : Reply

abbrev partial_for : (j : Jwt) → UserRow → Call → j.Token
partial_for j u call =
    create_access_token j u.id u.role_code u.tenant_id call.partial_jti true call.now
      partial_token_ttl

abbrev reused : Option SessionRow → Bool
reused none = false
reused (some row) = if is_open row then false else true

module _ {r : RedisLike} (j : Jwt) where
  -- The transaction's outcome: the new rows, or those from before the call.
  abbrev stored : World r → (before : Sessions) → Option Sessions → Reply j → Reply j × World r
  stored w before none reply = (server_error, record w { sessions = before })
  stored w before (some rows) reply = (reply, record w { sessions = rows })

  -- The session row of a new access token, whose claims are read back, and the reply with it.
  abbrev open_session : World r → (before : Sessions) → Call → Decoded → Reply j → Reply j × World r
  open_session w before call (claims_of c) reply =
      stored w before
        (insert_auth_session call.session_id c.sub c.tenant_id c.jti
          (some (ip_or_unknown call.client_ip)) call.user_agent w.sessions)
        reply
  open_session w before call expired reply = (server_error, record w { sessions = before })
  open_session w before call forbidden_algorithm reply =
      (server_error, record w { sessions = before })
  open_session w before call invalid_token reply = (server_error, record w { sessions = before })

  -- An access and a refresh token for a user, and the session row.
  unfoldable pub issue :
      World r → (before : Sessions) → Call → (sub role tenant_id : String) → Reply j × World r
  issue w before call sub role tenant_id =
      let access =
        create_access_token j sub role tenant_id call.access_jti false call.now access_token_ttl in
      open_session w before call (decode_token j access call.now)
        (tokens access (create_refresh_token j sub tenant_id call.refresh_jti call.now))

  unfoldable pub login_user : World r → Call → UserRow → Reply j × World r
  login_user w call u =
      if u.totp_enabled
      then (requires_totp (partial_for j u call), w)
      else issue w w.sessions call u.id u.role_code u.tenant_id

  module _ (checkpw : String → String → Option Bool) where
    abbrev login_found : World r → Call → LoginRequest → Lookup → Reply j × World r
    login_found w call body no_user = (invalid_credentials, w)
    login_found w call body ambiguous = (ambiguous_username, w)
    login_found w call body (one_user u) =
        if credentials_fit checkpw body (one_user u)
        then login_user w call u
        else (invalid_credentials, w)

    -- `login`
    unfoldable pub login : World r → Call → LoginRequest → Reply j × World r
    login w call body =
        let asked =
          is_allowed w.login_limiter (str_append "login:ip:" (ip_or_unknown call.client_ip))
            call.now in
        let counted = record w { login_limiter = asked.1 } in
        if asked.0
        then login_found counted call body (lookup_user body w.users)
        else (too_many_requests, counted)

  -- The old token is revoked, in the table if it has a row there and on the blacklist.
  abbrev rotated : World r → Revoked r.Store → Call → Claims → UserRow → Reply j × World r
  rotated w (recorded s) call c u =
      issue
        (record w {
          sessions =
              (revoke_where none (λ (row : SessionRow). str_eq row.jti c.jti && is_open row)
                call.now w.sessions).1;
          store = s;
        })
        w.sessions call c.sub u.role_code u.tenant_id
  rotated w empty_jti call c u = (server_error, w)
  rotated w backend_failure call c u = (server_error, w)

  abbrev refresh_user : World r → Call → Claims → Option UserRow → Reply j × World r
  refresh_user w call c none = (no_such_user, w)
  refresh_user w call c (some u) =
      if u.is_active
      then rotated w (revoke_from_claims r c call.now w.store) call c u
      else (no_such_user, w)

  abbrev refresh_decoded : World r → Call → Decoded → Reply j × World r
  refresh_decoded w call (claims_of c) =
      if str_eq c.token_type "refresh"
      then if reused (find_jti c.jti w.sessions)
        then (refresh_token_reused, w)
        else refresh_user w call c (find_user c.sub w.users)
      else (not_a_refresh_token, w)
  refresh_decoded w call expired = (not_valid, w)
  refresh_decoded w call forbidden_algorithm = (not_valid, w)
  refresh_decoded w call invalid_token = (not_valid, w)

  -- `refresh`
  unfoldable pub refresh : World r → Call → j.Token → Reply j × World r
  refresh w call token = refresh_decoded w call (decode_token j token call.now)

  -- The exceptions of a logout are dropped.
  abbrev kept_store : World r → Revoked r.Store → World r
  kept_store w (recorded s) = record w { store = s }
  kept_store w empty_jti = w
  kept_store w backend_failure = w

  unfoldable pub logout_claims : World r → (now : ℕ) → Claims → World r
  logout_claims w now c =
      if str_eq c.jti "" || str_eq c.sub ""
      then w
      else kept_store
          (record w { sessions = (revoke_auth_session_by_jti c.jti c.sub now w.sessions).1 })
          (revoke_from_claims r c now w.store)

  abbrev logout_access : World r → (now : ℕ) → Decoded → World r
  logout_access w now (claims_of c) = logout_claims w now c
  logout_access w now expired = w
  logout_access w now forbidden_algorithm = w
  logout_access w now invalid_token = w

  abbrev logout_refresh : World r → (now : ℕ) → Decoded → World r
  logout_refresh w now (claims_of c) = kept_store w (revoke_from_claims r c now w.store)
  logout_refresh w now expired = w
  logout_refresh w now forbidden_algorithm = w
  logout_refresh w now invalid_token = w

  abbrev with_bearer : World r → (now : ℕ) → Option j.Token → World r
  with_bearer w now none = w
  with_bearer w now (some token) = logout_access w now (decode_token j token now)

  abbrev with_body : World r → (now : ℕ) → Option j.Token → World r
  with_body w now none = w
  with_body w now (some token) = logout_refresh w now (decode_token j token now)

  -- `logout`, of the bearer token and the refresh token of the body, where they are given
  unfoldable pub logout : World r → (now : ℕ) → (bearer_token body_token : Option j.Token) → World r
  logout w now bearer_token body_token = with_body (with_bearer w now bearer_token) now body_token
