-- ===== src/Access/Auth/Issue.antt =====
-- What a login gives: a token that is accepted, as long as its session and identifier are.
use Prim.Native.String.{◌++◌ as str_append}
use ghg_tool.Prelude.{
  ℕ, ◌+◌, ◌<◌, ◌≡◌, refl, ap, ◌∙◌, Bool, true, false, ◌&&◌, String, Option, none, some, ◌∷◌, eq_iff,
  arith,
}
use ghg_tool.Access.RateLimit.{is_allowed}
use ghg_tool.Access.Redis.{RedisLike}
use ghg_tool.Access.Blacklist.{known, is_revoked}
use ghg_tool.Access.Sessions.{Sessions, SessionRow, find_jti, insert_auth_session, kept_agent}
use ghg_tool.Access.SessionCheck.{passed_on, check_session, check_session-open, is_one_of}
use ghg_tool.Access.CurrentUser.{granted, get_current_user, check_user, user_of, all_roles}
use ghg_tool.Access.Tokens.{
  Jwt, JwtLaws, claims_of, decode_token, decode_token-encode, access_claims, access_token_ttl,
  create_access_token, create_refresh_token,
}
use ghg_tool.Access.Auth.{World, Call, Reply, tokens, ip_or_unknown, issue, login_user, login}
use ghg_tool.Access.Users.{UserRow, LoginRequest, one_user, lookup_user, credentials_fit}

-- The row that a call inserts for its access token.
abbrev pub new_row : Call → (sub tenant_id : String) → SessionRow
new_row call sub tenant_id = record {
  id = call.session_id;
  user_id = sub;
  tenant_id = tenant_id;
  jti = call.access_jti;
  ip_address = some (ip_or_unknown call.client_ip);
  user_agent = kept_agent call.user_agent;
  revoked_at = none;
  revoked_by = none;
}

abbrev pub new_access : (j : Jwt) → Call → (sub role tenant_id : String) → j.Token
new_access j call sub role tenant_id =
    create_access_token j sub role tenant_id call.access_jti false call.now access_token_ttl

abbrev pub new_tokens : (j : Jwt) → Call → (sub role tenant_id : String) → Reply j
new_tokens j call sub role tenant_id =
    tokens (new_access j call sub role tenant_id)
      (create_refresh_token j sub tenant_id call.refresh_jti call.now)

module _ (j : Jwt) (laws : JwtLaws j) where
  pub decode_token-access :
      (call : Call) (sub role tenant_id : String) (later : ℕ)
      → later < call.now + access_token_ttl
      → decode_token j (new_access j call sub role tenant_id) later
        ≡ claims_of
            (access_claims sub role tenant_id call.access_jti false call.now access_token_ttl)
  unfolding create_access_token access_claims
  decode_token-access call sub role tenant_id later h =
      decode_token-encode j laws _ later (ground arith)

  pub issue-tokens :
      (r : RedisLike) (w : World r) (before : Sessions) (call : Call) (sub role tenant_id : String)
      → find_jti call.access_jti w.sessions ≡ none
      → issue j w before call sub role tenant_id ≡ (
        new_tokens j call sub role tenant_id,
        record w { sessions = new_row call sub tenant_id ∷ w.sessions },
      )
  unfolding issue insert_auth_session access_claims
  issue-tokens r w before call sub role tenant_id fresh =
      rw (decode_token-access call sub role tenant_id call.now (omega arith), fresh) refl

  pub login-tokens :
      (r : RedisLike) (checkpw : String → String → Option Bool) (w : World r) (call : Call)
      (body : LoginRequest) (u : UserRow)
      → (is_allowed w.login_limiter
          (str_append "login:ip:" (ip_or_unknown call.client_ip))
          call.now).0
        ≡ true
      → lookup_user body w.users ≡ one_user u
      → credentials_fit checkpw body (one_user u) ≡ true
      → u.totp_enabled ≡ false
      → find_jti call.access_jti w.sessions ≡ none
      → login j checkpw w call body ≡ (
        new_tokens j call u.id u.role_code u.tenant_id,
        record w {
          sessions = new_row call u.id u.tenant_id ∷ w.sessions;
          login_limiter =
              (is_allowed w.login_limiter
                (str_append "login:ip:" (ip_or_unknown call.client_ip))
                call.now).1;
        },
      )
  unfolding login login_user
  login-tokens r checkpw w call body u allowed found fits plain fresh =
      rw (allowed, found, fits, plain)
        (issue-tokens r _ w.sessions call u.id u.role_code u.tenant_id fresh)

  -- Let the counter admit a login, its credentials be those of the user found, who has no second
  -- factor, a role among the three and UUIDs for id and tenant, and no session have the identifier
  -- drawn for the access token. Then the login gives an access and a refresh token; and at any instant
  -- before the access token expires, for any store that answers that the identifier is not revoked
  -- and any table of sessions that has the token's row as the login left it, the session check passes
  -- a request with the token on to any path, and the request is that user's, in the role and the
  -- tenant of the table of users.
  pub login-access :
      (r : RedisLike) (checkpw : String → String → Option Bool) (is_uuid : String → Bool)
      (w : World r) (call : Call) (body : LoginRequest) (u : UserRow)
      → (is_allowed w.login_limiter
          (str_append "login:ip:" (ip_or_unknown call.client_ip))
          call.now).0
        ≡ true
      → lookup_user body w.users ≡ one_user u
      → credentials_fit checkpw body (one_user u) ≡ true
      → u.totp_enabled ≡ false
      → find_jti call.access_jti w.sessions ≡ none
      → is_one_of u.role_code all_roles ≡ true
      → (is_uuid u.id && is_uuid u.tenant_id) ≡ true
      → (path : String) (later : ℕ) (store : r.Store) (sessions : Sessions)
      → later < call.now + access_token_ttl
      → find_jti call.access_jti sessions
        ≡ find_jti call.access_jti (login j checkpw w call body).1.sessions
      → is_revoked r call.access_jti later store ≡ known false
      → ((login j checkpw w call body).0 ≡ new_tokens j call u.id u.role_code u.tenant_id)
        × (check_session j path
              (some (new_access j call u.id u.role_code u.tenant_id))
              later
              (some sessions)
            ≡ passed_on)
        × (get_current_user is_uuid j r
              (some (new_access j call u.id u.role_code u.tenant_id))
              later
              store
            ≡ granted (record {
              sub = u.id;
              role = u.role_code;
              tenant_id = u.tenant_id;
              jti = call.access_jti;
            }))
  unfolding get_current_user check_user user_of find_jti access_claims
  login-access r checkpw is_uuid w call body u allowed found fits plain fresh role ids path later
        store sessions h kept known_good =
      let answer = login-tokens r checkpw w call body u allowed found fits plain fresh in
      (
        ap (λ p. p.0) answer,
        check_session-open j path (new_access j call u.id u.role_code u.tenant_id) later
            (access_claims u.id u.role_code u.tenant_id call.access_jti false call.now
              access_token_ttl)
            (decode_token-access call u.id u.role_code u.tenant_id later h) sessions
            (new_row call u.id u.tenant_id)
            (kept
              ∙ rw (ap (λ p. p.1.sessions) answer)
                  (ground (arith, eq_iff call.access_jti call.access_jti)))
            refl,
        rw (decode_token-access call u.id u.role_code u.tenant_id later h)
            (rw (role, known_good, ids) refl),
      )
