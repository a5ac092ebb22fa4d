-- ===== src/Tests/Logins.antt =====
-- A user who logs in, refreshes and logs out, over the in-memory store. A token is its claims.
use ghg_tool.Prelude.{
  ℕ, ◌≡◌, refl, Bool, true, false, not, ◌&&◌, none, some, [], ◌∷◌, String, Option, arith, str_eq,
  if◌then◌else◌,
}
use ghg_tool.Prelude.Dict.{lookup}
use ghg_tool.Prelude.Text.{lower, codes_eq}
use ghg_tool.Access.RateLimit.{new_counter, is_allowed, admit, drop_expired, bucket_of}
use ghg_tool.Access.Redis.{
  InMemoryRedis, InMemoryRedis-RedisLaws, Entries, prune, alive, memory_setex, memory_exists,
}
use ghg_tool.Access.Blacklist.{
  known, is_revoked, is_revoked-revoke, clamp_ttl, make_key, revoke, revoke_from_claims, remaining,
  exp_int,
}
use ghg_tool.Access.Rbac.{is_permitted}
use ghg_tool.Access.Rbac.Viewer.{is_reading, is_decision, is_permitted-separated}
use ghg_tool.Access.Sessions.{SessionRow, find_jti}
use ghg_tool.Access.SessionCheck.{check_session, needs_session, passed_on, revoked}
use ghg_tool.Access.CurrentUser.{
  CurrentUser, granted, unauthorized, get_current_user, check_user, user_of,
}
use ghg_tool.Access.CurrentUser.Granted.{IsAdmitted, get_current_user-granted}
use ghg_tool.Access.Auth.{World, Call, login, refresh, logout}
use ghg_tool.Access.Users.{UserRow, LoginRequest, lookup_user, credentials_fit, find_user}
use ghg_tool.Access.Auth.Issue.{new_row, new_access, new_tokens, login-access}
use ghg_tool.Access.Auth.Logout.{logout-refused}
use ghg_tool.Access.Auth.Replay.{login-refresh-again}
use ghg_tool.Access.Tokens.{
  Jwt, JwtLaws, Claims, claims_of, expired, is_current, number, decode_token, refresh_claims,
  create_refresh_token,
}

abbrev pub plain_jwt : Jwt
plain_jwt = record {
  Token = Claims;
  encode = λ c. c;
  header_alg = λ c. some "HS256";
  decode = λ c now. if is_current c.exp now then claims_of c else expired;
  is_demo_sentinel = λ c. false;
}

pub plain_jwt-JwtLaws : JwtLaws plain_jwt
plain_jwt-JwtLaws = record {
  header-encode = λ c. refl;
  demo-encode = λ c. refl;
  decode-encode = λ c now h. rw h refl;
}

abbrev no_entries : Entries
no_entries = λ k. none

-- The store after a revocation.
abbrev with_entry : (name : String) → (deadline now : ℕ) → Entries → Entries
with_entry name deadline now store =
    λ k. if str_eq name k then some ("revoked", deadline) else prune now store k

abbrev one_revoked : Entries
one_revoked = with_entry "jwt:blacklist:t1" 4600 1000 no_entries

is_revoked-revoke_example : is_revoked InMemoryRedis "t1" 5000 one_revoked ≡ known false
unfolding revoke make_key clamp_ttl memory_setex
is_revoked-revoke_example =
    is_revoked-revoke InMemoryRedis InMemoryRedis-RedisLaws 1000 no_entries one_revoked "t1" 3600
      refl "t1" 5000 (omega arith)

abbrev user : UserRow
user = record {
  id = "u1";
  username = "anna";
  password_hash = "h(pw)";
  is_active = true;
  role_code = "editor";
  tenant_id = "n1";
  tenant_code = "GRES";
  totp_enabled = false;
}

-- A password fits the one hash of the table.
abbrev checkpw : String → String → Option Bool
checkpw password hash = some (str_eq password "pw")

-- Every text but the empty one passes for a UUID.
abbrev is_uuid : String → Bool
is_uuid s = if str_eq s "" then false else true

abbrev world : World InMemoryRedis
world = record {
  users = user ∷ [];
  sessions = [];
  store = no_entries;
  login_limiter = new_counter 60 5;
}

abbrev pub call_at : ℕ → (session_id access_jti refresh_jti : String) → Call
call_at now session_id access_jti refresh_jti = record {
  now = now;
  client_ip = some "10.0.0.1";
  user_agent = none;
  session_id = session_id;
  access_jti = access_jti;
  refresh_jti = refresh_jti;
  partial_jti = "p1";
}

abbrev body : LoginRequest
body = record { username = "anna"; password = "pw"; tenant_code = none }

abbrev anna : CurrentUser
anna = record { sub = "u1"; role = "editor"; tenant_id = "n1"; jti = "t1" }

abbrev first_call : Call
first_call = call_at 1000 "s1" "t1" "r1"

login-access_example :
    ((login plain_jwt checkpw world first_call body).0
      ≡ new_tokens plain_jwt first_call "u1" "editor" "n1")
    × (check_session plain_jwt "/api/v1/kpis"
          (some (new_access plain_jwt first_call "u1" "editor" "n1"))
          2000
          (some (login plain_jwt checkpw world first_call body).1.sessions)
        ≡ passed_on)
    × (get_current_user is_uuid plain_jwt InMemoryRedis
          (some (new_access plain_jwt first_call "u1" "editor" "n1"))
          2000
          no_entries
        ≡ granted anna)
unfolding lookup_user credentials_fit find_jti is_revoked memory_exists is_allowed admit
    drop_expired bucket_of lookup prune alive
login-access_example =
    login-access plain_jwt plain_jwt-JwtLaws InMemoryRedis checkpw is_uuid world first_call body
      user refl refl refl refl refl refl refl "/api/v1/kpis" 2000 no_entries
      ((login plain_jwt checkpw world first_call body).1.sessions) (omega arith) refl refl

-- The session of that login, and its token's claims.
abbrev claims : Claims
claims = record {
  sub = "u1";
  role = "editor";
  tenant_id = "n1";
  jti = "t1";
  exp = number 4600;
  token_type = "access";
  pre_2fa = false;
}

abbrev row : SessionRow
row = new_row first_call "u1" "n1"

abbrev signed_in : World InMemoryRedis
signed_in = record world { sessions = row ∷ [] }

logout-refused_example :
    (check_session plain_jwt "/api/v1/kpis"
        (some claims)
        3000
        (some (logout plain_jwt signed_in 2000 (some claims) none).sessions)
      ≡ revoked)
    × (get_current_user is_uuid plain_jwt InMemoryRedis
          (some claims)
          3000
          (logout plain_jwt signed_in 2000 (some claims) none).store
        ≡ unauthorized)
unfolding find_jti revoke_from_claims revoke make_key clamp_ttl remaining exp_int memory_setex
    decode_token lower codes_eq needs_session
logout-refused_example =
    logout-refused plain_jwt InMemoryRedis InMemoryRedis-RedisLaws signed_in 2000 claims claims row
      (with_entry "jwt:blacklist:t1" 4600 2000 no_entries) refl refl refl refl refl refl
      (omega arith) is_uuid "/api/v1/kpis" 3000 refl (omega arith) (omega arith) refl

-- The same refresh token, at 2000 and at 3000.
abbrev second_call : Call
second_call = call_at 2000 "s2" "t2" "r2"

abbrev third_call : Call
third_call = call_at 3000 "s3" "t3" "r3"

abbrev refresh_token : Claims
refresh_token = create_refresh_token plain_jwt "u1" "n1" "r1" 1000

abbrev once : Entries
once = with_entry "jwt:blacklist:r1" 605800 2000 no_entries

-- After the login of the first call.
abbrev after_login : World InMemoryRedis
after_login = (login plain_jwt checkpw world first_call body).1

login-refresh-again_example :
    ((login plain_jwt checkpw world first_call body).0
      ≡ new_tokens plain_jwt first_call "u1" "editor" "n1")
    × ((refresh plain_jwt after_login second_call refresh_token).0
        ≡ new_tokens plain_jwt second_call "u1" "editor" "n1")
    × (is_revoked InMemoryRedis "r1" 3000
          (refresh plain_jwt after_login second_call refresh_token).1.store
        ≡ known true)
    × ((refresh plain_jwt
          (refresh plain_jwt after_login second_call refresh_token).1
          third_call
          refresh_token).0
        ≡ new_tokens plain_jwt third_call "u1" "editor" "n1")
unfolding find_jti find_user revoke_from_claims revoke make_key clamp_ttl remaining exp_int
    memory_setex refresh_claims lookup_user credentials_fit is_allowed admit drop_expired bucket_of
    lookup
login-refresh-again_example =
    login-refresh-again plain_jwt plain_jwt-JwtLaws InMemoryRedis checkpw world body user first_call
      second_call third_call InMemoryRedis-RedisLaws refl refl refl refl refl
      (record {
        real = refl;
        unknown = (refl, refl, refl, refl);
        apart = (refl, refl, refl, refl, refl);
      })
      (omega arith) (omega arith) (omega arith) once
      (with_entry "jwt:blacklist:r1" 605800 3000 once) refl refl

get_current_user-granted_example :
    (c : Claims) × IsAdmitted is_uuid plain_jwt InMemoryRedis claims 2000 no_entries anna c
unfolding get_current_user decode_token lower codes_eq check_user is_revoked memory_exists user_of
    prune alive
get_current_user-granted_example =
    get_current_user-granted is_uuid plain_jwt InMemoryRedis claims 2000 no_entries anna refl

is_permitted-separated_example :
    ((is_permitted "viewer" "emissions" "write" && not (is_reading "write")) ≡ false)
    × ((is_permitted "editor" "emissions" "write" && is_decision "write") ≡ false)
is_permitted-separated_example = is_permitted-separated "emissions" "write"
