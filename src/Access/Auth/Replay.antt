-- ===== src/Access/Auth/Replay.antt =====
-- What becomes of a refresh token that has been used.
use ghg_tool.Prelude.{
  ℕ, ◌+◌, ◌≤◌, ◌<◌, ◌≡◌, refl, sym, ap, ◌∙◌, Bool, true, false, ◌&&◌, String, Option, none, some,
  ◌∷◌, str_eq, arith,
}
use ghg_tool.Access.Redis.{RedisLike, RedisLaws}
use ghg_tool.Access.Blacklist.{
  recorded, known, exp_int, is_revoked, revoke_from_claims, is_revoked-revoke_from_claims,
}
use ghg_tool.Access.Sessions.{
  Sessions, SessionRow, find_jti, is_open, revoke_where, find_jti-revoke_where,
}
use ghg_tool.Access.Tokens.{
  Jwt, JwtLaws, Claims, claims_of, decode_token, decode_token-encode, refresh_claims,
  refresh_token_ttl, create_refresh_token,
}
use Prim.Native.String.{◌++◌ as str_append}
use mathlib.Core.Path.{subst}
use ghg_tool.Access.RateLimit.{is_allowed}
use ghg_tool.Access.Auth.{World, Call, ip_or_unknown, login, refresh}
use ghg_tool.Access.Users.{UserRow, LoginRequest, one_user, lookup_user, credentials_fit, find_user}
use ghg_tool.Access.Auth.Issue.{new_row, new_tokens, issue-tokens, login-tokens}

find_jti-kept :
    (chosen : SessionRow → Bool) (now : ℕ) (jti : String) (rows : Sessions)
    → find_jti jti rows ≡ none
    → find_jti jti (revoke_where none chosen now rows).1 ≡ none
find_jti-kept chosen now jti rows h = find_jti-revoke_where none chosen now jti rows ∙ rw h refl

module _ (j : Jwt) (laws : JwtLaws j) (r : RedisLike) (sub tenant_id jti : String)
    (issued : ℕ) where
  abbrev used : j.Token
  used = create_refresh_token j sub tenant_id jti issued

  abbrev claims : Claims
  claims = refresh_claims sub tenant_id jti issued

  decode-used :
      (now : ℕ) → now < issued + refresh_token_ttl → decode_token j used now ≡ claims_of claims
  unfolding create_refresh_token refresh_claims
  decode-used now h = decode_token-encode j laws claims now (ground arith)

  -- The rows after a refresh: the token's own, if any, closed, and the new one.
  abbrev after : Sessions → Call → UserRow → Sessions
  after rows call u =
      new_row call sub u.tenant_id
      ∷ (revoke_where none (λ (row : SessionRow). str_eq row.jti jti && is_open row) call.now
          rows).1

  refresh-tokens :
      (w : World r) (call : Call) (u : UserRow) (t : r.Store)
      → call.now < issued + refresh_token_ttl
      → find_jti jti w.sessions ≡ none
      → find_user sub w.users ≡ some u
      → u.is_active ≡ true
      → revoke_from_claims r claims call.now w.store ≡ recorded t
      → find_jti call.access_jti w.sessions ≡ none
      → refresh j w call used ≡ (
        new_tokens j call sub u.role_code u.tenant_id,
        record w { sessions = after w.sessions call u; store = t },
      )
  unfolding refresh refresh_claims
  refresh-tokens w call u t live unknown user active written fresh =
      rw (decode-used call.now live) (
        rw (unknown, user, active, written)
          (issue-tokens j laws r _ w.sessions call sub u.role_code u.tenant_id
            (find_jti-kept _ call.now call.access_jti w.sessions fresh)))

  -- A refresh token whose identifier no session has, accepted twice.
  refresh-again :
      RedisLaws r
      → (w : World r) (first second : Call) (u : UserRow) (s t : r.Store) → issued ≤ first.now
      → first.now ≤ second.now
      → second.now < issued + refresh_token_ttl
      → str_eq jti "" ≡ false
      → find_jti jti w.sessions ≡ none
      → find_user sub w.users ≡ some u
      → u.is_active ≡ true
      → revoke_from_claims r claims first.now w.store ≡ recorded s
      → revoke_from_claims r claims second.now s ≡ recorded t
      → find_jti first.access_jti w.sessions ≡ none
      → find_jti second.access_jti w.sessions ≡ none
      → str_eq first.access_jti second.access_jti ≡ false
      → str_eq first.access_jti jti ≡ false
      → ((refresh j w first used).0 ≡ new_tokens j first sub u.role_code u.tenant_id)
        × (is_revoked r jti second.now (refresh j w first used).1.store ≡ known true)
        × ((refresh j (refresh j w first used).1 second used).0
            ≡ new_tokens j second sub u.role_code u.tenant_id)
  unfolding refresh_claims find_jti exp_int
  refresh-again store_laws w first second u s t known_past order live real unknown user active
        written again fresh_first fresh_second apart other =
      let one =
        refresh-tokens w first u s (omega (arith, order, live)) unknown user active written
          fresh_first in
      (
        ap (λ p. p.0) one,
        rw (ap (λ p. p.1.store) one) (
            is_revoked-revoke_from_claims r store_laws first.now w.store s claims real
              (omega (arith, known_past)) written second.now order live),
        rw one (
            ap (λ p. p.0)
              (refresh-tokens _ second u t live
                (rw other (find_jti-kept _ first.now jti w.sessions unknown)) user active again
                (rw apart (find_jti-kept _ first.now second.access_jti w.sessions fresh_second)))),
      )

credentials_fit-is_active :
    (checkpw : String → String → Option Bool) (body : LoginRequest) (u : UserRow)
    → credentials_fit checkpw body (one_user u) ≡ true
    → u.is_active ≡ true
unfolding credentials_fit
credentials_fit-is_active checkpw body u h = ground arith

-- The identifiers that a login and two refreshes draw: no session has them, and they differ.
pub record AreFresh (rows : Sessions) (start first second : Call) : Type 0 where
  pub real : str_eq start.refresh_jti "" ≡ false
  pub unknown :
      (find_jti start.access_jti rows ≡ none)
      × (find_jti start.refresh_jti rows ≡ none)
      × (find_jti first.access_jti rows ≡ none)
      × (find_jti second.access_jti rows ≡ none)
  pub apart :
      (str_eq start.access_jti start.refresh_jti ≡ false)
      × (str_eq start.access_jti first.access_jti ≡ false)
      × (str_eq start.access_jti second.access_jti ≡ false)
      × (str_eq first.access_jti start.refresh_jti ≡ false)
      × (str_eq first.access_jti second.access_jti ≡ false)

module _ (j : Jwt) (laws : JwtLaws j) (r : RedisLike) (checkpw : String → String → Option Bool)
    (w : World r) (body : LoginRequest) (u : UserRow) (start first second : Call) where
  abbrev entered : World r
  entered = (login j checkpw w start body).1

  abbrev refresh_token : j.Token
  refresh_token = create_refresh_token j u.id u.tenant_id start.refresh_jti start.now

  -- From a state, the token is accepted, found revoked, and accepted.
  abbrev TwiceFrom : World r → Type 0
  TwiceFrom v =
      ((refresh j v first refresh_token).0 ≡ new_tokens j first u.id u.role_code u.tenant_id)
      × (is_revoked r start.refresh_jti second.now (refresh j v first refresh_token).1.store
          ≡ known true)
      × ((refresh j (refresh j v first refresh_token).1 second refresh_token).0
          ≡ new_tokens j second u.id u.role_code u.tenant_id)

  -- The refresh token of a login is accepted twice: where the login is admitted, its credentials fit
  -- the user found by name and by id, who has no second factor, the identifiers drawn are new and
  -- differ, and the store records what it is asked to, a first refresh with the token gives tokens,
  -- after it the blacklist finds the token's identifier revoked, and a second refresh with it, until
  -- it expires, gives tokens again.
  pub login-refresh-again :
      RedisLaws r
      → (is_allowed w.login_limiter
          (str_append "login:ip:" (ip_or_unknown start.client_ip))
          start.now).0
        ≡ true
      → lookup_user body w.users ≡ one_user u
      → credentials_fit checkpw body (one_user u) ≡ true
      → u.totp_enabled ≡ false
      → find_user u.id w.users ≡ some u
      → AreFresh w.sessions start first second
      → start.now ≤ first.now
      → first.now ≤ second.now
      → second.now < start.now + refresh_token_ttl
      → (s t : r.Store)
      → revoke_from_claims r
          (refresh_claims u.id u.tenant_id start.refresh_jti start.now)
          first.now
          w.store
        ≡ recorded s
      → revoke_from_claims r
          (refresh_claims u.id u.tenant_id start.refresh_jti start.now)
          second.now
          s
        ≡ recorded t
      → ((login j checkpw w start body).0 ≡ new_tokens j start u.id u.role_code u.tenant_id)
        × ((refresh j entered first refresh_token).0
            ≡ new_tokens j first u.id u.role_code u.tenant_id)
        × (is_revoked r start.refresh_jti second.now (refresh j entered first refresh_token).1.store
            ≡ known true)
        × ((refresh j (refresh j entered first refresh_token).1 second refresh_token).0
            ≡ new_tokens j second u.id u.role_code u.tenant_id)
  unfolding find_jti
  login-refresh-again store_laws allowed found fits plain by_id fresh past order live s t written
        again =
      let answer =
        login-tokens j laws r checkpw w start body u allowed found fits plain fresh.unknown.0 in
      let twice =
        refresh-again j laws r u.id u.tenant_id start.refresh_jti start.now store_laws
          (record w {
            sessions = new_row start u.id u.tenant_id ∷ w.sessions;
            login_limiter =
                (is_allowed w.login_limiter (str_append "login:ip:" (ip_or_unknown start.client_ip))
                  start.now).1;
          })
          first second u s t past order live fresh.real (rw fresh.apart.0 fresh.unknown.1) by_id
          (credentials_fit-is_active checkpw body u fits) written again
          (rw fresh.apart.1 fresh.unknown.2) (rw fresh.apart.2 fresh.unknown.3) fresh.apart.4
          fresh.apart.3 in
      let moved = subst TwiceFrom (sym (ap (λ p. p.1) answer)) twice in
      (ap (λ p. p.0) answer, moved.0, moved.1, moved.2)
