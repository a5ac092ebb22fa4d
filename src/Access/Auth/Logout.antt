-- ===== src/Access/Auth/Logout.antt =====
-- What a logout ends.
use ghg_tool.Prelude.{
  ℕ, ◌+◌, ◌≤◌, ◌<◌, ◌≡◌, refl, ◌∙◌, Bool, true, false, ◌&&◌, String, none, some, str_eq, arith,
}
use ghg_tool.Access.Redis.{RedisLike, RedisLaws}
use ghg_tool.Access.Blacklist.{
  recorded, exp_int, max_ttl, revoke_from_claims, is_revoked-revoke_from_claims,
}
use ghg_tool.Access.Sessions.{
  SessionRow, find_jti, is_open, revoke_where, revoke_row, revoke_auth_session_by_jti,
  find_jti-revoke_where, revoke_row-closed, find_jti-jti,
}
use ghg_tool.Access.SessionCheck.{revoked, check_session, check_session-closed, needs_session}
use ghg_tool.Access.CurrentUser.{unauthorized, get_current_user, get_current_user-revoked}
use ghg_tool.Access.Tokens.{Jwt, Claims, claims_of, decode_token}
use ghg_tool.Access.Auth.{World, logout, logout_claims}

module _ (j : Jwt) (r : RedisLike) (laws : RedisLaws r) (w : World r) (now : ℕ) (token : j.Token)
    (c : Claims) (row : SessionRow) (t : r.Store) (decodes : decode_token j token now ≡ claims_of c)
    (jti : str_eq c.jti "" ≡ false) (sub : str_eq c.sub "" ≡ false)
    (found : find_jti c.jti w.sessions ≡ some row) (own : str_eq row.user_id c.sub ≡ true)
    (written : revoke_from_claims r c now w.store ≡ recorded t) where
  abbrev own_row : SessionRow → Bool
  own_row row = str_eq row.jti c.jti && str_eq row.user_id c.sub && is_open row

  logout-world :
      logout j w now (some token) none
      ≡ record w { sessions = (revoke_where none own_row now w.sessions).1; store = t }
  unfolding logout logout_claims revoke_auth_session_by_jti
  logout-world = rw (decodes) (rw (jti, sub, written) refl)

  find_jti-same : str_eq row.jti c.jti ≡ true
  find_jti-same = find_jti-jti c.jti w.sessions row found

  -- After a logout with a token that decodes, has a session row of its user, and whose revocation
  -- the blacklist records, every later request with that token is refused twice, for as long as the
  -- token decodes to the same claims and, its expiry lying at most 8 days ahead, has not expired:
  -- the session check answers that the session is revoked, on every path that needs one, and the
  -- user of the request is refused.
  pub logout-refused :
      exp_int c.exp ≤ now + max_ttl
      → (is_uuid : String → Bool) (path : String) (later : ℕ) → needs_session path ≡ true
      → now ≤ later
      → later < exp_int c.exp
      → decode_token j token later ≡ claims_of c
      → (check_session j path (some token) later (some (logout j w now (some token) none).sessions)
          ≡ revoked)
        × (get_current_user is_uuid j r (some token) later (logout j w now (some token) none).store
            ≡ unauthorized)
  logout-refused near is_uuid path later needs g live again = (
    check_session-closed j path token later c again _ (revoke_row none own_row now row)
        (rw logout-world (find_jti-revoke_where none own_row now c.jti w.sessions ∙ rw found refl))
        needs jti (revoke_row-closed none own_row now row (ground (arith, find_jti-same, own))),
    get_current_user-revoked is_uuid j r token c later (logout j w now (some token) none).store
        again
        (rw logout-world
          (is_revoked-revoke_from_claims r laws now w.store t c jti near written later g live)),
  )
