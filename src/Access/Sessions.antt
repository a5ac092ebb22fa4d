-- ===== src/Access/Sessions.antt =====
-- application/services/session_service.py and api/routers/sessions.py: the rows of auth.sessions, on
-- the table of alembic/versions/0017_M16_auth_sessions.py, whose `jti` is unique; and
-- api/middleware/session_check.py, which asks them. Identifiers are compared as texts, in the form
-- that the database prints. The update of last_seen_at that a request starts in the background is left
-- out, and so is the order of the listing by it.
use ghg_tool.Prelude.{
  ℕ, ◌≡◌, Bool, true, false, not, ◌&&◌, ◌||◌, String, Option, none, some, List, [], ◌∷◌, map, keep,
  take, count_if, refl, arith, str_eq, if◌then◌else◌,
}
use ghg_tool.Prelude.Text.{Codes}

pub record SessionRow : Type 0 where
  pub id : String
  pub user_id : String
  pub tenant_id : String
  pub jti : String
  pub ip_address : Option String
  pub user_agent : Option Codes
  pub revoked_at : Option ℕ
  pub revoked_by : Option String

abbrev pub Sessions : Type 0
Sessions = List SessionRow

abbrev pub max_user_agent_len : ℕ
max_user_agent_len = 500

-- (user_agent or "")[:_MAX_USER_AGENT_LEN] or None
unfoldable pub kept_agent : Option Codes → Option Codes
kept_agent none = none
kept_agent (some []) = none
kept_agent (some (c ∷ agent)) = some (take max_user_agent_len (c ∷ agent))

-- SELECT ... WHERE jti = :jti LIMIT 1
unfoldable pub find_jti : String → Sessions → Option SessionRow
find_jti jti [] = none
find_jti jti (row ∷ rows) = if str_eq row.jti jti then some row else find_jti jti rows

abbrev add_row : Option SessionRow → SessionRow → Sessions → Option Sessions
add_row none row rows = some (row ∷ rows)
add_row (some taken) row rows = none

-- `insert_auth_session`; a second row of one jti violates the constraint, and the call raises.
unfoldable pub insert_auth_session :
    (id user_id tenant_id jti : String) → Option String → Option Codes → Sessions → Option Sessions
insert_auth_session id user_id tenant_id jti ip_address user_agent rows =
    add_row (find_jti jti rows)
      (record {
        id = id;
        user_id = user_id;
        tenant_id = tenant_id;
        jti = jti;
        ip_address = ip_address;
        user_agent = kept_agent user_agent;
        revoked_at = none;
        revoked_by = none;
      })
      rows

abbrev pub is_open : SessionRow → Bool
is_open row = elim row.revoked_at [ none ↦ true | some instant ↦ false ]

-- UPDATE ... SET revoked_at = now, and revoked_by where the caller gives it, WHERE a test; and the
-- number of rows.
abbrev set_by : Option String → Option String → Option String
set_by none old = old
set_by (some user) old = some user

abbrev pub revoke_row : Option String → (SessionRow → Bool) → (now : ℕ) → SessionRow → SessionRow
revoke_row by chosen now row =
    if chosen row
    then record row { revoked_at = some now; revoked_by = set_by by row.revoked_by }
    else row

abbrev pub revoke_where : Option String → (SessionRow → Bool) → (now : ℕ) → Sessions → ℕ × Sessions
revoke_where by chosen now rows = (count_if chosen rows, map (revoke_row by chosen now) rows)

-- `revoke_auth_session_by_jti`
unfoldable pub revoke_auth_session_by_jti :
    (jti user_id : String) → (now : ℕ) → Sessions → ℕ × Sessions
revoke_auth_session_by_jti jti user_id =
    revoke_where none
      (λ (row : SessionRow). str_eq row.jti jti && str_eq row.user_id user_id && is_open row)

-- Who calls, of a token that has been checked.
pub record Caller : Type 0 where
  pub sub : String
  pub tenant_id : String
  pub jti : String

abbrev pub is_own : Caller → SessionRow → Bool
is_own user row = str_eq row.user_id user.sub && str_eq row.tenant_id user.tenant_id

pub record SessionItem : Type 0 where
  pub id : String
  pub ip_address : Option String
  pub user_agent : Option Codes
  pub is_current : Bool

-- `list_sessions`
unfoldable pub list_sessions : Caller → Sessions → List SessionItem
list_sessions user rows =
    map
      (λ (row : SessionRow). record {
        id = row.id;
        ip_address = row.ip_address;
        user_agent = row.user_agent;
        is_current = str_eq row.jti user.jti;
      })
      (keep (λ (row : SessionRow). is_own user row && is_open row) rows)

-- `revoke_all_except_current`
unfoldable pub revoke_all_except_current : Caller → (now : ℕ) → Sessions → ℕ × Sessions
revoke_all_except_current user =
    revoke_where (some user.sub)
      (λ (row : SessionRow). is_own user row && not (str_eq row.jti user.jti) && is_open row)

abbrev pub find_id : String → Sessions → Option SessionRow
find_id id [] = none
find_id id (row ∷ rows) = if str_eq row.id id then some row else find_id id rows

-- The answers of `revoke_session`: done, or 404, 403, 422.
pub data Revocation : Type 0 where
  session_revoked : Sessions → Revocation
  session_not_found session_ownership_mismatch cannot_revoke_current_session : Revocation

abbrev revoke_found : Caller → Option SessionRow → (now : ℕ) → Sessions → Revocation
revoke_found user none now rows = session_not_found
revoke_found user (some row) now rows =
    if not (is_open row)
    then session_not_found
    else if not (is_own user row)
    then session_ownership_mismatch
    else if str_eq row.jti user.jti
    then cannot_revoke_current_session
    else session_revoked
        (revoke_where (some user.sub) (λ (r : SessionRow). str_eq r.id row.id) now rows).1

unfoldable pub revoke_session : Caller → String → (now : ℕ) → Sessions → Revocation
revoke_session user session_id now rows = revoke_found user (find_id session_id rows) now rows

-- A search by identifier finds the row that it found before, as the update left it.
abbrev pub updated :
    Option String → (SessionRow → Bool) → (now : ℕ) → Option SessionRow → Option SessionRow
updated by chosen now none = none
updated by chosen now (some row) = some (revoke_row by chosen now row)

revoke_row-jti :
    (by : Option String) (chosen : SessionRow → Bool) (now : ℕ) (row : SessionRow)
    → (revoke_row by chosen now row).jti ≡ row.jti
revoke_row-jti by chosen now row = ground arith

pub find_jti-revoke_where :
    (by : Option String) (chosen : SessionRow → Bool) (now : ℕ) (jti : String) (rows : Sessions)
    → find_jti jti (revoke_where by chosen now rows).1 ≡ updated by chosen now (find_jti jti rows)
unfolding find_jti
find_jti-revoke_where by chosen now jti [] = refl
find_jti-revoke_where by chosen now jti (row ∷ rows) =
    ground (arith, revoke_row-jti by chosen now row, find_jti-revoke_where by chosen now jti rows)

-- A row that an update chooses is closed after it, and a closed row stays closed.
pub revoke_row-closed :
    (by : Option String) (chosen : SessionRow → Bool) (now : ℕ) (row : SessionRow)
    → (chosen row || not (is_open row)) ≡ true
    → is_open (revoke_row by chosen now row) ≡ false
revoke_row-closed by chosen now row h = ground arith

pub find_jti-jti :
    (jti : String) (rows : Sessions) (row : SessionRow)
    → find_jti jti rows ≡ some row
    → str_eq row.jti jti ≡ true
unfolding find_jti
find_jti-jti jti [] row h = ground arith
find_jti-jti jti (first ∷ rows) row h = ground (arith, find_jti-jti jti rows row)
