-- ===== src/Access/Users.antt =====
-- The users of api/routers/auth.py and application/services/auth_service.py: how a login finds its
-- user, and whether the credentials are right. Whether a password fits a hash is for the package
-- bcrypt, a parameter that gives nothing on a malformed hash. The check of a password against a dummy
-- hash, which only takes time, is left out.
use ghg_tool.Prelude.{
  Bool, false, ◌&&◌, String, Option, none, some, List, [], ◌∷◌, str_eq, keep, if◌then◌else◌,
}

-- A row of ref.users with the codes of its role and tenant.
pub record UserRow : Type 0 where
  pub id : String
  pub username : String
  pub password_hash : String
  pub is_active : Bool
  pub role_code : String
  pub tenant_id : String
  pub tenant_code : String
  pub totp_enabled : Bool

pub record LoginRequest : Type 0 where
  pub username : String
  pub password : String
  pub tenant_code : Option String

pub data Lookup : Type 0 where
  no_user ambiguous : Lookup
  one_user : UserRow → Lookup

abbrev pub first_user : List UserRow → Lookup
first_user [] = no_user
first_user (u ∷ us) = one_user u

abbrev pub only_user : List UserRow → Lookup
only_user [] = no_user
only_user (u ∷ []) = one_user u
only_user (u ∷ v ∷ us) = ambiguous

-- `_lookup`: an empty tenant code counts as none.
unfoldable pub lookup_user : LoginRequest → List UserRow → Lookup
lookup_user body users = elim body.tenant_code [
  | none ↦ only_user (keep (λ (u : UserRow). str_eq u.username body.username) users)
  | some code ↦
      if str_eq code ""
      then only_user (keep (λ (u : UserRow). str_eq u.username body.username) users)
      else first_user (
          keep (λ (u : UserRow). str_eq u.username body.username && str_eq u.tenant_code code)
            users)
]

unfoldable pub find_user : String → List UserRow → Option UserRow
find_user id [] = none
find_user id (u ∷ us) = if str_eq u.id id then some u else find_user id us

-- `verify_password`, of bcrypt's answer
abbrev pub verified : Option Bool → Bool
verified none = false
verified (some fits) = fits

module _ (checkpw : String → String → Option Bool) where
  -- `authenticate_user`: whether the credentials are right
  unfoldable pub credentials_fit : LoginRequest → Lookup → Bool
  credentials_fit body no_user = false
  credentials_fit body ambiguous = false
  credentials_fit body (one_user u) =
      if u.is_active then verified (checkpw body.password u.password_hash) else false
