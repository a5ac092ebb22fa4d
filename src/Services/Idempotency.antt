-- ===== src/Services/Idempotency.antt =====
-- application/services/idempotency_service.py and its table cache.idempotency_keys, whose primary key
-- is the key alone. The SHA-256 digest of a request body is a parameter; a digest has 64 characters
-- and no blanks, so `strip` leaves it. Bodies are of any type, times are seconds.
pub mod Replay
use ghg_tool.Prelude.{
  ℕ, ◌+◌, Bool, true, false, ◌&&◌, String, Option, none, some, List, [], ◌∷◌, str_eq, ltb, ◌==◌,
  if◌then◌else◌,
}
use ghg_tool.Prelude.Dict.{Dict, string_eq, lookup}
use ghg_tool.Domain.Factor.{Uuid}

-- _TTL_HOURS, in seconds
abbrev pub ttl : ℕ
ttl = 86400

abbrev pub endpoint : String
endpoint = "POST /api/v1/calc/insert"

module _ (Body : Type 0) where
  pub record KeyRow : Type 0 where
    pub tenant_id : Uuid
    pub endpoint_of : String
    pub request_hash : String
    pub response_status : ℕ
    pub response_body : Body
    pub expires_at : ℕ

  -- What a check gives: no row, a stored response, or `IdempotencyKeyReusedError`.
  pub data Check : Type 0 where
    miss : Check
    hit : ℕ → Body → Check
    key_reused : Check

  abbrev pub KeyTable : Type 0
  KeyTable = Dict String KeyRow

-- The row is the tenant's and has not expired.
abbrev pub is_visible : {Body : Type 0} → KeyRow Body → Uuid → ℕ → Bool
is_visible row tenant_id now = row.tenant_id == tenant_id && ltb now row.expires_at

module _ {Body : Type 0} (canonical_hash : Body → String) where
  -- The row of the SELECT, then the comparison of the digests.
  unfoldable pub answer : Option (KeyRow Body) → Uuid → Body → ℕ → Check Body
  answer none tenant_id body now = miss
  answer (some row) tenant_id body now =
      if is_visible row tenant_id now
      then if str_eq row.request_hash (canonical_hash body)
        then hit row.response_status row.response_body
        else key_reused
      else miss

  unfoldable pub check_idempotency : KeyTable Body → String → Uuid → Body → ℕ → Check Body
  check_idempotency table key tenant_id body now = answer (lookup key table) tenant_id body now

  unfoldable pub insert_if_new :
      Option (KeyRow Body) → String → KeyRow Body → KeyTable Body → KeyTable Body
  insert_if_new none key row table = (key, row) ∷ table
  insert_if_new (some _) key row table = table

  -- INSERT ... ON CONFLICT (key) DO NOTHING
  unfoldable pub store_response :
      KeyTable Body
      → String
      → Uuid
      → Body
      → (response_status : ℕ) → (response_body : Body) → (now : ℕ) → KeyTable Body
  store_response table key tenant_id body response_status response_body now =
      insert_if_new (lookup key table) key
        (record {
          tenant_id = tenant_id;
          endpoint_of = endpoint;
          request_hash = canonical_hash body;
          response_status = response_status;
          response_body = response_body;
          expires_at = now + ttl;
        })
        table
