-- ===== src/Services/Idempotency/Replay.antt =====
-- What a stored response answers later, and when storing has no effect.
use ghg_tool.Prelude.{
  ℕ, ◌+◌, ◌≤◌, ◌≡◌, false, ◌&&◌, String, none, some, str_eq, ltb, ◌==◌, arith, if◌then◌else◌,
}
use ghg_tool.Prelude.Dict.{string_eq, lookup}
use ghg_tool.Domain.Factor.{Uuid}
use ghg_tool.Services.Idempotency.{
  ttl, KeyRow, KeyTable, miss, hit, key_reused, is_visible, answer, insert_if_new,
  check_idempotency, store_response,
}

module _ {Body : Type 0} (canonical_hash : Body → String) (table : KeyTable Body)
    (key : String) where
  -- Once a response is stored under a new key, a check of that key by that tenant, within 24 hours,
  -- replays it for a request of the same digest and refuses any other request; after that time, and
  -- for every other tenant, the key is not found; and other keys answer as before.
  pub check-store_response :
      (tenant_id : Uuid) (body : Body) (status : ℕ) (response : Body) (now : ℕ)
      → lookup key table ≡ none
      → (k : String) (reader : Uuid) (request : Body) (later : ℕ)
      → check_idempotency canonical_hash
          (store_response canonical_hash table key tenant_id body status response now)
          k
          reader
          request
          later
        ≡ (if str_eq key k
            then if tenant_id == reader && ltb later (now + ttl)
              then if str_eq (canonical_hash body) (canonical_hash request)
                then hit status response
                else key_reused
              else miss
            else check_idempotency canonical_hash table k reader request later)
  unfolding check_idempotency store_response answer insert_if_new lookup
  check-store_response tenant_id body status response now new k reader request later = ground arith

  -- Where the key's row belongs to another tenant, or has expired but is still in the table, the
  -- tenant's check finds nothing, storing the response changes nothing, and so every later check
  -- finds nothing either: the response is never replayed.
  pub store_response-blocked :
      (row : KeyRow Body) (tenant_id : Uuid) (body : Body) (status : ℕ) (response : Body)
      (now later : ℕ)
      → lookup key table ≡ some row
      → is_visible row tenant_id now ≡ false
      → now ≤ later
      → (check_idempotency canonical_hash table key tenant_id body now ≡ miss)
        × (store_response canonical_hash table key tenant_id body status response now ≡ table)
        × (check_idempotency canonical_hash
              (store_response canonical_hash table key tenant_id body status response now)
              key
              tenant_id
              body
              later
            ≡ miss)
  unfolding check_idempotency store_response answer insert_if_new
  store_response-blocked row tenant_id body status response now later found hidden h =
      (ground arith, ground arith, ground arith)
