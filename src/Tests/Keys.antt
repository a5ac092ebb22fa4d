-- ===== src/Tests/Keys.antt =====
-- Two requests, digested by their text, and a key that another tenant has taken.
use ghg_tool.Prelude.{◌≡◌, refl, String, [], ◌∷◌, arith}
use ghg_tool.Prelude.Dict.{string_eq, lookup}
use ghg_tool.Services.Idempotency.{
  endpoint, KeyRow, KeyTable, miss, hit, check_idempotency, store_response,
}
use ghg_tool.Services.Idempotency.Replay.{check-store_response, store_response-blocked}

abbrev digest : String → String
digest body = body

check-store_response_example :
    check_idempotency digest (store_response digest [] "k1" 1 "a" 201 "done" 1000) "k1" 1 "a" 2000
    ≡ hit 201 "done"
unfolding lookup
check-store_response_example =
    check-store_response digest [] "k1" 1 "a" 201 "done" 1000 refl "k1" 1 "a" 2000

-- Tenant 1 holds the key that tenant 2 sends.
abbrev taken_row : KeyRow String
taken_row = record {
  tenant_id = 1;
  endpoint_of = endpoint;
  request_hash = "a";
  response_status = 201;
  response_body = "done";
  expires_at = 90000;
}

abbrev taken_table : KeyTable String
taken_table = ("k1", taken_row) ∷ []

store_response-blocked_example :
    (check_idempotency digest taken_table "k1" 2 "b" 2000 ≡ miss)
    × (store_response digest taken_table "k1" 2 "b" 201 "ok" 2000 ≡ taken_table)
    × (check_idempotency digest
          (store_response digest taken_table "k1" 2 "b" 201 "ok" 2000)
          "k1"
          2
          "b"
          2060
        ≡ miss)
unfolding lookup
store_response-blocked_example =
    store_response-blocked digest taken_table "k1" taken_row 2 "b" 201 "ok" 2000 2060 refl refl
      (omega arith)
