-- ===== src/Tests/Limits.antt =====
-- Calls of a counter with a window of 60 and a limit of 2, and requests of two callers.
use ghg_tool.Prelude.{◌≡◌, refl, ◌≤◌, none, some, List, [], ◌∷◌, String, Option, arith}
use ghg_tool.Prelude.Text.{Codes, codes, starts}
use ghg_tool.Prelude.Dict.{lookup}
use ghg_tool.Access.RateLimit.{Request, call_next, bearer_token, new_counter, dispatch}
use ghg_tool.Access.RateLimit.Bound.{span}
use ghg_tool.Access.RateLimit.Middleware.{
  Arrival, ArriveInOrder, dispatch_all, passed, dispatch_all-bounded, dispatch-fresh_subject,
}

-- A token claims the subject "mallory", unless it is empty.
abbrev claimed : Codes → Option String
claimed [] = none
claimed (c ∷ token) = some "mallory"

abbrev by_host : String → String → Request
by_host path host = record {
  path = path;
  user_sub = none;
  authorization = [];
  client_host = some host;
}

abbrev arrivals : List Arrival
arrivals =
    (by_host "/api/v1/kpis" "h1", 0)
    ∷ (by_host "/healthz" "h1", 1)
    ∷ (by_host "/api/v1/kpis" "h1", 10)
    ∷ (by_host "/api/v1/kpis" "h1", 20)
    ∷ (by_host "/api/v1/kpis" "h2", 20)
    ∷ (by_host "/api/v1/kpis" "h1", 61)
    ∷ []

six_in_order : ArriveInOrder 0 arrivals
six_in_order =
    (omega arith, (omega arith, (omega arith, (omega arith, (omega arith, (omega arith, tt))))))

dispatch_all-bounded_example :
    span 60 60 "ip:h1" (passed claimed arrivals (dispatch_all claimed (new_counter 60 2) arrivals))
    ≤ 2
dispatch_all-bounded_example = dispatch_all-bounded claimed 60 2 arrivals six_in_order "ip:h1" 60

abbrev forged : Request
forged = record {
  path = "/api/v1/kpis";
  user_sub = none;
  authorization = codes "Bearer x";
  client_host = some "h1";
}

dispatch-fresh_subject_example : (dispatch claimed (new_counter 60 2) forged 30).0 ≡ call_next
unfolding bearer_token starts lookup
dispatch-fresh_subject_example =
    dispatch-fresh_subject claimed (new_counter 60 2) forged 30 (codes "x") "mallory" (omega arith)
      refl refl refl refl refl
