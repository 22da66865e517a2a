-- ===== src/GeeRpc/Debug.antt =====
-- geerpc/debug.go: the page over the registered services, with the number of calls of each method.
--
-- The template's `Execute` is an argument: what it writes, and its error. `Range` goes through the
-- services in any order, here the order of the map.
pub mod Counting
mod Tests
use distributed_study.Common.{
  ℕ, Str, Dict, lookup, insert, bytes, Option, none, some, ◌>>=◌, List, [], ◌∷◌, ◌++◌, ◌==◌,
  str_key, if◌then◌else◌,
}
use distributed_study.GeeRpc.Service
use distributed_study.GeeRpc.Service.{Service, MethodType, MethodInfo}
use distributed_study.GeeRpc.Server.{Server}

pub record DebugService : Type 0 where
  pub name : Str
  pub method : Dict Str MethodType

-- The function that `Range` runs, over the map.
unfoldable pub debug_services : Dict Str Service → List DebugService
debug_services [] = []
debug_services ((namei, svc) ∷ rest) =
    record { name = namei; method = svc.methods } ∷ debug_services rest

unfoldable pub serve_http : (List DebugService → Str × Option Str) → Server → Str
serve_http execute server =
    let (page, err) = execute (debug_services server.service_map) in
    elim err [
      | none ↦ page
      | some e ↦ page ++ (bytes "rpc: error executing template: " ++ (e ++ 10 ∷ []))
    ]

-- A call of a method of the server; the services are behind pointers.
unfoldable pub call_method : (MethodInfo → Option Str) → Str → Str → Server → Server
call_method invoke service_name method_name server = elim (lookup service_name server.service_map) [
  | none ↦ server
  | some svc ↦ elim (Service.call invoke method_name svc) [
    | none ↦ server
    | some (_, svc') ↦ record server { service_map = insert service_name svc' server.service_map }
  ]
]

unfoldable pub call_methods : (MethodInfo → Option Str) → List (Str × Str) → Server → Server
call_methods invoke [] server = server
call_methods invoke ((service_name, method_name) ∷ calls) server =
    call_methods invoke calls (call_method invoke service_name method_name server)

-- What the page has for a method: `NumCalls`.
unfoldable pub listed_calls : Str → Str → List DebugService → Option ℕ
listed_calls service_name method_name [] = none
listed_calls service_name method_name (d ∷ ds) =
    if d.name == service_name
    then (do mtype ← lookup method_name d.method; some mtype.num_calls)
    else listed_calls service_name method_name ds
