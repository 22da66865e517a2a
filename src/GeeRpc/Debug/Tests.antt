-- ===== src/GeeRpc/Debug/Tests.antt =====
-- A service that is called, and its page.
use distributed_study.Common.{
  false, ◌≡◌, refl, bytes, Str, lookup, insert, str_beq, str_key, Option, none, some, List, [], ◌∷◌,
  ◌++◌, true, arith,
}
use distributed_study.GeeRpc.Service
use distributed_study.GeeRpc.Service.{plain, MethodInfo, Service}
use distributed_study.GeeRpc.Server.{Server}
use distributed_study.GeeRpc.Debug.{
  DebugService, debug_services, serve_http, call_method, call_methods, listed_calls,
}
use distributed_study.GeeRpc.Debug.Counting.{times, listed_calls_lem}

program : Unit {0}
unfolding debug_services serve_http call_method call_methods listed_calls times Service.call lookup
    insert str_beq
program = tt

abbrev sum : MethodInfo
sum = record {
  name = bytes "Sum";
  num_in = 3;
  is_variadic = false;
  num_out = 1;
  out_is_error = true;
  arg_type = plain (bytes "int") [];
  reply_type = plain (bytes "int") [];
}

abbrev serving : Server
serving = record {
  service_map =
      (
        bytes "Foo",
        record {
          name = bytes "Foo";
          methods = (bytes "Sum", record { method = sum; num_calls = 3 }) ∷ [];
        },
      )
      ∷ [];
}

-- A page that is its services' names, and fails behind them.
abbrev names : List DebugService → Str × Option Str
names [] = ([], some (bytes "closed"))
names (d ∷ ds) = (d.name ++ (names ds).0, (names ds).1)

page : serve_http names serving ≡ bytes "Foorpc: error executing template: closed" ++ 10 ∷ []
unfolding program
page = refl

abbrev calls : List (Str × Str)
calls =
    (bytes "Foo", bytes "Sum")
    ∷ (bytes "Foo", bytes "Min")
    ∷ (bytes "Bar", bytes "Sum")
    ∷ (bytes "Foo", bytes "Sum")
    ∷ []

listed_calls_lem_example :
    listed_calls
      (bytes "Foo")
      (bytes "Sum")
      (debug_services (call_methods (λ m. none) calls serving).service_map)
    ≡ some 5
unfolding program
listed_calls_lem_example =
    listed_calls_lem (λ m. none) calls (bytes "Foo") (bytes "Sum") serving 3 (omega arith) refl
