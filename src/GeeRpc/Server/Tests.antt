-- ===== src/GeeRpc/Server/Tests.antt =====
-- A server with one service, and a request on it.
use distributed_study.Common.{
  has_byte, ℕ, ◌≡◌, refl, bytes, Str, lookup, insert, str_beq, none, some, List, [], map, ◌∷◌, ◌++◌,
  true, false, nat_key, str_key, arith,
}
use distributed_study.GeeRpc.Codec.{Header}
use distributed_study.GeeRpc.Service.Values.{
  make_values, new_argv, new_replyv, is_pointer, elem_type,
}
use distributed_study.GeeRpc.Service.{plain, pointer, composite, MethodType, Service}
use distributed_study.GeeRpc.Server.{
  no_method, already_defined, Server, ConnOption, Value, decoded, undecoded, handle, respond,
  crashes, then_serve, decode_argv, new_server, register, last_index, load_method, find_service,
  read_argv, read_request, serve_loop, serve_codec, serve_conn,
}
use distributed_study.GeeRpc.Server.Streams.{Request, stream, outcome, requests_served}
use distributed_study.GeeRpc.Server.Handling.{
  sends_called, Action, call_returns, meet_called, send_response, meet_sent, timer, start_handling,
  return_call, pass_called, respond_call, pass_sent, time_out, timeout_error, handling_step,
  handling_run,
}
use distributed_study.GeeRpc.Server.Handling.Leaks.{is_past_called, timer-leaks}

program : Unit {0}
unfolding new_server register last_index find_service read_request serve_codec serve_conn lookup
    insert str_beq has_byte load_method then_serve decode_argv make_values new_argv new_replyv
    is_pointer elem_type read_argv serve_loop start_handling return_call pass_called respond_call
    pass_sent time_out handling_step handling_run is_past_called
program = tt

abbrev sum : MethodType
sum = record {
  method = record {
    name = bytes "Sum";
    num_in = 3;
    is_variadic = false;
    num_out = 1;
    out_is_error = true;
    arg_type = plain (bytes "int") [];
    reply_type = composite pointer [] [] (plain (bytes "int") []);
  };
  num_calls = 0;
}

abbrev foo : Service
foo = record { name = bytes "Foo"; methods = (bytes "Sum", sum) ∷ [] }

abbrev serving : Server
serving = record { service_map = (bytes "Foo", foo) ∷ [] }

abbrev header : Str → ℕ → Header
header s n = record { service_method = s; seq = n; error = [] }

twice : register foo (register foo new_server).1 ≡ (some (already_defined (bytes "Foo")), serving)
unfolding program
twice = refl

-- The values of a request: its header, and an argument that is no header.
abbrev header_value : Str → ℕ → Value
header_value s n = record { as_header = some (header s n); as_argv = λ m. undecoded (bytes "gob") }

abbrev argument : Str → Value
argument b = record { as_header = none; as_argv = λ m. decoded b }

abbrev accepted : ConnOption
accepted = record { magic_number = 0x3bef5c; codec_type = bytes "application/god" }

-- The third request is not read: the second asks for an unknown method.
served :
    serve_conn
      (some accepted)
      (header_value (bytes "Foo.Sum") 1
        ∷ argument (bytes "x")
        ∷ header_value (bytes "Foo.Min") 2
        ∷ argument (bytes "x")
        ∷ header_value (bytes "Foo.Sum") 3
        ∷ argument (bytes "x")
        ∷ [])
      serving
    ≡ handle (header (bytes "Foo.Sum") 1) foo sum (bytes "x")
      ∷ respond (header (bytes "Foo.Min") 2) (no_method (bytes "Min"))
      ∷ []
unfolding program
served = refl

-- A method whose reply is no pointer ends the process.
abbrev bare : Service
bare = record {
  name = bytes "Foo";
  methods =
      (
        bytes "Sum",
        record sum { method = record sum.method { reply_type = plain (bytes "int") [] } },
      )
      ∷ [];
}

crashed :
    serve_codec
      (header_value (bytes "Foo.Sum") 1
        ∷ argument (bytes "x")
        ∷ header_value (bytes "Foo.Sum") 2
        ∷ [])
      (record { service_map = (bytes "Foo", bare) ∷ [] })
    ≡ crashes (header (bytes "Foo.Sum") 1) ∷ []
unfolding program
crashed = refl

abbrev request : Str → ℕ → Request
request s n = record {
  header = header s n;
  header_value = header_value s n;
  argument = argument (bytes "x");
  is_header = refl;
}

requests_served_example :
    (serve_codec (stream (request (bytes "Foo.Sum") 1 ∷ [])) serving
      ≡ map (outcome serving) (request (bytes "Foo.Sum") 1 ∷ []))
    × (serve_codec
          (stream (request (bytes "Foo.Sum") 1 ∷ [])
            ++ (stream (request (bytes "Foo.Min") 2 ∷ [])
                ++ stream (request (bytes "Foo.Sum") 3 ∷ [])))
          serving
        ≡ map (outcome serving) (request (bytes "Foo.Sum") 1 ∷ [])
          ++ respond (header (bytes "Foo.Min") 2) (no_method (bytes "Min")) ∷ [])
unfolding last_index find_service load_method lookup str_beq elem_type
requests_served_example =
    requests_served (request (bytes "Foo.Sum") 1 ∷ []) (request (bytes "Foo.Min") 2)
      (stream (request (bytes "Foo.Sum") 3 ∷ [])) serving (no_method (bytes "Min"))
      ((foo, (sum, (refl, (plain (bytes "int") [], refl)))), tt) refl refl

abbrev on_time : List Action
on_time = call_returns none ∷ meet_called ∷ timer ∷ send_response ∷ meet_sent ∷ []

abbrev late : List Action
late = call_returns none ∷ timer ∷ meet_called ∷ send_response ∷ meet_sent ∷ []

answered : (handling_run on_time (start_handling 5)).responses ≡ none ∷ []
unfolding program
answered = refl

answered_late :
    ((handling_run late (start_handling 5)).responses ≡ timeout_error ∷ [])
    × ((handling_run late (start_handling 5)).worker ≡ sends_called none)
unfolding program
answered_late = (refl, refl)

timer-leaks_example :
    is_past_called
      (handling_run
        (meet_called ∷ send_response ∷ [])
        (handling_step timer (handling_run (call_returns none ∷ []) (start_handling 5)))).worker
    ≡ false
unfolding handling_run handling_step start_handling return_call
timer-leaks_example =
    timer-leaks 5 (call_returns none ∷ []) (meet_called ∷ send_response ∷ []) (omega arith) refl
