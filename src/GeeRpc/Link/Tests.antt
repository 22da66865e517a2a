-- ===== src/GeeRpc/Link/Tests.antt =====
-- Two calls on a connection, the second of a method that takes too long.
use distributed_study.Common.{
  ◌≡◌, ◌≤◌, refl, bytes, Str, lookup, insert, erase, str_beq, str_key, nat_key, Option, none, some,
  List, [], ◌∷◌, ◌++◌, true, false, arith,
}
use distributed_study.GeeRpc.Service.Values.{
  make_values, new_argv, new_replyv, is_pointer, elem_type, calls_safely, takes_reply, passes,
  assignable, same_type, same_kind, value_type,
}
use distributed_study.GeeRpc.Service.{plain, pointer, composite, MethodInfo, MethodType, Service}
use distributed_study.GeeRpc.Client
use distributed_study.GeeRpc.Client.{new_client_codec}
use distributed_study.GeeRpc.Server.{
  Server, decoded, undecoded, decode_argv, read_argv, read_request, find_service, load_method,
  last_index,
}
use distributed_study.GeeRpc.Server.Handling
use distributed_study.GeeRpc.Server.Handling.{
  start_handling, handling_step, return_call, pass_called, respond_call, pass_sent, time_out,
}
use distributed_study.GeeRpc.Link.{
  Setting, Action, start_link, put, crash, send_responses, error_text, is_returned, all_returned,
  read_reply, job_step, job_responses, work, serve, read, read_next, deliver, step, run,
}
use distributed_study.GeeRpc.Link.Sound.{IsEncoder}
use distributed_study.GeeRpc.Link.Invariant.{Answers}
use distributed_study.GeeRpc.Link.Answering.{taken_of, written_of}
use distributed_study.GeeRpc.Link.Closing.{run_closes}
use distributed_study.GeeRpc.Link.Replies.{run_replies}
use distributed_study.GeeRpc.Link.OneCall
use distributed_study.GeeRpc.Link.OneCall.{reply_of, error_of, one_call}

program : Unit {0}
unfolding start_link put crash decode_argv make_values new_argv new_replyv is_pointer elem_type
    send_responses error_text is_returned all_returned read_reply job_step job_responses work serve
    read read_next deliver step run read_argv read_request find_service load_method last_index
    start_handling handling_step return_call pass_called respond_call pass_sent time_out lookup
    insert erase str_beq new_client_codec Client.begin_send Client.end_send Client.receive_one
    Client.deliver Client.done Client.set_error Client.set_reply Client.register_call
    Client.remove_call
program = tt

abbrev method : Str → MethodType
method name = record {
  method = record {
    name = name;
    num_in = 3;
    is_variadic = false;
    num_out = 1;
    out_is_error = true;
    arg_type = plain (bytes "int") [];
    reply_type = composite pointer [] [] (plain (bytes "int") []);
  };
  num_calls = 0;
}

abbrev foo : Service
foo = record {
  name = bytes "Foo";
  methods = (bytes "Sum", method (bytes "Sum")) ∷ (bytes "Fail", method (bytes "Fail")) ∷ [];
}

abbrev serving : Server
serving = record { service_map = (bytes "Foo", foo) ∷ [] }

-- Sum answers with its argument and a byte, and Fail with an error.
abbrev methods : Str → MethodInfo → Str → Option Str × Str
methods svc m a = elim (str_beq m.name (bytes "Sum")) [
  | true ↦ (none, a ++ b'!' ∷ [])
  | false ↦ (some (bytes "failed"), [])
]

abbrev setting : Setting
setting = record {
  server = serving;
  invoke = methods;
  timeout = 5;
  header_value = λ h. record { as_header = some h; as_argv = λ m. undecoded (bytes "gob") };
  argument = λ a. record { as_header = none; as_argv = λ m. decoded a };
}

setting-IsEncoder : IsEncoder setting
setting-IsEncoder = record {
  reads_header = λ h. refl;
  no_header = λ a. refl;
  reads_argv = λ a x m e. ground arith;
}

-- Both requests are taken before the first responds; the second is answered by its timer.
abbrev schedule : List Action
schedule =
    Action.begins (bytes "Foo.Sum") (bytes "x")
    ∷ Action.writes none
    ∷ Action.begins (bytes "Foo.Sum") (bytes "y")
    ∷ Action.writes none
    ∷ Action.reads
    ∷ Action.reads
    ∷ Action.works 1 (Handling.call_returns none)
    ∷ Action.works 1 Handling.timer
    ∷ Action.works 0 (Handling.call_returns none)
    ∷ Action.works 0 Handling.meet_called
    ∷ Action.works 0 Handling.send_response
    ∷ Action.works 0 Handling.meet_sent
    ∷ Action.delivers none
    ∷ Action.delivers none
    ∷ Action.loses
    ∷ Action.finishes
    ∷ []

answered :
    (((run setting schedule start_link).client.calls 0).reply ≡ some (bytes "x!"))
    × (((run setting schedule start_link).client.calls 1).error
        ≡ some (Client.formatted (bytes "rpc server: request handle timeout")))
    × ((run setting schedule start_link).client.signals ≡ 1 ∷ 0 ∷ [])
    × ((run setting schedule start_link).closed ≡ true)
unfolding program
answered = (refl, refl, refl, refl)

run_replies_example : Answers setting (bytes "Foo.Sum") (bytes "x") (bytes "x!")
unfolding program
run_replies_example =
    run_replies setting setting-IsEncoder schedule 0 (bytes "x!") (omega arith) (omega arith) refl

run_closes_example :
    let s = run setting schedule start_link in
    (written_of 2 s.written ≡ taken_of 2 s.taken)
    × (((run setting (Action.works 1 Handling.meet_called ∷ Action.reads ∷ []) s).written
          ≡ s.written)
        × (written_of 2 (run setting (Action.cuts ∷ schedule) start_link).written
            ≤ taken_of 2 (run setting (Action.cuts ∷ schedule) start_link).taken))
unfolding program
run_closes_example =
    run_closes setting schedule (Action.works 1 Handling.meet_called ∷ Action.reads ∷ [])
      (Action.cuts ∷ schedule) 2 refl refl

one_call_example :
    let c = (run setting (OneCall.schedule (bytes "Foo.Fail") (bytes "x")) start_link).client in
    ((c.calls 0).reply ≡ none)
    × (((c.calls 0).error ≡ some (Client.formatted (bytes "failed"))) × (c.signals ≡ 0 ∷ []))
unfolding reply_of error_of calls_safely make_values new_argv new_replyv is_pointer elem_type
    takes_reply passes assignable same_type same_kind value_type last_index find_service load_method
    lookup str_beq
one_call_example =
    one_call setting (bytes "Foo.Fail") (bytes "x") foo (method (bytes "Fail")) (λ h. refl) refl
      (λ t u. false) refl refl (some (bytes "failed")) [] refl
