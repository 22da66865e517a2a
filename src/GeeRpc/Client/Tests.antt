-- ===== src/GeeRpc/Client/Tests.antt =====
-- Short histories of a client, and the theorems on them.
use distributed_study.Common.{
  ℕ, ◌+◌, ◌≤◌, ◌≡◌, ◌≢◌, refl, bytes, lookup, insert, erase, str_beq, nat_key, none, some, List, [],
  ◌∷◌, false, arith,
}
use distributed_study.GeeRpc.Codec.{Header}
use distributed_study.GeeRpc.Client.{
  shut_down, transport, Call, Client, receiving, body, Action, begins, writes, receives, breaks,
  terminates, received, replied, is_available, wait_call, new_client_codec, close, done, set_error,
  set_reply, register_call, remove_call, fail_all, terminate_calls, begin_send, end_send, deliver,
  receive_one, step, run,
}
use distributed_study.GeeRpc.Client.Accounts.{count}
use distributed_study.GeeRpc.Client.History.{run_signals_once, run_exactly_once}
use distributed_study.GeeRpc.Client.Replies.{call_never_replies}

program : Unit {0}
unfolding is_available wait_call new_client_codec close done set_error set_reply register_call
    remove_call fail_all terminate_calls begin_send end_send deliver receive_one step run lookup
    insert erase str_beq count
program = tt

abbrev answer : Header
answer = record { service_method = bytes "Foo.Sum"; seq = 1; error = [] }

-- Two calls; the first is answered, and then the connection breaks.
abbrev two_calls : List Action
two_calls =
    begins (bytes "Foo.Sum") (bytes "1+2")
    ∷ writes none
    ∷ begins (bytes "Foo.Sum") (bytes "1+2")
    ∷ writes none
    ∷ receives answer (body (bytes "3"))
    ∷ breaks (bytes "EOF")
    ∷ terminates
    ∷ begins (bytes "Foo.Sum") (bytes "1+2")
    ∷ []

signalled : (run two_calls new_client_codec).signals ≡ 0 ∷ 1 ∷ 2 ∷ []
unfolding program
signalled = refl

outcomes :
    (((run two_calls new_client_codec).calls 0).reply ≡ some (bytes "3"))
    × (((run two_calls new_client_codec).calls 1).error ≡ some (transport (bytes "EOF")))
    × (((run two_calls new_client_codec).calls 2).error ≡ some shut_down)
    × (is_available (run two_calls new_client_codec) ≡ false)
unfolding program
outcomes = (refl, refl, refl, refl)

run_signals_once_example : count 1 (run two_calls new_client_codec).signals ≤ 1
run_signals_once_example = run_signals_once two_calls 1 (omega arith)

run_exactly_once_example : count 1 (run two_calls new_client_codec).signals ≡ 1
run_exactly_once_example =
    run_exactly_once two_calls 1 (omega arith) (omega arith) (unfold program in refl)
      (unfold program in omega arith)

-- The call was answered, and its `Call` still waits.
call_waits : wait_call false 0 (run two_calls new_client_codec) received ≡ received
unfolding program
call_waits = refl

call_never_replies_example :
    wait_call false 0 (run two_calls new_client_codec) received ≢ replied none
call_never_replies_example =
    call_never_replies two_calls 0 false received (omega arith) (λ e p. ground arith) none

abbrev call_of : ℕ → Call
call_of r = record {
  seq = r + 1;
  service_method = bytes "Foo.Sum";
  args = bytes "1+2";
  reply = none;
  error = none;
}

abbrev one_pending : Client
one_pending = record {
  header = record answer { seq = 2 };
  seq = 3;
  pending = (1, 0) ∷ (2, 1) ∷ [];
  closing = false;
  shutdown = false;
  sender = none;
  receiver = receiving;
  calls = call_of;
  next_call = 2;
  signals = [];
}
