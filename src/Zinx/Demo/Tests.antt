-- ===== src/Zinx/Demo/Tests.antt =====
-- Runs of the demonstration programs of myzinx.
use distributed_study.Common.{
  ℕ, ◌≡◌, refl, Str, bytes, Dict, lookup, insert, some, none, ◌>>=◌, List, [], ◌∷◌, ◌++◌, true,
  false, nat_key, arith,
}
use mathlib.Core.List.{append-nil}
use distributed_study.Zinx.Message.{Message, new_msg_package}
use distributed_study.Zinx.DataPack.{ok, pack, unpack}
use distributed_study.Zinx.Server.{default_object, reload, new_server, server_add_router}
use distributed_study.Zinx.MsgHandler.{add_router, new_msg_handle}
use distributed_study.Zinx.Demo.{
  ping_router, hello_router, demo_replies, demo_server, exchange, client_loop,
}
use distributed_study.Zinx.Demo.Answered.{fresh, exchange_answers}

program : Unit {0}
unfolding demo_replies demo_server client_loop reload new_server server_add_router add_router
    new_msg_handle lookup insert
program = tt

abbrev routers : Dict ℕ ℕ
routers = (0, ping_router) ∷ (1, hello_router) ∷ []

abbrev request : Message
request = new_msg_package 1 (bytes "Zinx V0.5 Client Test Message")

abbrev reply : Message
reply = new_msg_package 1 (bytes "Hello Zinx Router V0.6")

-- The server reads the message whole; the client reads the reply and the start of another.
abbrev sent : List Str
sent = pack request ∷ []

abbrev back : List Str
back = (pack reply ++ 22 ∷ []) ∷ []

two_routers :
    (do
      (s, g) ← demo_server (some []) (λ text g. some default_object) default_object
      some s.msg_handler.apis)
    ≡ some routers
unfolding program
two_routers = refl

no_settings : demo_server none (λ text g. some default_object) default_object ≡ none
unfolding program
no_settings = refl

-- The client stops at once where its write fails.
no_write : client_loop 4096 (false ∷ true ∷ []) back ≡ ([], [])
unfolding program
no_write = refl

exchange_answers_example :
    (exchange demo_replies 4096 3 (fresh 10 1024 routers) sent ≡ some (pack reply ∷ []))
    × ((unpack 4096 back).0 ≡ ok reply)
unfolding program
exchange_answers_example =
    exchange_answers demo_replies routers 4096 10 1024 3 1 hello_router 1
      (bytes "Zinx V0.5 Client Test Message") (bytes "Hello Zinx Router V0.6") [] (22 ∷ []) sent
      back (omega arith) (omega arith) (omega arith) (omega arith) (omega arith) (omega arith)
      (omega arith) refl refl refl (append-nil (pack reply ++ 22 ∷ []))
