-- ===== src/Zinx/Server/Tests.antt =====
-- A server from a file that sets two things.
use distributed_study.Common.{
  ◌≡◌, refl, bytes, lookup, insert, none, some, ◌>>=◌, [], ◌∷◌, true, false,
}
use distributed_study.Zinx.Connection.{new_connection}
use distributed_study.Zinx.MsgHandler.{new_msg_handle, add_router, start_worker_pool}
use distributed_study.Zinx.Server.{
  GlobalObj, default_object, reload, init, Server, new_server, server_add_router, accept_from,
  start,
}

program : Unit {0}
unfolding reload init new_server server_add_router accept_from start new_msg_handle add_router
    start_worker_pool lookup insert
program = tt

abbrev demo : GlobalObj
demo = record default_object { name = bytes "demo"; max_packer_size = 64 }

abbrev server : Server
server = record {
  name = bytes "demo";
  ip_version = bytes "tcp4";
  ip = bytes "0.0.0.0";
  port = 7777;
  msg_handler = new_msg_handle 10 1024;
}

settings :
    (init none (λ text g. some demo) ≡ none)
    × (init (some (bytes "{}")) (λ text g. some g) ≡ some default_object)
    × (new_server (bytes "mine") (some (bytes "...")) (λ text g. some demo) default_object
        ≡ some (server, demo))
unfolding program
settings = (refl, refl, refl)

started : (start (true ∷ false ∷ true ∷ []) server).1 ≡ new_connection 0 ∷ new_connection 1 ∷ []
unfolding program
started = refl

routed : (do s ← server_add_router 1 9 server; server_add_router 1 8 s) ≡ none
unfolding program
routed = refl
