-- ===== src/GeeRpc/Listening/Tests.antt =====
-- Connections that are accepted, and requests over HTTP.
use distributed_study.Common.{◌≡◌, refl, bytes, str_beq, none, some, [], ◌∷◌, ◌++◌}
use distributed_study.GeeRpc.Server.{new_server, serve_conn}
use distributed_study.GeeRpc.Listening.{
  Conn, accept, not_allowed, not_hijacked, connected, serve_http,
}

program : Unit {0}
unfolding accept serve_http serve_conn str_beq
program = tt

abbrev silent : Conn
silent = record { options = none; values = [] }

accepted : accept (some silent ∷ none ∷ some silent ∷ []) new_server ≡ [] ∷ []
unfolding program
accepted = refl

-- The status line has no space between the version and the code.
upgraded :
    (serve_http (bytes "GET") (some silent) new_server
      ≡ not_allowed (bytes "405 must CONNECT" ++ 10 ∷ []))
    × (serve_http (bytes "CONNECT") (some silent) new_server
        ≡ connected (bytes "HTTP/1.0200 Connected to Gee RPC" ++ 10 ∷ 10 ∷ []) [])
    × (serve_http (bytes "CONNECT") none new_server ≡ not_hijacked)
unfolding program
upgraded = (refl, refl, refl)
