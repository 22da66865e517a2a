-- ===== src/GeeRpc/Listening.antt =====
-- geerpc/server.go, Accept and ServeHTTP: how connections come to a server.
--
-- A connection is what it brings: the options that it opens with, and the values behind them. `Accept` starts
-- a goroutine for each connection, and the outcomes stand in the order of the connections.
mod Tests
use distributed_study.Common.{
  Str, bytes, Option, none, some, List, [], ◌∷◌, ◌++◌, Bool, true, false, not, ◌==◌, str_key,
  if◌then◌else◌,
}
use distributed_study.GeeRpc.Server.{Server, ConnOption, Value, Outcome, serve_conn}

pub record Conn : Type 0 where
  pub options : Option ConnOption
  pub values : List Value

-- `none` is the error of the listener, at which the loop ends.
unfoldable pub accept : List (Option Conn) → Server → List (List Outcome)
accept [] server = []
accept (none ∷ rest) server = []
accept (some c ∷ rest) server = serve_conn c.options c.values server ∷ accept rest server

-- The answer to an HTTP request: a status with a text, nothing where the connection cannot be taken
-- over, or the line that is written on the connection with what is served on it.
pub data HttpAnswer : Type 0 where
  not_allowed : Str → HttpAnswer
  not_hijacked : HttpAnswer
  connected : Str → List Outcome → HttpAnswer

unfoldable pub serve_http : Str → Option Conn → Server → HttpAnswer
serve_http method hijacked server =
    if not (method == bytes "CONNECT")
    then not_allowed (bytes "405 must CONNECT" ++ 10 ∷ [])
    else elim hijacked [
      | none ↦ not_hijacked
      | some c ↦
          connected (bytes "HTTP/1.0" ++ (bytes "200 Connected to Gee RPC" ++ 10 ∷ 10 ∷ []))
            (serve_conn c.options c.values server)
    ]
