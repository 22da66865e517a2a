-- ===== src/Zinx/Demo.antt =====
-- myzinx/main: a server with routers that answer each request with a message, and a client that
-- sends one and reads the answer.
--
-- `replies` is what a router's `Handle` gives `SendMsg`, by the router and the message; `PreHandle`
-- and `PostHandle` are the base router's and do nothing.
pub mod Answered
mod Tests
use distributed_study.Common.{
  ℕ, Str, bytes, Option, none, some, ◌>>=◌, List, [], ◌∷◌, Bool, true, ◌==◌, nat_key, if◌then◌else◌,
}
use distributed_study.Zinx.Message.{Message, new_msg_package}
use distributed_study.Zinx.DataPack.{ok, err, pack, unpack}
use distributed_study.Zinx.Connection
use distributed_study.Zinx.Connection.{new_connection}
use distributed_study.Zinx.MsgHandler
use distributed_study.Zinx.MsgHandler.{
  Request, Event, do_msg_handle, pre_handle, handle, post_handle, MsgHandle, calls, goes_on, works,
}
use distributed_study.Zinx.Server.{Server, GlobalObj, new_server, server_add_router}

abbrev pub ping_router : ℕ
ping_router = 0

abbrev pub hello_router : ℕ
hello_router = 1

-- `Handle` of the two routers.
unfoldable pub demo_replies : ℕ → Message → Option (ℕ × Str)
demo_replies router msg =
    if router == ping_router
    then some (0, bytes "ping...ping...ping")
    else (if router == hello_router then some (1, bytes "Hello Zinx Router V0.6") else none)

-- `main` of the server, up to `Serve`.
unfoldable pub demo_server :
    Option Str → (Str → GlobalObj → Option GlobalObj) → GlobalObj → Option (Server × GlobalObj)
demo_server file unmarshal g = do
  (s, g') ← new_server (bytes "server") file unmarshal g
  s' ← server_add_router 0 ping_router s
  s'' ← server_add_router 1 hello_router s'
  some (s'', g')

-- What the routers hand to the connection: `SendMsg` packs a message.
unfoldable pub sent_by : (ℕ → Message → Option (ℕ × Str)) → List Event → List Str
sent_by replies [] = []
sent_by replies (pre_handle router req ∷ events) = sent_by replies events
sent_by replies (handle router req ∷ events) = elim (replies router req.msg) [
  | none ↦ sent_by replies events
  | some (id, content) ↦ pack (new_msg_package id content) ∷ sent_by replies events
]
sent_by replies (post_handle router req ∷ events) = sent_by replies events

-- Each message meets the writer, whose write succeeds.
unfoldable pub writes_of : List Str → List Connection.Action
writes_of [] = []
writes_of (p ∷ ps) = Connection.sends p ∷ Connection.writes true ∷ writes_of ps

-- The first message of a connection through the reader, the pool (or a goroutine of its own where
-- the pool is not started), the router and the writer: what the socket gets, or none where the
-- message is refused.
unfoldable pub exchange :
    (ℕ → Message → Option (ℕ × Str)) → ℕ → ℕ → MsgHandle → List Str → Option (List Str)
exchange replies max_size conn_id mh conn = elim (unpack max_size conn).0 [
  | err e ↦ none
  | ok msg ↦
      let events =
        if mh.is_open
        then (MsgHandler.run
            (calls conn_id msg ∷ goes_on conn_id ∷ goes_on conn_id ∷ works mh.next_channel ∷ [])
            mh).events
        else do_msg_handle (record { conn_id = conn_id; msg = msg }) mh in
      some
        (Connection.run (Connection.reads msg ∷ writes_of (sent_by replies events))
          (new_connection conn_id)).written
]

-- The loop of the client: a round writes the message, or ends the loop where the write fails, and
-- reads an answer, or ends the loop where none comes. It gives what was written and what was read.
unfoldable pub client_loop : ℕ → List Bool → List Str → List Str × List Message
client_loop max_size [] conn = ([], [])
client_loop max_size (good ∷ rounds) conn =
    let packed = pack (new_msg_package 1 (bytes "Zinx V0.5 Client Test Message")) in
    let (answer, conn') = unpack max_size conn in
    let (written, got) = client_loop max_size rounds conn' in
    if good
    then elim answer [ err e ↦ (packed ∷ [], []) | ok msg ↦ (packed ∷ written, msg ∷ got) ]
    else ([], [])
