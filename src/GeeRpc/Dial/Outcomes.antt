-- ===== src/GeeRpc/Dial/Outcomes.antt =====
-- What comes of a dial.
use distributed_study.Common.{Option, none, some, Bool, true, false, not, ◌&&◌, nat_key, str_key}
use distributed_study.GeeRpc.Client.{is_available}
use distributed_study.GeeRpc.Dial.{Conn, no_conn, open_conn, closed_conn, Dialing}

unfoldable pub is_open : Conn → Bool
is_open open_conn = true
is_open no_conn = false
is_open closed_conn = false

unfoldable pub is_closed : Conn → Bool
is_closed closed_conn = true
is_closed no_conn = false
is_closed open_conn = false

-- What a caller expects: a client that is available, without an error, on an open connection and
-- with no goroutine left behind; or no client, an error, and the connection closed.
unfoldable pub is_sound : Option Dialing → Bool
is_sound none = false
is_sound (some d) = elim d.result.client [
  | some c ↦ elim d.result.error [
    | none ↦ is_available c && (is_open d.result.conn && not d.leaked)
    | some e ↦ false
  ]
  | none ↦ elim d.result.error [ none ↦ false | some e ↦ is_closed d.result.conn ]
]
