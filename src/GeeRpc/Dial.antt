-- ===== src/GeeRpc/Dial.antt =====
-- geerpc/client.go, NewClient and dialTimeout: how a client comes to its connection.
--
-- `net.DialTimeout` returns a connection or an error, which the source does not look at: then the
-- connection is nil, and a call of one of its methods panics. `none` is a panic, which ends the
-- process. `f` is a `newClientFunc`. `timer_first` is what the select finds where both cases could
-- be ready; a panic of `f` behind the timeout is left out.
pub mod Outcomes
mod Tests
use distributed_study.Common.{
  ℕ, Str, bytes, Option, none, some, ◌>>=◌, List, [], ◌∷◌, ◌++◌, Bool, true, false, not, ◌&&◌, ◌==◌,
  nat_key, str_key, if◌then◌else◌,
}
use distributed_study.GeeRpc.Server.{ConnOption}
use distributed_study.GeeRpc.Options.{parse_option}
use distributed_study.GeeRpc.Client.{Client, new_client_codec}

-- A connection that is nil, open or closed.
pub data Conn : Type 0 where
  no_conn open_conn closed_conn : Conn

unfoldable pub close_conn : Conn → Option Conn
close_conn no_conn = none
close_conn open_conn = some closed_conn
close_conn closed_conn = some closed_conn

-- `Encode` of the options on a connection: the error of the write, if any.
unfoldable pub encode : Option Str → Conn → Option (Option Str)
encode write_error no_conn = none
encode write_error open_conn = some write_error
encode write_error closed_conn = some (some (bytes "use of closed network connection"))

-- What a `newClientFunc` returns, and the connection behind it.
pub record ClientResult : Type 0 where
  pub client : Option Client
  pub error : Option Str
  pub conn : Conn

abbrev pub NewClientFunc : Type 0
NewClientFunc = Conn → ConnOption → Option ClientResult

abbrev pub refused : Str → Conn → ClientResult
refused e conn = record { client = none; error = some e; conn = conn }

-- `NewClient`, with what the write of the options would return.
unfoldable pub new_client : Option Str → NewClientFunc
new_client write_error conn opt =
    if not (opt.codec_type == bytes "application/god")
    then some (refused (bytes "invalid codec type " ++ opt.codec_type) conn)
    else (do
      e ← encode write_error conn
      elim e [
        | some why ↦ do conn' ← close_conn conn; some (refused why conn')
        | none ↦ some (record { client = some new_client_codec; error = none; conn = conn })
      ])

-- The result of a dial, and whether the goroutine of `f` is left at its send to `ch`, from which
-- nobody receives any more.
pub record Dialing : Type 0 where
  pub result : ClientResult
  pub leaked : Bool

-- The deferred function: a result without a client closes the connection.
unfoldable pub end_dial : Bool → ClientResult → Option Dialing
end_dial leaked r = elim r.client [
  | some c ↦ some (record { result = r; leaked = leaked })
  | none ↦ do
    conn' ← close_conn r.conn
    some (record { result = record r { conn = conn' }; leaked = leaked })
]

unfoldable pub dial_timeout :
    NewClientFunc → List (Option ConnOption) → Conn → ℕ → Bool → Option Dialing
dial_timeout f opts conn connect_timeout timer_first = elim (parse_option opts) [
  | none ↦ some (record {
    result = refused (bytes "number of option is more than 1") no_conn;
    leaked = false;
  })
  | some opt ↦
      if not (connect_timeout == 0) && timer_first
      then end_dial true (refused (bytes "rpc client: connect timeout") conn)
      else (do r ← f conn opt; end_dial false r)
]

-- `Dial`.
unfoldable pub dial : Option Str → List (Option ConnOption) → Conn → ℕ → Bool → Option Dialing
dial write_error = dial_timeout (new_client write_error)
