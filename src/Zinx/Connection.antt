-- ===== src/Zinx/Connection.antt =====
-- myzinx/znet/connection.go: the goroutines of a connection and its two channels.
--
-- `Start` waits for a token from `ExitChan`, which has room for one, or for its end; the writer
-- waits for the same and for `msgChan`, which has no room; the reader reads messages and hands them
-- on. A message handler calls `SendMsg` and `Stop`. What `Unpack` and `Write` return is the
-- environment's choice; after the socket is closed `Unpack` only fails.
pub mod Ending
mod Tests
use distributed_study.Common.{
  ℕ, ◌+◌, ◌-◌, Str, Option, none, some, List, [], ◌∷◌, ◌++◌, Bool, true, false, not, ◌&&◌, ◌||◌,
  ◌==◌, nat_key, ltb, if◌then◌else◌,
}
use distributed_study.Zinx.Message.{Message}

-- The reader is in its loop, blocked at its send to `ExitChan` (with whether the error was the end
-- of the stream), behind the loop and before its deferred `Stop`, or has returned.
pub data Reader : Type 0 where
  reading leaving returned : Reader
  sending_exit : Bool → Reader

pub record Connection : Type 0 where
  pub conn_id : ℕ
  pub is_closed : Bool
  -- the tokens in `ExitChan`, and whether it is closed
  pub exit_tokens : ℕ
  pub exit_closed : Bool
  pub starting : Bool
  pub writing : Bool
  pub reader : Reader
  -- the message that a handler offers at `msgChan`
  pub offered : Option Str
  -- what was read, and what was written to the socket
  pub requests : List Message
  pub written : List Str
  -- a send on a closed channel ends the program
  pub panicked : Bool

unfoldable pub new_connection : ℕ → Connection
new_connection conn_id = record {
  conn_id = conn_id;
  is_closed = false;
  exit_tokens = 0;
  exit_closed = false;
  starting = true;
  writing = true;
  reader = reading;
  offered = none;
  requests = [];
  written = [];
  panicked = false;
}

-- `Stop`: only the first call does anything.
unfoldable pub stop : Connection → Connection
stop c = if c.is_closed then c else record c { is_closed = true; exit_closed = true }

-- `SendMsg` behind the packing: false is the error for a closed connection. One handler sends at a
-- time.
unfoldable pub send_msg : Str → Connection → Bool × Connection
send_msg packed c = if c.is_closed then (false, c) else (true, record c { offered = some packed })

-- What the reader does once its token is in the channel, or its send has panicked.
unfoldable pub after_exit : Bool → Connection → Connection
after_exit eof c = if eof then record c { reader = leaving } else record c { reader = reading }

-- `c.ExitChan <- true` of the reader.
unfoldable pub send_exit : Bool → Connection → Connection
send_exit eof c =
    if c.exit_closed
    then record c { panicked = true }
    else (if c.exit_tokens == 0
        then after_exit eof (record c { exit_tokens = 1 })
        else record c { reader = sending_exit eof })

-- A receive from `ExitChan`: whether there is something to receive, and the channel after it.
unfoldable pub can_exit : Connection → Bool
can_exit c = ltb 0 c.exit_tokens || c.exit_closed

unfoldable pub take_exit : Connection → Connection
take_exit c = record c { exit_tokens = c.exit_tokens - 1 }

pub data Action : Type 0 where
  -- `Unpack` gives a message, or fails, at the end of the stream or otherwise
  reads : Message → Action
  fails : Bool → Action
  -- the reader's blocked send goes on
  resumes : Action
  -- the reader's deferred `Stop`, and its return
  leaves : Action
  -- `Start`, and the writer, receive from `ExitChan`
  start_exits writer_exits : Action
  -- the writer receives from `msgChan`, and its write succeeds or fails
  writes : Bool → Action
  -- a handler's calls
  sends : Str → Action
  stops : Action

unfoldable pub write : Bool → Connection → Connection
write good c = elim c.offered [
  | none ↦ c
  | some packed ↦
      if good
      then record c { offered = none; written = c.written ++ packed ∷ [] }
      else record c { offered = none; writing = false }
]

-- An action that is not possible changes nothing.
unfoldable pub act : Action → Connection → Connection
unfolding write
act (reads msg) c = elim c.reader [
  | reading ↦ if c.is_closed then c else record c { requests = c.requests ++ msg ∷ [] }
  | _ ↦ c
]
act (fails eof) c = elim c.reader [ reading ↦ send_exit eof c | _ ↦ c ]
act resumes c = elim c.reader [ sending_exit eof ↦ send_exit eof c | _ ↦ c ]
act leaves c = elim c.reader [ leaving ↦ record (stop c) { reader = returned } | _ ↦ c ]
act start_exits c =
    if c.starting && can_exit c then record (take_exit c) { starting = false } else c
act writer_exits c = if c.writing && can_exit c then record (take_exit c) { writing = false } else c
act (writes good) c = if c.writing then write good c else c
act (sends packed) c = elim c.offered [ none ↦ (send_msg packed c).1 | some other ↦ c ]
act stops c = stop c

-- A panic ends the program.
unfoldable pub step : Action → Connection → Connection
step a c = if c.panicked then c else act a c

unfoldable pub run : List Action → Connection → Connection
run [] c = c
run (a ∷ rest) c = run rest (step a c)
