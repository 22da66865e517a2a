-- ===== src/Zinx/Connection/Ending.antt =====
-- How a connection ends.
use distributed_study.Common.{
  ◌≤◌, ◌≡◌, Str, none, some, List, [], ◌∷◌, Bool, true, false, nat_key, arith,
}
use distributed_study.Zinx.Connection.{
  Reader, reading, leaving, returned, sending_exit, Connection, stop, send_msg, after_exit,
  send_exit, can_exit, take_exit, Action, reads, fails, resumes, leaves, start_exits, writer_exits,
  writes, sends, stops, write, act, step, run,
}

unfoldable pub is_returned : Reader → Bool
is_returned returned = true
is_returned reading = false
is_returned leaving = false
is_returned (sending_exit e) = false

-- The reader is in its loop, or blocked at its send in it.
unfoldable pub is_looping : Reader → Bool
is_looping reading = true
is_looping (sending_exit e) = true
is_looping leaving = false
is_looping returned = false

-- `ExitChan` is closed by `Stop` alone, and a reader that has returned has called `Stop`.
record IsSound (c : Connection) : Type 0 where
  closed : c.exit_closed ≡ c.is_closed
  stopped : is_returned c.reader ≡ true → c.is_closed ≡ true
  room : c.exit_tokens ≤ 1

-- Every goroutine is at its work, nothing is on its way, and nobody has stopped the connection.
pub record IsOpen (c : Connection) : Type 0 where
  pub not_closed : c.is_closed ≡ false
  pub exit_open : c.exit_closed ≡ false
  pub no_tokens : c.exit_tokens ≡ 0
  pub started : c.starting ≡ true
  pub writes_on : c.writing ≡ true
  pub reads_on : c.reader ≡ reading
  pub none_offered : c.offered ≡ none
  pub alive : c.panicked ≡ false

-- Where the stream of an open connection ends, the reader stops the connection and returns, and
-- the other two goroutines can end in either order, without a panic.
pub run_eof :
    (c : Connection)
    → IsOpen c
    → let first = run (fails true ∷ leaves ∷ start_exits ∷ writer_exits ∷ []) c in
      let second = run (fails true ∷ leaves ∷ writer_exits ∷ start_exits ∷ []) c in
      (first ≡ second)
      × (first.reader ≡ returned)
      × (first.starting ≡ false)
      × (first.writing ≡ false)
      × (first.is_closed ≡ true)
      × (first.panicked ≡ false)
unfolding run step act send_exit after_exit stop take_exit can_exit
run_eof c h = ground arith

blocked_step :
    (a : Action) (packed : Str) (c : Connection)
    → c.writing ≡ false
    → c.offered ≡ some packed
    → ((step a c).writing ≡ false) × ((step a c).offered ≡ some packed)
unfolding step act send_exit after_exit stop send_msg write take_exit can_exit
blocked_step (reads msg) p c w o = ground arith
blocked_step (fails eof) p c w o = ground arith
blocked_step resumes p c w o = ground arith
blocked_step leaves p c w o = ground arith
blocked_step start_exits p c w o = ground arith
blocked_step writer_exits p c w o = ground arith
blocked_step (writes good) p c w o = ground arith
blocked_step (sends packed) p c w o = ground arith
blocked_step stops p c w o = ground arith

blocked_run :
    (actions : List Action) (packed : Str) (c : Connection)
    → c.writing ≡ false
    → c.offered ≡ some packed
    → (run actions c).offered ≡ some packed
unfolding run
blocked_run [] p c w o = o
blocked_run (a ∷ rest) p c w o =
    let (w', o') = blocked_step a p c w o in blocked_run rest p (step a c) w' o'

-- One error of `Unpack` on an open connection, other than the end of the stream, can end the
-- writer and leave the connection open to `SendMsg`, whose next message then is never taken from
-- it, whatever follows.
pub run_error :
    (c : Connection) (packed : Str) (after : List Action)
    → IsOpen c
    → let s = run (fails false ∷ writer_exits ∷ sends packed ∷ []) c in
      (s.is_closed ≡ false) × (s.panicked ≡ false) × ((run after s).offered ≡ some packed)
unfolding run step act send_exit after_exit take_exit can_exit send_msg
run_error c packed after h = (
  ground arith,
  ground arith,
  blocked_run after packed (run (fails false ∷ writer_exits ∷ sends packed ∷ []) c) (ground arith)
      (ground arith),
)
