-- ===== src/Zinx/Connection/Tests.antt =====
-- A connection that is stopped by its handler, and one that meets a bad message.
use distributed_study.Common.{◌≡◌, refl, bytes, some, List, [], ◌∷◌, true, false}
use distributed_study.Zinx.Message.{Message}
use distributed_study.Zinx.Connection.{
  returned, new_connection, Action, stop, send_msg, after_exit, send_exit, can_exit, take_exit,
  write, act, step, run, reads, fails, resumes, leaves, start_exits, writer_exits, writes, sends,
  stops,
}
use distributed_study.Zinx.Connection.Ending.{is_returned, is_looping, IsOpen, run_eof, run_error}

program : Unit {0}
unfolding new_connection stop send_msg after_exit send_exit can_exit take_exit write act step run
    is_returned is_looping
program = tt

abbrev ping : Message
ping = record { id = 0; data_len = 4; content = bytes "ping" }

abbrev echo : List Action
echo = reads ping ∷ sends (bytes "pong") ∷ writes true ∷ []

echoed :
    ((run echo (new_connection 1)).requests ≡ ping ∷ [])
    × ((run echo (new_connection 1)).written ≡ bytes "pong" ∷ [])
unfolding program
echoed = (refl, refl)

-- The second error leaves the reader at its send, since nobody took the first token.
stuck :
    is_returned (run (fails false ∷ fails true ∷ resumes ∷ []) (new_connection 1)).reader ≡ false
unfolding program
stuck = refl

-- A `Stop` between the reader's send and its own comes to nothing worse.
stopped_behind :
    let s = run (fails true ∷ stops ∷ leaves ∷ []) (new_connection 1) in
    (s.reader ≡ returned) × (s.panicked ≡ false)
unfolding program
stopped_behind = (refl, refl)

echo-IsOpen : IsOpen (run echo (new_connection 1))
unfolding program
echo-IsOpen = record {
  not_closed = refl;
  exit_open = refl;
  no_tokens = refl;
  started = refl;
  writes_on = refl;
  reads_on = refl;
  none_offered = refl;
  alive = refl;
}

run_eof_example :
    let first =
      run (fails true ∷ leaves ∷ start_exits ∷ writer_exits ∷ []) (run echo (new_connection 1)) in
    let second =
      run (fails true ∷ leaves ∷ writer_exits ∷ start_exits ∷ []) (run echo (new_connection 1)) in
    (first ≡ second)
    × (first.reader ≡ returned)
    × (first.starting ≡ false)
    × (first.writing ≡ false)
    × (first.is_closed ≡ true)
    × (first.panicked ≡ false)
run_eof_example = run_eof (run echo (new_connection 1)) echo-IsOpen

run_error_example :
    let s =
      run (fails false ∷ writer_exits ∷ sends (bytes "a") ∷ []) (run echo (new_connection 1)) in
    (s.is_closed ≡ false)
    × (s.panicked ≡ false)
    × ((run (writes true ∷ stops ∷ []) s).offered ≡ some (bytes "a"))
run_error_example =
    run_error (run echo (new_connection 1)) (bytes "a") (writes true ∷ stops ∷ []) echo-IsOpen
