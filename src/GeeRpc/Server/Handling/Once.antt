-- ===== src/GeeRpc/Server/Handling/Once.antt =====
-- How many responses a request gets.
use distributed_study.Common.{
  ℕ, ◌≡◌, refl, Str, Option, none, some, List, [], ◌∷◌, length, arith, ◌≤◌,
}
use distributed_study.GeeRpc.Server.Handling.{
  Waiter, awaits_called, awaits_sent, returned, Worker, calling, sends_called, responds, sends_sent,
  ended, Handling, start_handling, Action, call_returns, meet_called, send_response, meet_sent,
  timer, return_call, pass_called, respond_call, pass_sent, time_out, handling_step, handling_run,
}

-- The number of responses where the two goroutines stand; `none` where they never stand.
unfoldable pub responses_at : Waiter → Worker → Option ℕ
responses_at awaits_called calling = some 0
responses_at awaits_called (sends_called e) = some 0
responses_at awaits_called (responds e) = none
responses_at awaits_called sends_sent = none
responses_at awaits_called ended = none
responses_at awaits_sent calling = none
responses_at awaits_sent (sends_called e) = none
responses_at awaits_sent (responds e) = some 0
responses_at awaits_sent sends_sent = some 1
responses_at awaits_sent ended = none
responses_at returned calling = some 1
responses_at returned (sends_called e) = some 1
responses_at returned (responds e) = none
responses_at returned sends_sent = none
responses_at returned ended = some 1

unfoldable pub IsCounted : Handling → Type 0
IsCounted s = responses_at s.waiter s.worker ≡ some (length s.responses)

return_call-IsCounted :
    (e : Option Str) (w : Waiter) (k : Worker) (n : ℕ)
    → responses_at w k ≡ some n
    → responses_at w (return_call e k) ≡ some n
unfolding responses_at return_call
return_call-IsCounted e awaits_called calling n q = q
return_call-IsCounted e awaits_sent calling n q = ground arith
return_call-IsCounted e returned calling n q = q
return_call-IsCounted e w (sends_called x) n q = q
return_call-IsCounted e w (responds x) n q = q
return_call-IsCounted e w sends_sent n q = q
return_call-IsCounted e w ended n q = q

pass_called-IsCounted :
    (w : Waiter) (k : Worker) (n : ℕ)
    → responses_at w k ≡ some n
    → responses_at (pass_called w k).0 (pass_called w k).1 ≡ some n
unfolding responses_at pass_called
pass_called-IsCounted awaits_called (sends_called e) n q = q
pass_called-IsCounted awaits_called calling n q = q
pass_called-IsCounted awaits_called (responds e) n q = q
pass_called-IsCounted awaits_called sends_sent n q = q
pass_called-IsCounted awaits_called ended n q = q
pass_called-IsCounted awaits_sent k n q = q
pass_called-IsCounted returned k n q = q

respond_call-IsCounted :
    (w : Waiter) (k : Worker) (rs : List (Option Str))
    → responses_at w k ≡ some (length rs)
    → responses_at w (respond_call k rs).0 ≡ some (length (respond_call k rs).1)
unfolding responses_at respond_call
respond_call-IsCounted awaits_called (responds e) rs q = ground arith
respond_call-IsCounted awaits_sent (responds e) rs q = ground arith
respond_call-IsCounted returned (responds e) rs q = ground arith
respond_call-IsCounted w calling rs q = q
respond_call-IsCounted w (sends_called e) rs q = q
respond_call-IsCounted w sends_sent rs q = q
respond_call-IsCounted w ended rs q = q

pass_sent-IsCounted :
    (w : Waiter) (k : Worker) (n : ℕ)
    → responses_at w k ≡ some n
    → responses_at (pass_sent w k).0 (pass_sent w k).1 ≡ some n
unfolding responses_at pass_sent
pass_sent-IsCounted awaits_sent sends_sent n q = q
pass_sent-IsCounted awaits_sent calling n q = q
pass_sent-IsCounted awaits_sent (sends_called e) n q = q
pass_sent-IsCounted awaits_sent (responds e) n q = q
pass_sent-IsCounted awaits_sent ended n q = q
pass_sent-IsCounted awaits_called k n q = q
pass_sent-IsCounted returned k n q = q

time_out-IsCounted :
    (t : ℕ) (w : Waiter) (k : Worker) (rs : List (Option Str))
    → responses_at w k ≡ some (length rs)
    → responses_at (time_out t w rs).0 k ≡ some (length (time_out t w rs).1)
unfolding responses_at time_out
time_out-IsCounted t awaits_called calling rs q = ground arith
time_out-IsCounted t awaits_called (sends_called e) rs q = ground arith
time_out-IsCounted t awaits_called (responds e) rs q = ground arith
time_out-IsCounted t awaits_called sends_sent rs q = ground arith
time_out-IsCounted t awaits_called ended rs q = ground arith
time_out-IsCounted t awaits_sent k rs q = q
time_out-IsCounted t returned k rs q = q

pub handling_step-IsCounted :
    (a : Action) (s : Handling) → IsCounted s → IsCounted (handling_step a s)
unfolding IsCounted handling_step
handling_step-IsCounted (call_returns e) s q =
    return_call-IsCounted e s.waiter s.worker (length s.responses) q
handling_step-IsCounted meet_called s q =
    pass_called-IsCounted s.waiter s.worker (length s.responses) q
handling_step-IsCounted send_response s q = respond_call-IsCounted s.waiter s.worker s.responses q
handling_step-IsCounted meet_sent s q = pass_sent-IsCounted s.waiter s.worker (length s.responses) q
handling_step-IsCounted timer s q = time_out-IsCounted s.timeout s.waiter s.worker s.responses q

pub handling_run-IsCounted :
    (actions : List Action) (s : Handling) → IsCounted s → IsCounted (handling_run actions s)
unfolding handling_run
handling_run-IsCounted [] s q = q
handling_run-IsCounted (a ∷ actions) s q =
    handling_run-IsCounted actions (handling_step a s) (handling_step-IsCounted a s q)

pub IsCounted-bound :
    (w : Waiter) (k : Worker) (n : ℕ) → responses_at w k ≡ some n → (n ≤ 1) × (w ≡ returned → n ≡ 1)
unfolding responses_at
IsCounted-bound awaits_called calling n q = ground arith
IsCounted-bound awaits_called (sends_called e) n q = ground arith
IsCounted-bound awaits_called (responds e) n q = ground arith
IsCounted-bound awaits_called sends_sent n q = ground arith
IsCounted-bound awaits_called ended n q = ground arith
IsCounted-bound awaits_sent calling n q = ground arith
IsCounted-bound awaits_sent (sends_called e) n q = ground arith
IsCounted-bound awaits_sent (responds e) n q = ground arith
IsCounted-bound awaits_sent sends_sent n q = ground arith
IsCounted-bound awaits_sent ended n q = ground arith
IsCounted-bound returned calling n q = ground arith
IsCounted-bound returned (sends_called e) n q = ground arith
IsCounted-bound returned (responds e) n q = ground arith
IsCounted-bound returned sends_sent n q = ground arith
IsCounted-bound returned ended n q = ground arith

-- In any order of steps a request gets at most one response, and exactly one once its goroutine
-- has returned.
handling_run_responses :
    (timeout : ℕ) (actions : List Action)
    → (length (handling_run actions (start_handling timeout)).responses ≤ 1)
      × ((handling_run actions (start_handling timeout)).waiter ≡ returned
          → length (handling_run actions (start_handling timeout)).responses ≡ 1)
unfolding start_handling IsCounted responses_at
handling_run_responses timeout actions =
    let s = handling_run actions (start_handling timeout) in
    IsCounted-bound s.waiter s.worker (length s.responses)
      (handling_run-IsCounted actions (start_handling timeout) refl)
