-- ===== src/GeeRpc/Server/Handling.antt =====
-- `handleRequest`: the goroutine that waits, the one that calls the method, and the timer.
--
-- The channels `called` and `sent` have no room, so a send and its receive are one step that both
-- sides must have reached. What a step finds not ready, it leaves as it is.
pub mod Leaks
pub mod Once
pub mod Effects
use distributed_study.Common.{
  ℕ, zero, suc, Str, Option, none, some, List, [], ◌∷◌, Bool, true, false, ◌==◌, nat_key,
  if◌then◌else◌, bytes,
}

-- Where the goroutine of the request stands: at the first receive or the select, at the receive
-- from `sent`, or behind its end.
pub data Waiter : Type 0 where
  awaits_called awaits_sent returned : Waiter

-- Where the goroutine of the method stands: in the call, at the send to `called`, before its
-- response, at the send to `sent`, or behind its end.
pub data Worker : Type 0 where
  calling : Worker
  sends_called responds : Option Str → Worker
  sends_sent ended : Worker

pub record Handling : Type 0 where
  pub timeout : ℕ
  pub waiter : Waiter
  pub worker : Worker
  -- the errors of the responses that were sent, the last one first
  pub responses : List (Option Str)

unfoldable pub start_handling : ℕ → Handling
start_handling timeout = record {
  timeout = timeout;
  waiter = awaits_called;
  worker = calling;
  responses = [];
}

pub data Action : Type 0 where
  call_returns : Option Str → Action
  meet_called send_response meet_sent timer : Action

abbrev pub timeout_error : Option Str
timeout_error = some (bytes "rpc server: request handle timeout")

-- The method returns, with its error.
unfoldable pub return_call : Option Str → Worker → Worker
return_call e calling = sends_called e
return_call e (sends_called x) = sends_called x
return_call e (responds x) = responds x
return_call e sends_sent = sends_sent
return_call e ended = ended

-- `called <- struct{}{}` meets `<-called`.
unfoldable pub pass_called : Waiter → Worker → Waiter × Worker
pass_called awaits_called (sends_called e) = (awaits_sent, responds e)
pass_called waiter worker = (waiter, worker)

-- The response of the method's goroutine.
unfoldable pub respond_call : Worker → List (Option Str) → Worker × List (Option Str)
respond_call (responds e) rs = (sends_sent, e ∷ rs)
respond_call worker rs = (worker, rs)

-- `sent <- struct{}{}` meets `<-sent`.
unfoldable pub pass_sent : Waiter → Worker → Waiter × Worker
pass_sent awaits_sent sends_sent = (returned, ended)
pass_sent waiter worker = (waiter, worker)

-- The case of the timer in the select, which responds and returns.
unfoldable pub time_out : ℕ → Waiter → List (Option Str) → Waiter × List (Option Str)
time_out timeout awaits_called rs =
    if timeout == 0 then (awaits_called, rs) else (returned, timeout_error ∷ rs)
time_out timeout awaits_sent rs = (awaits_sent, rs)
time_out timeout returned rs = (returned, rs)

unfoldable pub handling_step : Action → Handling → Handling
handling_step (call_returns e) s = record s { worker = return_call e s.worker }
handling_step meet_called s =
    let p = pass_called s.waiter s.worker in record s { waiter = p.0; worker = p.1 }
handling_step send_response s =
    let p = respond_call s.worker s.responses in record s { worker = p.0; responses = p.1 }
handling_step meet_sent s =
    let p = pass_sent s.waiter s.worker in record s { waiter = p.0; worker = p.1 }
handling_step timer s =
    let p = time_out s.timeout s.waiter s.responses in record s { waiter = p.0; responses = p.1 }

unfoldable pub handling_run : List Action → Handling → Handling
handling_run [] s = s
handling_run (a ∷ actions) s = handling_run actions (handling_step a s)
