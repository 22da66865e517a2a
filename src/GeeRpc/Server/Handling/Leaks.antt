-- ===== src/GeeRpc/Server/Handling/Leaks.antt =====
-- A timeout while the method runs, after which its goroutine never ends.
use distributed_study.Common.{
  ℕ, ◌≡◌, refl, sym, ◌∙◌, Str, Option, List, [], ◌∷◌, Bool, true, false, arith,
}
use distributed_study.GeeRpc.Server.Handling.Once.{handling_run-IsCounted, IsCounted, responses_at}
use distributed_study.GeeRpc.Server.Handling.{
  Waiter, awaits_called, awaits_sent, returned, Worker, calling, sends_called, responds, sends_sent,
  ended, Handling, start_handling, Action, call_returns, meet_called, send_response, meet_sent,
  timer, return_call, pass_called, respond_call, pass_sent, time_out, handling_step, handling_run,
}

-- Whether the goroutine of the method has passed its send to `called`.
unfoldable pub is_past_called : Worker → Bool
is_past_called calling = false
is_past_called (sends_called e) = false
is_past_called (responds e) = true
is_past_called sends_sent = true
is_past_called ended = true

IsLeft : Handling → Type 0
IsLeft s = (s.waiter ≡ returned) × (is_past_called s.worker ≡ false)

IsLeft-step :
    (w : Waiter) (k : Worker) (rs : List (Option Str)) (t : ℕ) (a : Action)
    → w ≡ returned
    → is_past_called k ≡ false
    → IsLeft (handling_step a (record { timeout = t; waiter = w; worker = k; responses = rs }))
unfolding IsLeft is_past_called handling_step return_call pass_called respond_call pass_sent
    time_out
IsLeft-step returned calling rs t (call_returns e) r q = (refl, refl)
IsLeft-step returned calling rs t meet_called r q = (refl, refl)
IsLeft-step returned calling rs t send_response r q = (refl, refl)
IsLeft-step returned calling rs t meet_sent r q = (refl, refl)
IsLeft-step returned calling rs t timer r q = (refl, refl)
IsLeft-step returned (sends_called x) rs t (call_returns e) r q = (refl, refl)
IsLeft-step returned (sends_called x) rs t meet_called r q = (refl, refl)
IsLeft-step returned (sends_called x) rs t send_response r q = (refl, refl)
IsLeft-step returned (sends_called x) rs t meet_sent r q = (refl, refl)
IsLeft-step returned (sends_called x) rs t timer r q = (refl, refl)
IsLeft-step returned (responds x) rs t a r q = ground arith
IsLeft-step returned sends_sent rs t a r q = ground arith
IsLeft-step returned ended rs t a r q = ground arith
IsLeft-step awaits_called k rs t a r q = ground arith
IsLeft-step awaits_sent k rs t a r q = ground arith

IsLeft-run : (actions : List Action) (s : Handling) → IsLeft s → IsLeft (handling_run actions s)
unfolding IsLeft handling_run
IsLeft-run [] s q = q
IsLeft-run (a ∷ actions) s q =
    IsLeft-run actions (handling_step a s)
      (IsLeft-step s.waiter s.worker s.responses s.timeout a q.0 q.1)

handling_step-timeout : (a : Action) (s : Handling) → (handling_step a s).timeout ≡ s.timeout
unfolding handling_step
handling_step-timeout (call_returns e) s = refl
handling_step-timeout meet_called s = refl
handling_step-timeout send_response s = refl
handling_step-timeout meet_sent s = refl
handling_step-timeout timer s = refl

handling_run-timeout :
    (actions : List Action) (s : Handling) → (handling_run actions s).timeout ≡ s.timeout
unfolding handling_run
handling_run-timeout [] s = refl
handling_run-timeout (a ∷ actions) s =
    handling_run-timeout actions (handling_step a s) ∙ handling_step-timeout a s

timer-IsLeft :
    (t : ℕ) (w : Waiter) (k : Worker) (rs : List (Option Str))
    → IsCounted (record { timeout = t; waiter = w; worker = k; responses = rs })
    → w ≡ awaits_called
    → ¬ (t ≡ 0)
    → IsLeft (handling_step timer (record { timeout = t; waiter = w; worker = k; responses = rs }))
unfolding IsLeft IsCounted is_past_called handling_step time_out responses_at
timer-IsLeft t awaits_called calling rs q w z = ground arith
timer-IsLeft t awaits_called (sends_called e) rs q w z = ground arith
timer-IsLeft t awaits_called (responds e) rs q w z = ground arith
timer-IsLeft t awaits_called sends_sent rs q w z = ground arith
timer-IsLeft t awaits_called ended rs q w z = ground arith
timer-IsLeft t awaits_sent k rs q w z = ground arith
timer-IsLeft t returned k rs q w z = ground arith

-- Where a request has a timeout and the timer fires while the request's goroutine still awaits the
-- call, the method's goroutine never gets past its send to `called`, whatever steps follow: it
-- neither responds nor ends.
pub timer-leaks :
    (timeout : ℕ) (before after : List Action)
    → ¬ (timeout ≡ 0)
    → (handling_run before (start_handling timeout)).waiter ≡ awaits_called
    → is_past_called
        (handling_run after
          (handling_step timer (handling_run before (start_handling timeout)))).worker
      ≡ false
unfolding IsLeft start_handling IsCounted responses_at
timer-leaks timeout before after z w =
    let s = handling_run before (start_handling timeout) in
    let timed = handling_run-timeout before (start_handling timeout) in
    (IsLeft-run after (handling_step timer s) (
      timer-IsLeft s.timeout s.waiter s.worker s.responses
        (handling_run-IsCounted before (start_handling timeout) refl) w (λ e. z (sym timed ∙ e)))).1
