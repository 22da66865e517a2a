-- ===== src/GeeRpc/Server/Handling/Effects.antt =====
-- What a step changes in what the method's goroutine carries, and behind the waiter's return.
use distributed_study.Common.{
  ℕ, ◌≤◌, ◌≡◌, ◌⊎◌, nat_key, inl, inr, refl, ◌∙◌, ap, sym, Str, Option, none, some, List, length,
  arith,
}
use distributed_study.GeeRpc.Server.Handling.{
  Waiter, awaits_called, awaits_sent, returned, Worker, calling, sends_called, responds, sends_sent,
  ended, Handling, Action, call_returns, meet_called, send_response, meet_sent, timer, return_call,
  pass_called, respond_call, pass_sent, time_out, handling_step,
}
use distributed_study.GeeRpc.Server.Handling.Once.{responses_at, IsCounted}

-- The error that the method's goroutine will respond with.
abbrev pub carried : Worker → Option (Option Str)
carried (sends_called e) = some e
carried (responds e) = some e
carried _ = none

return_call-carried :
    (e x : Option Str) (k : Worker)
    → carried (return_call e k) ≡ some x
    → (carried k ≡ some x) ⊎ (x ≡ e)
unfolding return_call
return_call-carried e x calling p = inr (ground arith)
return_call-carried e x (sends_called y) p = inl p
return_call-carried e x (responds y) p = inl p
return_call-carried e x sends_sent p = inl p
return_call-carried e x ended p = inl p

pass_called-carried : (w : Waiter) (k : Worker) → carried (pass_called w k).1 ≡ carried k
unfolding pass_called
pass_called-carried awaits_called calling = refl
pass_called-carried awaits_called (sends_called e) = refl
pass_called-carried awaits_called (responds e) = refl
pass_called-carried awaits_called sends_sent = refl
pass_called-carried awaits_called ended = refl
pass_called-carried awaits_sent k = refl
pass_called-carried returned k = refl

respond_call-carried :
    (x : Option Str) (k : Worker) (rs : List (Option Str))
    → carried (respond_call k rs).0 ≡ some x
    → carried k ≡ some x
unfolding respond_call
respond_call-carried x calling rs p = p
respond_call-carried x (sends_called e) rs p = p
respond_call-carried x (responds e) rs p = ground arith
respond_call-carried x sends_sent rs p = p
respond_call-carried x ended rs p = p

pass_sent-carried : (w : Waiter) (k : Worker) → carried (pass_sent w k).1 ≡ carried k
unfolding pass_sent
pass_sent-carried awaits_sent calling = refl
pass_sent-carried awaits_sent (sends_called e) = refl
pass_sent-carried awaits_sent (responds e) = refl
pass_sent-carried awaits_sent sends_sent = refl
pass_sent-carried awaits_sent ended = refl
pass_sent-carried awaits_called k = refl
pass_sent-carried returned k = refl

-- What is carried after a step was carried before, or is what the method returned in it.
pub carried-step :
    (a : Action) (s : Handling) (x : Option Str)
    → carried (handling_step a s).worker ≡ some x
    → (carried s.worker ≡ some x) ⊎ (a ≡ call_returns x)
unfolding handling_step
carried-step (call_returns e) s x p = elim (return_call-carried e x s.worker p) [
  | inl before ↦ inl before
  | inr now ↦ inr (ap call_returns (sym now))
]
carried-step meet_called s x p = inl (sym (pass_called-carried s.waiter s.worker) ∙ p)
carried-step send_response s x p = inl (respond_call-carried x s.worker s.responses p)
carried-step meet_sent s x p = inl (sym (pass_sent-carried s.waiter s.worker) ∙ p)
carried-step timer s x p = inl p

respond_call-returned :
    (k : Worker) (rs : List (Option Str)) (n : ℕ)
    → responses_at returned k ≡ some n
    → (respond_call k rs).1 ≡ rs
unfolding responses_at respond_call
respond_call-returned calling rs n q = refl
respond_call-returned (sends_called e) rs n q = refl
respond_call-returned (responds e) rs n q = ground arith
respond_call-returned sends_sent rs n q = refl
respond_call-returned ended rs n q = refl

-- Behind the return of the waiting goroutine no step responds.
pub returned-step :
    (a : Action) (s : Handling)
    → s.waiter ≡ returned
    → IsCounted s
    → ((handling_step a s).waiter ≡ returned) × ((handling_step a s).responses ≡ s.responses)
unfolding handling_step IsCounted pass_called pass_sent time_out
returned-step (call_returns e) s r q = (r, refl)
returned-step meet_called s r q = (rw r refl, refl)
returned-step send_response s r q =
    let at : responses_at returned s.worker ≡ some (length s.responses) =
      ap (λ w. responses_at w s.worker) (sym r) ∙ q in
    (r, respond_call-returned s.worker s.responses (length s.responses) at)
returned-step meet_sent s r q = (rw r refl, refl)
returned-step timer s r q = (rw r refl, rw r refl)

respond_call-grows :
    (k : Worker) (rs : List (Option Str)) → length rs ≤ length (respond_call k rs).1
unfolding respond_call
respond_call-grows calling rs = omega arith
respond_call-grows (sends_called e) rs = omega arith
respond_call-grows (responds e) rs = omega arith
respond_call-grows sends_sent rs = omega arith
respond_call-grows ended rs = omega arith

time_out-grows :
    (t : ℕ) (w : Waiter) (rs : List (Option Str)) → length rs ≤ length (time_out t w rs).1
unfolding time_out
time_out-grows t awaits_called rs = ground arith
time_out-grows t awaits_sent rs = omega arith
time_out-grows t returned rs = omega arith

-- No step takes a response back.
pub responses_grow :
    (a : Action) (s : Handling) → length s.responses ≤ length (handling_step a s).responses
unfolding handling_step
responses_grow (call_returns e) s = omega arith
responses_grow meet_called s = omega arith
responses_grow send_response s = respond_call-grows s.worker s.responses
responses_grow meet_sent s = omega arith
responses_grow timer s = time_out-grows s.timeout s.waiter s.responses
