-- ===== src/GeeRpc/Link/Working.antt =====
-- What the goroutines of the requests keep and send.
use distributed_study.Common.{
  inl, inr, ℕ, zero, suc, ◌-◌, ◌≡◌, refl, sym, Str, Option, none, some, List, [], ◌∷◌, nat_key,
  arith, All, length, take, map,
}
use distributed_study.GeeRpc.Client.{Client}
use distributed_study.GeeRpc.Server.Handling
use distributed_study.GeeRpc.Server.Handling.{
  Handling, Worker, calling, sends_called, responds, sends_sent, Waiter, awaits_called, awaits_sent,
  returned, start_handling, handling_step, return_call, pass_called, respond_call, pass_sent,
  time_out,
}
use distributed_study.GeeRpc.Link.{
  Setting, Job, Response, invoked, own, response, job_step, job_responses, work,
}
use distributed_study.GeeRpc.Server.Handling.Effects.{carried-step}
use distributed_study.GeeRpc.Link.Invariant.{JobFits, ResponseFits}

module _ (setting : Setting) where
  own_returns :
      (a : Handling.Action) (j : Job) (e : Option Str)
      → own setting j a ≡ Handling.call_returns e
      → e ≡ (invoked setting j).0
  own_returns (Handling.call_returns r) j e p = ground arith
  own_returns Handling.meet_called j e p = ground arith
  own_returns Handling.send_response j e p = ground arith
  own_returns Handling.meet_sent j e p = ground arith
  own_returns Handling.timer j e p = ground arith

  job_step-JobFits :
      (c : Client) (a : Handling.Action) (j : Job)
      → JobFits setting c j
      → JobFits setting c (job_step setting a j)
  unfolding job_step
  job_step-JobFits c a j f = record {
    fits = f.fits;
    finds = f.finds;
    own_error = λ e p. elim (carried-step (own setting j a) j.handling e p) [
      | inl before ↦ f.own_error e before
      | inr now ↦ own_returns a j e now
    ];
  }

  -- A response that has no reply, or that the method's goroutine sends.
  timer-ResponseFits :
      (c : Client) (j : Job) (es : List (Option Str))
      → JobFits setting c j
      → All (ResponseFits setting c) (map (response setting j Handling.timer) es)
  timer-ResponseFits c j [] f = tt
  timer-ResponseFits c j (none ∷ es) f = (
    record { given = f.fits.given; answers = λ b q ok said e. ground arith },
    timer-ResponseFits c j es f,
  )
  timer-ResponseFits c j (some why ∷ es) f = (
    record { given = f.fits.given; answers = λ b q ok said e. ground arith },
    timer-ResponseFits c j es f,
  )

  respond-ResponseFits :
      (c : Client) (j : Job) (e : Option Str)
      → JobFits setting c j
      → j.handling.worker ≡ responds e
      → ResponseFits setting c (response setting j Handling.send_response e)
  respond-ResponseFits c j none f at = record {
    given = f.fits.given;
    answers = λ b q ok said p. record {
      svc = j.svc;
      mtype = j.mtype;
      finds = rw (f.fits.for_method q p) f.finds;
      replies = rw (f.fits.for_args q p) (ground arith);
      succeeds = rw (f.fits.for_args q p) (rw (sym (f.own_error none (ground arith))) refl);
    };
  }
  respond-ResponseFits c j (some why) f at = record {
    given = f.fits.given;
    answers = λ b q ok said p. record {
      svc = j.svc;
      mtype = j.mtype;
      finds = rw (f.fits.for_method q p) f.finds;
      replies = rw (f.fits.for_args q p) (ground arith);
      succeeds = rw (f.fits.for_args q p) (rw (sym (f.own_error (some why) (ground arith))) ok);
    };
  }

  -- The responses where a step has added none, and where it has added one.
  none_new :
      (P : Response → Type 0) (f : Option Str → Response) (rs : List (Option Str))
      → All P (map f (take (length rs - length rs) rs))
  none_new P f rs = let e : length rs - length rs ≡ 0 = omega arith in rw e tt

  one_new :
      (P : Response → Type 0) (f : Option Str → Response) (x : Option Str) (rs : List (Option Str))
      → P (f x)
      → All P (map f (take (length (x ∷ rs) - length rs) (x ∷ rs)))
  one_new P f x rs h = let e : suc (length rs) - length rs ≡ suc 0 = omega arith in rw e (h, tt)

  respond_call-ResponseFits :
      (c : Client) (j : Job) (k : Worker)
      → JobFits setting c j
      → j.handling.worker ≡ k
      → let rs = j.handling.responses in
        let after = (respond_call k rs).1 in
        All
          (ResponseFits setting c)
          (map (response setting j Handling.send_response) (take (length after - length rs) after))
  unfolding respond_call
  respond_call-ResponseFits c j (responds e) f at =
      one_new (ResponseFits setting c) (response setting j Handling.send_response) e
        j.handling.responses (respond-ResponseFits c j e f at)
  respond_call-ResponseFits c j calling f at =
      none_new (ResponseFits setting c) (response setting j Handling.send_response)
        j.handling.responses
  respond_call-ResponseFits c j (sends_called e) f at =
      none_new (ResponseFits setting c) (response setting j Handling.send_response)
        j.handling.responses
  respond_call-ResponseFits c j sends_sent f at =
      none_new (ResponseFits setting c) (response setting j Handling.send_response)
        j.handling.responses
  respond_call-ResponseFits c j Worker.ended f at =
      none_new (ResponseFits setting c) (response setting j Handling.send_response)
        j.handling.responses

  job_responses-ResponseFits :
      (c : Client) (a : Handling.Action) (j : Job)
      → JobFits setting c j
      → All (ResponseFits setting c) (job_responses setting a j)
  unfolding job_responses job_step handling_step
  job_responses-ResponseFits c Handling.timer j f = timer-ResponseFits c j _ f
  job_responses-ResponseFits c (Handling.call_returns r) j f =
      none_new (ResponseFits setting c) (response setting j (Handling.call_returns r))
        j.handling.responses
  job_responses-ResponseFits c Handling.meet_called j f =
      none_new (ResponseFits setting c) (response setting j Handling.meet_called)
        j.handling.responses
  job_responses-ResponseFits c Handling.meet_sent j f =
      none_new (ResponseFits setting c) (response setting j Handling.meet_sent) j.handling.responses
  job_responses-ResponseFits c Handling.send_response j f =
      respond_call-ResponseFits c j j.handling.worker f refl

  pub work-Fits :
      (c : Client) (i : ℕ) (a : Handling.Action) (js : List Job)
      → All (JobFits setting c) js
      → All (JobFits setting c) (work setting i a js).0
        × All (ResponseFits setting c) (work setting i a js).1
  unfolding work
  work-Fits c i a [] f = (tt, tt)
  work-Fits c zero a (j ∷ js) (f, fs) =
      ((job_step-JobFits c a j f, fs), job_responses-ResponseFits c a j f)
  work-Fits c (suc i) a (j ∷ js) (f, fs) =
      let (jobs, responses) = work-Fits c i a js fs in ((f, jobs), responses)
