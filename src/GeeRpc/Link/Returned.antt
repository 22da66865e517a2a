-- ===== src/GeeRpc/Link/Returned.antt =====
-- The requests of a server, once their waiting goroutines have returned.
use distributed_study.Common.{ℕ, zero, suc, ◌≡◌, refl, ◌-◌, List, [], ◌∷◌, true, arith, All, length}
use distributed_study.GeeRpc.Server.Handling
use distributed_study.GeeRpc.Server.Handling.{
  Handling, Waiter, awaits_called, awaits_sent, returned, Worker, calling, sends_called, responds,
  sends_sent, start_handling, handling_step, return_call, pass_called, respond_call, pass_sent,
  time_out,
}
use distributed_study.GeeRpc.Server.Handling.Once.{IsCounted, handling_step-IsCounted}
use distributed_study.GeeRpc.Link.{
  Setting, Job, is_returned, all_returned, own, job_step, job_responses, work,
}
use distributed_study.GeeRpc.Server.Handling.Effects.{returned-step}

pub is_returned_iff : (w : Waiter) → is_returned w ≡ true → w ≡ returned
unfolding is_returned
is_returned_iff awaits_called e = ground arith
is_returned_iff awaits_sent e = ground arith
is_returned_iff returned e = refl

module _ (setting : Setting) where
  abbrev pub Counted : Job → Type 0
  Counted j = IsCounted j.handling

  job_step-Counted : (a : Handling.Action) (j : Job) → Counted j → Counted (job_step setting a j)
  unfolding job_step
  job_step-Counted a j c = handling_step-IsCounted (own setting j a) j.handling c

  pub work-Counted :
      (i : ℕ) (a : Handling.Action) (js : List Job)
      → All Counted js
      → All Counted (work setting i a js).0
  unfolding work
  work-Counted i a [] c = c
  work-Counted zero a (j ∷ js) (c, cs) = (job_step-Counted a j c, cs)
  work-Counted (suc i) a (j ∷ js) (c, cs) = (c, work-Counted i a js cs)

  returned-job :
      (a : Handling.Action) (j : Job)
      → Counted j
      → is_returned j.handling.waiter ≡ true
      → (is_returned (job_step setting a j).handling.waiter ≡ true)
        × (job_responses setting a j ≡ [])
  unfolding IsCounted job_step job_responses is_returned
  returned-job a j c e =
      let h = j.handling in
      let (at, same) = returned-step (own setting j a) h (is_returned_iff h.waiter e) c in
      let none_new : length (job_step setting a j).handling.responses - length h.responses ≡ 0 =
        rw same (omega arith) in
      (rw at refl, rw none_new refl)

  pub returned-work :
      (i : ℕ) (a : Handling.Action) (js : List Job)
      → All Counted js
      → all_returned js ≡ true
      → (all_returned (work setting i a js).0 ≡ true) × ((work setting i a js).1 ≡ [])
  unfolding work all_returned
  returned-work i a [] c e = (refl, refl)
  returned-work zero a (j ∷ js) (c, cs) e =
      let (at, none_new) = returned-job a j c (ground arith) in (ground arith, none_new)
  returned-work (suc i) a (j ∷ js) (c, cs) e =
      let (at, none_new) = returned-work i a js cs (ground arith) in (ground arith, none_new)
