-- ===== src/GeeRpc/Link/Closing.antt =====
-- What has been written once the server has closed a connection.
use distributed_study.Common.{
  ℕ, ◌≤◌, nat_key, ◌≡◌, ◌∙◌, ap, refl, none, List, [], ◌∷◌, ◌++◌, Bool, true, false, arith,
  if◌then◌else◌,
}
use mathlib.Core.List.{append-nil}
use distributed_study.GeeRpc.Link.{
  Setting, Link, Action, Response, start_link, put, crash, send_responses, read_next, step, run,
}
use distributed_study.GeeRpc.Link.Returned.{returned-work}
use distributed_study.GeeRpc.Link.Answering.{taken_of, written_of}
use distributed_study.GeeRpc.Link.Accounts.{run-IsAccounted, start-IsAccounted}
use distributed_study.GeeRpc.Link.OpenOrOver.{
  IsOpenOrOver, client_step-Same, step-IsOpenOrOver, run-IsOpenOrOver, start-IsOpenOrOver,
}

module _ (setting : Setting) where
  put_none : (cut : Bool) (rs : List Response) → rs ++ put cut [] ≡ rs
  unfolding put
  put_none true rs = append-nil rs
  put_none false rs = append-nil rs

  step_closed :
      (a : Action) (s : Link)
      → IsOpenOrOver setting s
      → s.closed ≡ true
      → ((step setting a s).closed ≡ true) × ((step setting a s).written ≡ s.written)
  unfolding step put crash send_responses
  step_closed (Action.begins m x) s v e =
      let (jobs, (serving, (closed, (written, _)))) =
        (client_step-Same setting s m x none none).0 in
      (closed ∙ e, written)
  step_closed (Action.writes w) s v e =
      let (jobs, (serving, (closed, (written, _)))) =
        (client_step-Same setting s [] [] w none).1.0 in
      (closed ∙ e, written)
  step_closed (Action.delivers why) s v e =
      let (jobs, (serving, (closed, (written, _)))) =
        (client_step-Same setting s [] [] none why).1.1 in
      (closed ∙ e, written)
  step_closed (Action.breaks why) s v e = (e, refl)
  step_closed Action.terminates s v e = (e, refl)
  step_closed Action.closes s v e = (e, refl)
  step_closed (Action.cancels n) s v e = (e, refl)
  step_closed Action.loses s v e = (e, refl)
  step_closed Action.cuts s v e = (e, refl)
  step_closed Action.panics s v e = (e, refl)
  step_closed (Action.works i a) s v e =
      let none_new = (returned-work setting i a s.jobs v.counted (v.over e).returned).1 in
      (e, rw none_new (put_none s.cut s.written))
  step_closed Action.finishes s v e = ground arith
  step_closed Action.reads s v e =
      let off : step setting Action.reads s ≡ s =
        ap (λ b. if b then read_next setting s.requests s else s) (v.over e).stopped in
      (ap (λ t. t.closed) off ∙ e, ap (λ t. t.written) off)

  run_closed :
      (actions : List Action) (s : Link)
      → IsOpenOrOver setting s
      → s.closed ≡ true
      → (run setting actions s).written ≡ s.written
  unfolding run
  run_closed [] s v e = refl
  run_closed (a ∷ actions) s v e =
      let (closed, written) = step_closed a s v e in
      run_closed actions (step setting a s) (step-IsOpenOrOver setting a s v) closed ∙ written

  -- In any interleaving, once the server has closed the connection, where no write of a
  -- response has failed, as many responses with a number were written as requests with it were
  -- read, and nothing more is ever written. At no time in any interleaving, whether writes
  -- fail or methods panic, has a number more responses than requests.
  pub run_closes :
      (before after other : List Action) (n : ℕ)
      → (run setting before start_link).closed ≡ true
      → (run setting before start_link).cut ≡ false
      → let s = run setting before start_link in
        let t = run setting other start_link in
        (written_of n s.written ≡ taken_of n s.taken)
        × (((run setting after s).written ≡ s.written)
            × (written_of n t.written ≤ taken_of n t.taken))
  run_closes before after other n e whole =
      let start = start-IsOpenOrOver setting in
      let v = run-IsOpenOrOver setting before start_link start in
      let accounts = run-IsAccounted setting before start_link start start-IsAccounted in
      let others = run-IsAccounted setting other start_link start start-IsAccounted in
      let most = others.at_most n in
      (
        accounts.settled e whole n,
        (run_closed after (run setting before start_link) v e, omega arith),
      )
