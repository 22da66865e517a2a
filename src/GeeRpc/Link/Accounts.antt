-- ===== src/GeeRpc/Link/Accounts.antt =====
-- The responses that a server has written, against the requests that it took.
use distributed_study.Common.{
  ℕ, ◌+◌, ◌≤◌, ◌≡◌, ◌∙◌, ap, refl, sym, none, List, [], ◌∷◌, ◌++◌, Bool, true, false, not, ◌&&◌,
  nat_key, if◌then◌else◌, arith, Bool-cases, Option-cases, inl, inr,
}
use mathlib.Core.Path.{subst}
use distributed_study.GeeRpc.Server.{Value, Outcome, handle, respond, crashes, read_request}
use distributed_study.GeeRpc.Server.Handling
use distributed_study.GeeRpc.Server.Handling.{start_handling}
use distributed_study.GeeRpc.Link.{
  Setting, Job, Response, Link, Action, start_link, put, send_responses, crash, error_text,
  all_returned, work, serve, read, read_next, step, run,
}
use distributed_study.GeeRpc.Link.Returned.{returned-work}
use distributed_study.GeeRpc.Link.OpenOrOver.{
  IsOpenOrOver, Same, client_step-Same, step-IsOpenOrOver,
}
use distributed_study.GeeRpc.Link.Answering.{
  taken_of, written_of, waiting, taken_of-append, written_of-append, waiting-append, work-waiting,
  returned-waiting,
}

-- For each number: no request has two responses, and each that was taken has one or waits for it,
-- unless a write has failed or the process has ended.
pub record IsAccounted (s : Link) : Type 0 where
  pub at_most : (n : ℕ) → written_of n s.written + waiting n s.jobs ≤ taken_of n s.taken
  pub exact :
      s.cut ≡ false
      → s.crashed ≡ false
      → (n : ℕ) → written_of n s.written + waiting n s.jobs ≡ taken_of n s.taken
  pub settled :
      s.closed ≡ true → s.cut ≡ false → (n : ℕ) → written_of n s.written ≡ taken_of n s.taken

module _ (setting : Setting) where
  Same-IsAccounted : (s t : Link) → Same setting s t → IsAccounted s → IsAccounted t
  Same-IsAccounted s t (jobs, (serving, (closed, (written, (taken, (cut, crashed)))))) v = record {
    at_most = λ n. rw (written, jobs, taken) (v.at_most n);
    exact = λ whole goes n.
        rw (written, jobs, taken) (v.exact (sym cut ∙ whole) (sym crashed ∙ goes) n);
    settled =
        λ over whole n. rw (written, taken) (v.settled (sym closed ∙ over) (sym cut ∙ whole) n);
  }

  crash-IsAccounted : (s : Link) → IsAccounted s → IsAccounted (crash s)
  unfolding crash
  crash-IsAccounted s v = record {
    at_most = λ n. let most = v.at_most n in omega arith;
    exact = λ whole goes n. ground arith;
    settled = v.settled;
  }

  -- What a write adds, and what it adds where none has failed.
  written_of-put :
      (n : ℕ) (cut : Bool) (rs ss : List Response)
      → (written_of n (rs ++ put cut ss) ≤ written_of n rs + written_of n ss)
        × (cut ≡ false → written_of n (rs ++ put cut ss) ≡ written_of n rs + written_of n ss)
  unfolding put
  written_of-put n true rs ss = (omega (arith, written_of-append n rs []), λ e. ground arith)
  written_of-put n false rs ss =
      (omega (arith, written_of-append n rs ss), λ e. written_of-append n rs ss)

  open_now : (s : Link) → s.serving ≡ true → IsOpenOrOver setting s → s.closed ≡ true → false ≡ true
  open_now s on h e = let off = (h.over e).stopped in ground arith

  serve-IsAccounted :
      (o : Outcome) (s : Link)
      → s.serving ≡ true
      → IsOpenOrOver setting s
      → IsAccounted s
      → IsAccounted (serve setting o s)
  unfolding serve send_responses start_handling
  serve-IsAccounted (crashes h) s on w v = crash-IsAccounted s v
  serve-IsAccounted (respond h e) s on w v =
      let r : Response = record { header = record h { error = error_text e }; body = none } in
      record {
        at_most = λ n.
            let most = v.at_most n in
            let (adds, _) = written_of-put n s.cut s.written (r ∷ []) in
            omega (arith, taken_of-append n s.taken h);
        exact = λ whole goes n.
            let same = v.exact whole goes n in
            let (_, adds) = written_of-put n s.cut s.written (r ∷ []) in
            let added = adds whole in omega (arith, taken_of-append n s.taken h);
        settled = λ over whole n. let no = open_now s on w over in ground arith;
      }
  serve-IsAccounted (handle h svc mtype argv) s on w v =
      let j : Job = record {
        header = h;
        svc = svc;
        mtype = mtype;
        argv = argv;
        handling = start_handling setting.timeout;
      } in
      record {
        at_most = λ n.
            let most = v.at_most n in
            omega (arith, taken_of-append n s.taken h, waiting-append n s.jobs j);
        exact = λ whole goes n.
            let same = v.exact whole goes n in
            omega (arith, taken_of-append n s.taken h, waiting-append n s.jobs j);
        settled = λ over whole n. let no = open_now s on w over in ground arith;
      }

  read-IsAccounted :
      (s : Link)
      → s.serving ≡ true
      → IsOpenOrOver setting s
      → IsAccounted s
      → IsAccounted (read setting s)
  unfolding read
  read-IsAccounted s on w v = elim (Option-cases (read_request s.requests setting.server)) [
    | inl none_left ↦
        rw (none_left, read) (record { at_most = v.at_most; exact = v.exact; settled = v.settled })
    | inr ((o, rest), e) ↦
        rw (e, read)
          (serve-IsAccounted o (record s { requests = rest }) on
            (record {
              counted = w.counted;
              over = λ c.
                  let was = w.over c in record { stopped = was.stopped; returned = was.returned };
            })
            (record { at_most = v.at_most; exact = v.exact; settled = v.settled }))
  ]

  read_next-IsAccounted :
      (vs : List Value) (s : Link)
      → s.serving ≡ true
      → IsOpenOrOver setting s
      → IsAccounted s
      → IsAccounted (read_next setting vs s)
  unfolding read_next
  read_next-IsAccounted [] s on w v = v
  read_next-IsAccounted (_ ∷ vs) s on w v = read-IsAccounted s on w v

  works-IsAccounted :
      (i : ℕ) (a : Handling.Action) (s : Link)
      → IsOpenOrOver setting s
      → IsAccounted s
      → IsAccounted (step setting (Action.works i a) s)
  unfolding step send_responses
  works-IsAccounted i a s w v =
      let rs = (work setting i a s.jobs).1 in
      record {
        at_most = λ n.
            let most = v.at_most n in
            let (adds, _) = written_of-put n s.cut s.written rs in
            omega (arith, work-waiting setting n i a s.jobs w.counted);
        exact = λ whole goes n.
            let same = v.exact whole goes n in
            let (_, adds) = written_of-put n s.cut s.written rs in
            let added = adds whole in omega (arith, work-waiting setting n i a s.jobs w.counted);
        settled = λ over whole n.
            let none_new = (returned-work setting i a s.jobs w.counted (w.over over).returned).1 in
            let (_, adds) = written_of-put n s.cut s.written rs in
            let added = adds whole in
            let zero_new : written_of n rs ≡ 0 = ap (written_of n) none_new in
            omega (arith, v.settled over whole n);
      }

  finishes-IsAccounted :
      (s : Link)
      → IsOpenOrOver setting s
      → IsAccounted s
      → (not s.crashed && (not s.serving && all_returned s.jobs)) ≡ true
      → IsAccounted (record s { closed = true })
  finishes-IsAccounted s w v done = record {
    at_most = v.at_most;
    exact = v.exact;
    settled = λ over whole n.
        let none_waits = returned-waiting setting n s.jobs w.counted (ground arith) in
        let same = v.exact whole (ground arith) n in omega arith;
  }

  pub step-IsAccounted :
      (a : Action) (s : Link)
      → IsOpenOrOver setting s
      → IsAccounted s
      → IsAccounted (step setting a s)
  unfolding step
  step-IsAccounted (Action.begins m x) s w v =
      Same-IsAccounted s _ (client_step-Same setting s m x none none).0 v
  step-IsAccounted (Action.writes e) s w v =
      Same-IsAccounted s _ (client_step-Same setting s [] [] e none).1.0 v
  step-IsAccounted (Action.delivers why) s w v =
      Same-IsAccounted s _ (client_step-Same setting s [] [] none why).1.1 v
  step-IsAccounted (Action.breaks why) s w v = record {
    at_most = v.at_most;
    exact = v.exact;
    settled = v.settled;
  }
  step-IsAccounted Action.terminates s w v = record {
    at_most = v.at_most;
    exact = v.exact;
    settled = v.settled;
  }
  step-IsAccounted Action.closes s w v = record {
    at_most = v.at_most;
    exact = v.exact;
    settled = v.settled;
  }
  step-IsAccounted (Action.cancels n) s w v = record {
    at_most = v.at_most;
    exact = v.exact;
    settled = v.settled;
  }
  step-IsAccounted Action.loses s w v = record {
    at_most = v.at_most;
    exact = v.exact;
    settled = v.settled;
  }
  step-IsAccounted Action.cuts s w v = record {
    at_most = v.at_most;
    exact = λ whole goes n. ground arith;
    settled = λ over whole n. ground arith;
  }
  step-IsAccounted Action.panics s w v = crash-IsAccounted s v
  step-IsAccounted (Action.works i a) s w v = works-IsAccounted i a s w v
  step-IsAccounted Action.finishes s w v =
      elim (Bool-cases (not s.crashed && (not s.serving && all_returned s.jobs))) [
        | inl done ↦ rw (done, step) (finishes-IsAccounted s w v done)
        | inr goes ↦ rw (goes, step) v
      ]
  step-IsAccounted Action.reads s w v = elim (Bool-cases s.serving) [
    | inr off ↦
        subst IsAccounted (sym (ap (λ b. if b then read_next setting s.requests s else s) off)) v
    | inl on ↦
        subst IsAccounted (sym (ap (λ b. if b then read_next setting s.requests s else s) on))
          (read_next-IsAccounted s.requests s on w v)
  ]

  pub run-IsAccounted :
      (actions : List Action) (s : Link)
      → IsOpenOrOver setting s
      → IsAccounted s
      → IsAccounted (run setting actions s)
  unfolding run
  run-IsAccounted [] s w v = v
  run-IsAccounted (a ∷ actions) s w v =
      run-IsAccounted actions (step setting a s) (step-IsOpenOrOver setting a s w)
        (step-IsAccounted a s w v)

pub start-IsAccounted : IsAccounted start_link
unfolding start_link
start-IsAccounted = record {
  at_most = λ n. omega arith;
  exact = λ whole goes n. refl;
  settled = λ over whole n. refl;
}
