-- ===== src/GeeRpc/Link/OpenOrOver.antt =====
-- A server's connection is open, or nothing is left to do on it.
use distributed_study.Common.{
  ◌≡◌, ◌∙◌, ap, refl, sym, Str, Option, none, List, [], ◌∷◌, ◌++◌, true, false, not, ◌&&◌, arith,
  All, if◌then◌else◌, Bool-cases, Option-cases, inl, inr,
}
use mathlib.Core.Path.{subst}
use distributed_study.GeeRpc.Client
use distributed_study.GeeRpc.Client.{Receiver, receiving, failed, ended}
use distributed_study.GeeRpc.Server.{Value, Outcome, handle, respond, crashes, read_request}
use distributed_study.GeeRpc.Server.Handling.{start_handling}
use distributed_study.GeeRpc.Server.Handling.Once.{responses_at, IsCounted}
use distributed_study.GeeRpc.Link.{
  Setting, Job, Link, Action, start_link, crash, send_responses, all_returned, serve, read,
  read_next, deliver, step, run,
}
use distributed_study.GeeRpc.Link.Returned.{Counted, work-Counted, returned-work}

module _ (setting : Setting) where
  -- The loop has ended and every request has its response.
  pub record IsOver (s : Link) : Type 0 where
    pub stopped : s.serving ≡ false
    pub returned : all_returned s.jobs ≡ true

  pub record IsOpenOrOver (s : Link) : Type 0 where
    pub counted : All (Counted setting) s.jobs
    pub over : s.closed ≡ true → IsOver s

  -- What the client's actions leave alone.
  abbrev pub Same : Link → Link → Type 0
  Same s t =
      (t.jobs ≡ s.jobs)
      × ((t.serving ≡ s.serving)
          × ((t.closed ≡ s.closed)
              × ((t.written ≡ s.written)
                  × ((t.taken ≡ s.taken) × ((t.cut ≡ s.cut) × (t.crashed ≡ s.crashed))))))

  Same-IsOpenOrOver : (s t : Link) → Same s t → IsOpenOrOver s → IsOpenOrOver t
  Same-IsOpenOrOver s t (jobs, (serving, (closed, others))) v = record {
    counted = rw jobs v.counted;
    over = λ e.
        let was = v.over (sym closed ∙ e) in
        record { stopped = serving ∙ was.stopped; returned = rw jobs was.returned };
  }

  pub client_step-Same :
      (s : Link) (service_method args : Str) (e : Option Client.Error) (why : Option Str)
      → Same s (step setting (Action.begins service_method args) s)
        × (Same s (step setting (Action.writes e) s)
            × Same s (step setting (Action.delivers why) s))
  unfolding step deliver
  client_step-Same s service_method args e why = (
    elim (Option-cases s.client.sender) [ inl idle ↦ ground arith | inr (n, busy) ↦ ground arith ],
    (
      elim (Option-cases s.client.sender) [
        | inl idle ↦ ground arith
        | inr (n, busy) ↦ ground arith
      ],
      ground arith,
    ),
  )

  append-Counted :
      (js : List Job) (j : Job)
      → All (Counted setting) js
      → Counted setting j
      → All (Counted setting) (js ++ j ∷ [])
  append-Counted [] j cs c = (c, tt)
  append-Counted (i ∷ js) j (h, cs) c = (h, append-Counted js j cs c)

  crash-IsOpenOrOver : (s : Link) → IsOpenOrOver s → IsOpenOrOver (crash s)
  unfolding crash all_returned
  crash-IsOpenOrOver s v = record {
    counted = tt;
    over = λ e. record { stopped = refl; returned = refl };
  }

  serve-IsOpenOrOver :
      (o : Outcome) (s : Link)
      → s.serving ≡ true
      → IsOpenOrOver s
      → IsOpenOrOver (serve setting o s)
  unfolding serve send_responses IsCounted start_handling responses_at
  serve-IsOpenOrOver (respond h e) s on v = record {
    counted = v.counted;
    over = λ c. let was = v.over c in record { stopped = was.stopped; returned = was.returned };
  }
  serve-IsOpenOrOver (crashes h) s on v = crash-IsOpenOrOver s v
  serve-IsOpenOrOver (handle h svc mtype argv) s on v = record {
    counted = append-Counted s.jobs _ v.counted refl;
    over = λ e. let was = v.over e in ground (arith, was.stopped);
  }

  read-IsOpenOrOver : (s : Link) → s.serving ≡ true → IsOpenOrOver s → IsOpenOrOver (read setting s)
  unfolding read
  read-IsOpenOrOver s on v = elim (Option-cases (read_request s.requests setting.server)) [
    | inl none_left ↦
        rw (none_left, read)
          (record {
            counted = v.counted;
            over = λ e. let was = v.over e in record { stopped = refl; returned = was.returned };
          })
    | inr ((o, rest), e) ↦
        rw (e, read)
          (serve-IsOpenOrOver o (record s { requests = rest }) on
            (record {
              counted = v.counted;
              over = λ e.
                  let was = v.over e in record { stopped = was.stopped; returned = was.returned };
            }))
  ]

  read_next-IsOpenOrOver :
      (vs : List Value) (s : Link)
      → s.serving ≡ true
      → IsOpenOrOver s
      → IsOpenOrOver (read_next setting vs s)
  unfolding read_next
  read_next-IsOpenOrOver [] s on v = v
  read_next-IsOpenOrOver (_ ∷ vs) s on v = read-IsOpenOrOver s on v

  pub step-IsOpenOrOver : (a : Action) (s : Link) → IsOpenOrOver s → IsOpenOrOver (step setting a s)
  unfolding step send_responses
  step-IsOpenOrOver (Action.begins m x) s v =
      Same-IsOpenOrOver s _ (client_step-Same s m x none none).0 v
  step-IsOpenOrOver (Action.writes e) s v =
      Same-IsOpenOrOver s _ (client_step-Same s [] [] e none).1.0 v
  step-IsOpenOrOver (Action.delivers why) s v =
      Same-IsOpenOrOver s _ (client_step-Same s [] [] none why).1.1 v
  step-IsOpenOrOver (Action.breaks why) s v =
      Same-IsOpenOrOver s _ (refl, (refl, (refl, (refl, (refl, (refl, refl)))))) v
  step-IsOpenOrOver Action.terminates s v =
      Same-IsOpenOrOver s _ (refl, (refl, (refl, (refl, (refl, (refl, refl)))))) v
  step-IsOpenOrOver Action.closes s v =
      Same-IsOpenOrOver s _ (refl, (refl, (refl, (refl, (refl, (refl, refl)))))) v
  step-IsOpenOrOver (Action.cancels n) s v =
      Same-IsOpenOrOver s _ (refl, (refl, (refl, (refl, (refl, (refl, refl)))))) v
  step-IsOpenOrOver Action.panics s v = crash-IsOpenOrOver s v
  step-IsOpenOrOver Action.cuts s v = record {
    counted = v.counted;
    over = λ e. let was = v.over e in record { stopped = was.stopped; returned = was.returned };
  }
  step-IsOpenOrOver Action.loses s v = record {
    counted = v.counted;
    over = λ e. record { stopped = refl; returned = (v.over e).returned };
  }
  step-IsOpenOrOver (Action.works i a) s v = record {
    counted = work-Counted setting i a s.jobs v.counted;
    over = λ e.
        let was = v.over e in
        record {
          stopped = was.stopped;
          returned = (returned-work setting i a s.jobs v.counted was.returned).0;
        };
  }
  step-IsOpenOrOver Action.finishes s v =
      elim (Bool-cases (not s.crashed && (not s.serving && all_returned s.jobs))) [
        | inl done ↦
            rw (done, step)
              (record {
                counted = v.counted;
                over = λ e. record { stopped = ground arith; returned = ground arith };
              })
        | inr waits ↦ rw (waits, step) v
      ]
  step-IsOpenOrOver Action.reads s v = elim (Bool-cases s.serving) [
    | inr off ↦
        subst IsOpenOrOver (sym (ap (λ b. if b then read_next setting s.requests s else s) off)) v
    | inl on ↦
        subst IsOpenOrOver (sym (ap (λ b. if b then read_next setting s.requests s else s) on))
          (read_next-IsOpenOrOver s.requests s on v)
  ]

  pub run-IsOpenOrOver :
      (actions : List Action) (s : Link) → IsOpenOrOver s → IsOpenOrOver (run setting actions s)
  unfolding run
  run-IsOpenOrOver [] s v = v
  run-IsOpenOrOver (a ∷ actions) s v =
      run-IsOpenOrOver actions (step setting a s) (step-IsOpenOrOver a s v)

  pub start-IsOpenOrOver : IsOpenOrOver start_link
  unfolding start_link
  start-IsOpenOrOver = record { counted = tt; over = λ e. ground arith }
