-- ===== src/GeeRpc/Link/Replies.antt =====
-- Every reply that a call has is the method's own.
use distributed_study.Common.{
  ℕ, ◌+◌, ◌^◌, ◌≤◌, ◌<◌, ◌≡◌, ◌∙◌, ap, refl, sym, Str, lookup, some, List, [], ◌∷◌, not, ◌&&◌,
  nat_key, arith, length, Option-cases, Bool-cases, inl, inr, if◌then◌else◌,
}
use mathlib.Core.Path.{subst}
use distributed_study.GeeRpc.Client
use distributed_study.GeeRpc.Client.{
  Client, new_client_codec, Receiver, receiving, failed, ended, body,
}
use distributed_study.GeeRpc.Client.Tracking.{begin_send-Goes, end_send-Goes}
use distributed_study.GeeRpc.Client.Tracking.Receiving.{receive_one-Goes, aside-Rests}
use distributed_study.GeeRpc.Server.{Value, Outcome, handle, respond, crashes, read_request}
use distributed_study.GeeRpc.Link.{
  crash, Setting, Response, Link, Action, start_link, send_responses, read_reply, serve, read,
  all_returned, read_next, deliver, step, run,
}
use distributed_study.GeeRpc.Link.Invariant.{Answers}
use distributed_study.GeeRpc.Link.Sound.{stream, IsEncoder, IsSound}
use distributed_study.GeeRpc.Link.Moving.{
  client-IsSound, crash-IsSound, begins-IsSound, writes-IsSound, works-IsSound, deliver-IsSound,
}
use distributed_study.GeeRpc.Link.Reading.{read-IsSound}

module _ (setting : Setting) (encoder : IsEncoder setting) where
  read_next-IsSound :
      (values : List Value) (s : Link)
      → IsSound setting s
      → IsSound setting (read_next setting values s)
  unfolding read_next
  read_next-IsSound [] s v = v
  read_next-IsSound (_ ∷ values) s v = read-IsSound setting encoder s v

  step-IsSound :
      (a : Action) (s : Link)
      → IsSound setting s
      → s.client.seq + 1 < 2 ^ 64
      → IsSound setting (step setting a s)
  unfolding step
  step-IsSound (Action.begins m x) s v h = elim (Option-cases s.client.sender) [
    | inl idle ↦ rw (idle, step) (begins-IsSound setting s m x v h idle)
    | inr (n, busy) ↦ rw (busy, step) v
  ]
  step-IsSound (Action.writes e) s v h = elim (Option-cases s.client.sender) [
    | inl idle ↦ rw (idle, step) v
    | inr (n, busy) ↦ writes-IsSound setting s e n v busy
  ]
  step-IsSound (Action.delivers why) s v h = go s.client.receiver
    where
      go :
          (rc : Receiver)
          → IsSound setting (elim rc [ receiving ↦ deliver setting why s.responses s | _ ↦ s ])
      go receiving = deliver-IsSound setting why s.responses s refl v
      go (failed w) = v
      go ended = v
  step-IsSound (Action.breaks why) s v h =
      client-IsSound setting s _ v (aside-Rests (Client.breaks why) s.client tt v.tracked)
  step-IsSound Action.terminates s v h =
      client-IsSound setting s _ v (aside-Rests Client.terminates s.client tt v.tracked)
  step-IsSound Action.closes s v h =
      client-IsSound setting s _ v (aside-Rests Client.closes s.client tt v.tracked)
  step-IsSound (Action.cancels n) s v h =
      client-IsSound setting s _ v (aside-Rests (Client.cancels n) s.client tt v.tracked)
  step-IsSound Action.reads s v h = elim (Bool-cases s.serving) [
    | inr off ↦
        subst (IsSound setting)
          (sym (ap (λ b. if b then read_next setting s.requests s else s) off)) v
    | inl on ↦
        subst (IsSound setting) (sym (ap (λ b. if b then read_next setting s.requests s else s) on))
          (read_next-IsSound s.requests s v)
  ]
  step-IsSound Action.panics s v h = crash-IsSound setting s v
  step-IsSound Action.cuts s v h = record {
    tracked = v.tracked;
    sending = v.sending;
    requests = v.requests;
    jobs = v.jobs;
    responses = v.responses;
    replies = v.replies;
  }
  step-IsSound Action.loses s v h = record {
    tracked = v.tracked;
    sending = v.sending;
    requests = v.requests;
    jobs = v.jobs;
    responses = v.responses;
    replies = v.replies;
  }
  step-IsSound (Action.works i a) s v h = works-IsSound setting s i a v
  step-IsSound Action.finishes s v h =
      elim (Bool-cases (not s.crashed && (not s.serving && all_returned s.jobs))) [
        | inr waits ↦ rw (waits, step) v
        | inl done ↦
            rw (done, step)
              (record {
                tracked = v.tracked;
                sending = v.sending;
                requests = v.requests;
                jobs = v.jobs;
                responses = v.responses;
                replies = v.replies;
              })
      ]

  serve-client : (o : Outcome) (s : Link) → (serve setting o s).client ≡ s.client
  unfolding serve send_responses crash
  serve-client (respond h e) s = refl
  serve-client (crashes h) s = refl
  serve-client (handle h svc mtype argv) s = refl

  read_next-client :
      (values : List Value) (s : Link) → (read_next setting values s).client ≡ s.client
  unfolding read_next read
  read_next-client [] s = refl
  read_next-client (_ ∷ values) s = elim (Option-cases (read_request s.requests setting.server)) [
    | inl over ↦ rw (over, read) refl
    | inr ((o, rest), e) ↦ rw (e, read) (serve-client o (record s { requests = rest }))
  ]

  reads-client : (s : Link) → (step setting Action.reads s).client ≡ s.client
  unfolding step
  reads-client s = elim (Bool-cases s.serving) [
    | inr off ↦ ap (λ b. (if b then read_next setting s.requests s else s).client) off
    | inl on ↦
        ap (λ b. (if b then read_next setting s.requests s else s).client) on
        ∙ read_next-client s.requests s
  ]

  step_counts :
      (a : Action) (s : Link)
      → IsSound setting s
      → s.client.seq + 1 < 2 ^ 64
      → (step setting a s).client.seq ≤ s.client.seq + 1
  unfolding step deliver send_responses crash
  step_counts (Action.begins m x) s v h = elim (Option-cases s.client.sender) [
    | inl idle ↦ rw (idle, step) (begin_send-Goes m x s.client v.tracked h).counts
    | inr (n, busy) ↦ rw (busy, step) (omega arith)
  ]
  step_counts (Action.writes e) s v h = elim (Option-cases s.client.sender) [
    | inl idle ↦ rw (idle, step) (omega arith)
    | inr (n, busy) ↦ rw (busy, step) (end_send-Goes e n s.client v.tracked).counts
  ]
  step_counts (Action.delivers why) s v h = go s.client.receiver s.responses
    where
      go :
          (rc : Receiver) (rs : List Response)
          → (elim rc as (λ _. Link) [ receiving ↦ deliver setting why rs s | _ ↦ s ]).client.seq
            ≤ s.client.seq + 1
      go receiving [] = omega arith
      go receiving (r ∷ rest) =
          (receive_one-Goes r.header (read_reply why r.header.error r.body) s.client
            v.tracked).counts
      go (failed w) rs = omega arith
      go ended rs = omega arith
  step_counts (Action.breaks why) s v h =
      (aside-Rests (Client.breaks why) s.client tt v.tracked).goes.counts
  step_counts Action.terminates s v h =
      (aside-Rests Client.terminates s.client tt v.tracked).goes.counts
  step_counts Action.closes s v h = (aside-Rests Client.closes s.client tt v.tracked).goes.counts
  step_counts (Action.cancels n) s v h =
      (aside-Rests (Client.cancels n) s.client tt v.tracked).goes.counts
  step_counts Action.reads s v h = omega (arith, ap (λ c. c.seq) (reads-client s))
  step_counts Action.loses s v h = omega arith
  step_counts Action.cuts s v h = omega arith
  step_counts Action.panics s v h = omega arith
  step_counts (Action.works i a) s v h = omega arith
  step_counts Action.finishes s v h = ground arith

  run-IsSound :
      (actions : List Action) (s : Link)
      → IsSound setting s
      → s.client.seq + length actions < 2 ^ 64
      → IsSound setting (run setting actions s)
  unfolding run
  run-IsSound [] s v h = v
  run-IsSound (a ∷ actions) s v h =
      let less = step_counts a s v (omega arith) in
      run-IsSound actions (step setting a s) (step-IsSound a s v (omega arith)) (omega arith)

  start-IsSound : IsSound setting start_link
  unfolding start_link new_client_codec stream lookup
  start-IsSound = record {
    tracked = record { numbered = λ n r e. ground arith; made = λ n r e. ground arith };
    sending = λ n e. ground arith;
    requests = record { queue = []; fit = tt; shape = inl refl };
    jobs = tt;
    responses = tt;
    replies = λ r b lt e. ground arith;
  }

  -- Whatever the client, the server, its goroutines and the connection do, in any order, a call
  -- that has a reply has the one that the method gives for the call's arguments, of the service
  -- that the server finds for the call's name, and the method has no error, or one without a
  -- text, as long as there are fewer actions than numbers of a uint64 and the encoding can be
  -- read back.
  pub run_replies :
      (actions : List Action) (r : ℕ) (b : Str)
      → length actions + 1 < 2 ^ 64
      → r < (run setting actions start_link).client.next_call
      → ((run setting actions start_link).client.calls r).reply ≡ some b
      → Answers setting
          ((run setting actions start_link).client.calls r).service_method
          ((run setting actions start_link).client.calls r).args
          b
  run_replies actions r b h lt e =
      let v =
        run-IsSound actions start_link start-IsSound
          (unfold start_link new_client_codec in omega arith) in
      v.replies r b lt e
