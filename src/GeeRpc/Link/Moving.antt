-- ===== src/GeeRpc/Link/Moving.antt =====
-- The steps of the client and of the server's goroutines.
use distributed_study.Common.{
  ℕ, ◌+◌, ◌^◌, ◌<◌, ◌≡◌, ◌∙◌, ap, sym, Str, Option, none, some, List, [], ◌∷◌, ◌++◌, nat_key, arith,
  Bool, true, false, All, inl, inr,
}
use mathlib.Core.Path.{subst}
use distributed_study.GeeRpc.Codec.{Header}
use distributed_study.GeeRpc.Client
use distributed_study.GeeRpc.Client.{
  Client, new_client_codec, Receiver, receiving, failed, ended, body,
}
use distributed_study.GeeRpc.Client.Tracking.{
  Fits, Fits-Extends, begin_send-Goes, begin_send-KeepsReplies, begin_send-Fits, end_send-Goes,
  end_send-KeepsReplies, end_send-idle,
}
use distributed_study.GeeRpc.Client.Tracking.Receiving.{
  Rests, receive_one-Goes, receive_one_replies, receive_one-Holds, receive_one_calls,
}
use distributed_study.GeeRpc.Server.{Value, Outcome, handle, respond, crashes}
use distributed_study.GeeRpc.Server.Handling
use distributed_study.GeeRpc.Server.Handling.{start_handling}
use distributed_study.GeeRpc.Link.{
  Setting, Response, Link, Action, put, crash, send_responses, read_reply, serve, deliver, step,
}
use distributed_study.GeeRpc.Link.Invariant.{JobFits, ResponseFits, All-join}
use distributed_study.GeeRpc.Link.Working.{work-Fits}
use distributed_study.GeeRpc.Link.Sound.{
  stream-append, RequestFits, OutcomeFits, HasRequests, IsSound, carries, keeps_answers,
}

module _ (setting : Setting) where
  -- A step of the client alone, which neither sends nor receives.
  pub client-IsSound :
      (s : Link) (c : Client)
      → IsSound setting s
      → Rests s.client c
      → IsSound setting (record s { client = c })
  client-IsSound s c v x =
      let on_way = carries setting s c v x.goes.extends in
      record {
        tracked = x.goes.tracked;
        sending = λ n e.
            subst (λ h. Fits c h.seq h.service_method s.writing) (sym x.holds.0)
              (Fits-Extends s.client c s.client.header.seq s.client.header.service_method s.writing
                v.tracked x.goes.extends (v.sending n (sym x.holds.1 ∙ e)));
        requests = on_way.requests;
        jobs = on_way.jobs;
        responses = on_way.responses;
        replies = keeps_answers setting s c v x.goes.extends x.replies;
      }

  pub begins-IsSound :
      (s : Link) (service_method args : Str)
      → IsSound setting s
      → s.client.seq + 1 < 2 ^ 64
      → s.client.sender ≡ none
      → IsSound setting
          (record s { client = Client.begin_send service_method args s.client; writing = args })
  begins-IsSound s service_method args v h idle =
      let c = Client.begin_send service_method args s.client in
      let goes = begin_send-Goes service_method args s.client v.tracked h in
      let on_way = carries setting s c v goes.extends in
      record {
        tracked = goes.tracked;
        sending = λ n e. begin_send-Fits service_method args s.client n h idle e;
        requests = on_way.requests;
        jobs = on_way.jobs;
        responses = on_way.responses;
        replies =
            keeps_answers setting s c v goes.extends
              (begin_send-KeepsReplies service_method args s.client);
      }

  push-HasRequests :
      (c : Client) (values : List Value) (h : Header) (a : Str)
      → HasRequests setting c values
      → Fits c h.seq h.service_method a
      → HasRequests setting c (values ++ setting.header_value h ∷ setting.argument a ∷ [])
  unfolding RequestFits
  push-HasRequests c values h a q f = record {
    queue = q.queue ++ (h, a) ∷ [];
    fit = All-join (RequestFits setting c) q.queue ((h, a) ∷ []) q.fit (f, tt);
    shape = elim q.shape [
      | inl e ↦ inl (rw e (sym (stream-append setting q.queue h a)))
      | inr (b, e) ↦
          inr (b, rw e (ap (λ l. setting.argument b ∷ l) (sym (stream-append setting q.queue h a))))
    ];
  }

  pub writes-IsSound :
      (s : Link) (e : Option Client.Error) (n : ℕ)
      → IsSound setting s
      → s.client.sender ≡ some n
      → IsSound setting (step setting (Action.writes e) s)
  unfolding step
  writes-IsSound s e n v busy =
      let c = Client.end_send e n s.client in
      let goes = end_send-Goes e n s.client v.tracked in
      let on_way = carries setting s c v goes.extends in
      let idle = end_send-idle e n s.client in
      let sent =
        Fits-Extends s.client c s.client.header.seq s.client.header.service_method s.writing
          v.tracked goes.extends (v.sending n busy) in
      rw (busy, step)
        (record {
          tracked = goes.tracked;
          sending = λ m p. ground arith;
          requests = written e on_way.requests sent;
          jobs = on_way.jobs;
          responses = on_way.responses;
          replies = keeps_answers setting s c v goes.extends (end_send-KeepsReplies e n s.client);
        })
    where
      written :
          {c : Client} (e : Option Client.Error)
          → HasRequests setting c s.requests
          → Fits c s.client.header.seq s.client.header.service_method s.writing
          → HasRequests setting c (elim e [
            | none ↦
                s.requests ++ setting.header_value s.client.header ∷ setting.argument s.writing ∷ []
            | some why ↦ s.requests
          ])
      written {c} none q f = push-HasRequests c s.requests s.client.header s.writing q f
      written (some why) q f = q

  put-Fits :
      (c : Client) (b : Bool) (rs : List Response)
      → All (ResponseFits setting c) rs
      → All (ResponseFits setting c) (put b rs)
  unfolding put
  put-Fits c true rs f = tt
  put-Fits c false rs f = f

  pub crash-IsSound : (s : Link) → IsSound setting s → IsSound setting (crash s)
  unfolding crash
  crash-IsSound s v = record {
    tracked = v.tracked;
    sending = v.sending;
    requests = v.requests;
    jobs = tt;
    responses = v.responses;
    replies = v.replies;
  }

  pub serves-IsSound :
      (o : Outcome) (s : Link)
      → IsSound setting s
      → OutcomeFits setting s.client o
      → IsSound setting (serve setting o s)
  unfolding serve send_responses OutcomeFits start_handling
  serves-IsSound (respond h e) s v f = record {
    tracked = v.tracked;
    sending = v.sending;
    requests = v.requests;
    jobs = v.jobs;
    responses = All-join (ResponseFits setting s.client) s.responses _ v.responses (
        put-Fits s.client s.cut _
          (record { given = f; answers = λ b q ok said p. ground arith }, tt));
    replies = v.replies;
  }
  serves-IsSound (crashes h) s v f = crash-IsSound s v
  serves-IsSound (handle h svc mtype argv) s v f = record {
    tracked = v.tracked;
    sending = v.sending;
    requests = v.requests;
    jobs =
        All-join (JobFits setting s.client) s.jobs _ v.jobs
          (record { fits = f.0; finds = f.1; own_error = λ e p. ground arith }, tt);
    responses = v.responses;
    replies = v.replies;
  }

  pub works-IsSound :
      (s : Link) (i : ℕ) (a : Handling.Action)
      → IsSound setting s
      → IsSound setting (step setting (Action.works i a) s)
  unfolding step send_responses
  works-IsSound s i a v =
      let (jobs, responses) = work-Fits setting s.client i a s.jobs v.jobs in
      record {
        tracked = v.tracked;
        sending = v.sending;
        requests = v.requests;
        jobs = jobs;
        responses =
            All-join (ResponseFits setting s.client) s.responses _ v.responses
              (put-Fits s.client s.cut _ responses);
        replies = v.replies;
      }

  read_reply-body :
      (why : Option Str) (e : Str) (b : Option Str) (x : Str)
      → e ≡ []
      → read_reply why e b ≡ body x
      → b ≡ some x
  unfolding read_reply
  read_reply-body (some w) e b x ok said = ground arith
  read_reply-body none e (some y) x ok said = ground arith
  read_reply-body none [] none x ok said = ground arith
  read_reply-body none (y ∷ e) none x ok said = ground arith

  pub deliver-IsSound :
      (why : Option Str) (rs : List Response) (s : Link)
      → s.responses ≡ rs
      → IsSound setting s
      → IsSound setting (deliver setting why rs s)
  unfolding deliver
  deliver-IsSound why [] s e v = v
  deliver-IsSound why (r ∷ rest) s e v =
      let reply = read_reply why r.header.error r.body in
      let c = Client.receive_one r.header reply s.client in
      let goes = receive_one-Goes r.header reply s.client v.tracked in
      let holds = receive_one-Holds r.header reply s.client in
      let on_way = carries setting s c v goes.extends in
      let here : All (ResponseFits setting s.client) (r ∷ rest) =
        subst (All (ResponseFits setting s.client)) e v.responses in
      let left : All (ResponseFits setting c) (r ∷ rest) =
        subst (All (ResponseFits setting c)) e on_way.responses in
      record {
        tracked = goes.tracked;
        sending = λ n p.
            subst (λ h. Fits c h.seq h.service_method s.writing) (sym holds.0)
              (Fits-Extends s.client c s.client.header.seq s.client.header.service_method s.writing
                v.tracked goes.extends (v.sending n (sym holds.1 ∙ p)));
        requests = on_way.requests;
        jobs = on_way.jobs;
        responses = left.1;
        replies = λ q b lt p. elim (receive_one_replies r.header reply s.client q b p) [
          | inl had ↦
              let below : q < s.client.next_call =
                omega (arith, lt, receive_one_calls r.header reply s.client) in
              rw (goes.extends.same_method q below, goes.extends.same_args q below)
                (v.replies q b below had)
          | inr (pending, (ok, said)) ↦
              let below = v.tracked.made r.header.seq q pending in
              rw (goes.extends.same_method q below, goes.extends.same_args q below)
                (here.0.answers b q ok (read_reply-body why r.header.error r.body b ok said)
                  pending)
        ];
      }
