-- ===== src/GeeRpc/Link/Reading.antt =====
-- What the server reads of the requests on their way.
use distributed_study.Common.{
  ◌≡◌, refl, sym, Str, Option, none, some, List, [], ◌∷◌, nat_key, All, Option-cases, inl, inr,
}
use mathlib.Core.Path.{subst}
use distributed_study.GeeRpc.Codec.{Header}
use distributed_study.GeeRpc.Service.{Service, MethodType}
use distributed_study.GeeRpc.Service.Values.{make_values}
use distributed_study.GeeRpc.Client.{Client}
use distributed_study.GeeRpc.Client.Tracking.{Fits}
use distributed_study.GeeRpc.Server.{
  Value, Argv, decoded, undecoded, Outcome, found, find_service, decode_argv, read_argv,
  read_request,
}
use distributed_study.GeeRpc.Server.Requests.{
  Found-cases, read_request-found, read_request-failed, read_request-none,
}
use distributed_study.GeeRpc.Link.{Setting, Link, read}
use distributed_study.GeeRpc.Link.Sound.{
  stream, IsEncoder, RequestFits, OutcomeFits, HasRequests, IsSound,
}
use distributed_study.GeeRpc.Link.Moving.{serves-IsSound}

module _ (setting : Setting) where
  -- What a round reads of the requests, and what it leaves.
  Taken : Client → Option (Outcome × List Value) → Type 0
  Taken c none = Unit {0}
  Taken c (some (o, rest)) = OutcomeFits setting c o × HasRequests setting c rest

  module _ (encoder : IsEncoder setting) where
    decode-Taken :
        (c : Client) (h : Header) (a : Str) (svc : Service) (mtype : MethodType)
        (qs : List (Header × Str)) (argv : Argv)
        → (setting.argument a).as_argv mtype ≡ argv
        → Fits c h.seq h.service_method a
        → find_service h.service_method setting.server ≡ found svc mtype
        → All (RequestFits setting c) qs
        → Taken c (some (decode_argv h svc mtype (setting.argument a ∷ stream setting qs)))
    unfolding decode_argv Taken OutcomeFits
    decode-Taken c h a svc mtype qs (undecoded why) e f finds fs =
        rw e (f.given, record { queue = qs; fit = fs; shape = inl refl })
    decode-Taken c h a svc mtype qs (decoded x) e f finds fs = rw e (
      (subst (Fits c h.seq h.service_method) (sym (encoder.reads_argv a x mtype e)) f, finds),
      record { queue = qs; fit = fs; shape = inl refl },
    )

    argv-Taken :
        (c : Client) (h : Header) (a : Str) (svc : Service) (mtype : MethodType)
        (qs : List (Header × Str))
        → Fits c h.seq h.service_method a
        → find_service h.service_method setting.server ≡ found svc mtype
        → All (RequestFits setting c) qs
        → Taken c (some (read_argv h svc mtype (setting.argument a ∷ stream setting qs)))
    unfolding read_argv Taken OutcomeFits
    argv-Taken c h a svc mtype qs f finds fs = elim (Option-cases (make_values mtype.method)) [
      | inl none_made ↦
          rw (none_made, read_argv) (tt, record { queue = qs; fit = fs; shape = inr (a, refl) })
      | inr (made, e) ↦ rw (e, read_argv) (decode-Taken c h a svc mtype qs _ refl f finds fs)
    ]

    stream-Taken :
        (c : Client) (qs : List (Header × Str))
        → All (RequestFits setting c) qs
        → Taken c (read_request (stream setting qs) setting.server)
    unfolding stream RequestFits Taken read_request OutcomeFits
    stream-Taken c [] fs = tt
    stream-Taken c ((h, a) ∷ qs) (f, fs) =
        let v = setting.header_value h in
        let rest = setting.argument a ∷ stream setting qs in
        elim (Found-cases (find_service h.service_method setting.server)) [
          | inl (svc, (mtype, e)) ↦
              subst (Taken c)
                (sym
                  (read_request-found v rest setting.server h svc mtype (encoder.reads_header h) e))
                (argv-Taken c h a svc mtype qs f e fs)
          | inr (why, e) ↦
              subst (Taken c)
                (sym (read_request-failed v rest setting.server h why (encoder.reads_header h) e))
                (f.given, record { queue = qs; fit = fs; shape = inr (a, refl) })
        ]

    requests-Taken :
        (c : Client) (values : List Value)
        → HasRequests setting c values
        → Taken c (read_request values setting.server)
    unfolding Taken
    requests-Taken c values q = elim q.shape [
      | inl e ↦ rw e (stream-Taken c q.queue q.fit)
      | inr (a, e) ↦ rw e (
          subst (Taken c)
            (sym (
              read_request-none (setting.argument a) (stream setting q.queue) setting.server
                (encoder.no_header a)))
            tt)
    ]

    pub read-IsSound : (s : Link) → IsSound setting s → IsSound setting (read setting s)
    unfolding read Taken
    read-IsSound s v = elim (Option-cases (read_request s.requests setting.server)) [
      | inl over ↦
          rw (over, read)
            (record {
              tracked = v.tracked;
              sending = v.sending;
              requests = v.requests;
              jobs = v.jobs;
              responses = v.responses;
              replies = v.replies;
            })
      | inr ((o, rest), e) ↦
          let (fits, left) =
            subst (Taken s.client) e (requests-Taken s.client s.requests v.requests) in
          rw (e, read)
            (serves-IsSound setting o (record s { requests = rest })
              (record {
                tracked = v.tracked;
                sending = v.sending;
                requests = left;
                jobs = v.jobs;
                responses = v.responses;
                replies = v.replies;
              })
              fits)
    ]
