-- ===== src/GeeRpc/Link/Sound.antt =====
-- What holds between a client and a server at any time.
use distributed_study.Common.{
  ℕ, ◌<◌, ◌≡◌, ap, refl, ◌⊎◌, Str, none, some, List, [], ◌∷◌, ◌++◌, nat_key, All,
}
use distributed_study.GeeRpc.Codec.{Header}
use distributed_study.GeeRpc.Service.{MethodType}
use distributed_study.GeeRpc.Client.{Client}
use distributed_study.GeeRpc.Client.Tracking.{IsTracked, Extends, KeepsReplies, Fits, Fits-Extends}
use distributed_study.GeeRpc.Server.{
  Value, decoded, Outcome, handle, respond, crashes, found, find_service,
}
use distributed_study.GeeRpc.Link.{Setting, Link}
use distributed_study.GeeRpc.Link.Invariant.{
  Answers, JobFits, ResponseFits, ResponseFits-Extends, JobFits-Extends, All-maps,
}

-- The values of requests that are written one behind the other.
unfoldable pub stream : Setting → List (Header × Str) → List Value
stream setting [] = []
stream setting ((h, a) ∷ qs) = setting.header_value h ∷ setting.argument a ∷ stream setting qs

pub stream-append :
    (setting : Setting) (qs : List (Header × Str)) (h : Header) (a : Str)
    → stream setting (qs ++ (h, a) ∷ [])
      ≡ stream setting qs ++ setting.header_value h ∷ setting.argument a ∷ []
unfolding stream
stream-append setting [] h a = refl
stream-append setting ((g, b) ∷ qs) h a =
    ap (λ l. setting.header_value g ∷ setting.argument b ∷ l) (stream-append setting qs h a)

-- What the encoder writes is read as it was: a header as that header, an argument as no header and,
-- where it can be decoded, as that argument.
pub record IsEncoder (setting : Setting) : Type 0 where
  pub reads_header : (h : Header) → (setting.header_value h).as_header ≡ some h
  pub no_header : (a : Str) → (setting.argument a).as_header ≡ none
  pub reads_argv : (a x : Str) (m : MethodType) → (setting.argument a).as_argv m ≡ decoded x → x ≡ a

module _ (setting : Setting) where
  unfoldable pub RequestFits : Client → Header × Str → Type 0
  RequestFits c (h, a) = Fits c h.seq h.service_method a

  -- The requests on their way, behind an argument that was left.
  pub record HasRequests (c : Client) (values : List Value) : Type 0 where
    pub queue : List (Header × Str)
    pub fit : All (RequestFits c) queue
    pub shape :
        (values ≡ stream setting queue)
        ⊎ ((a : Str) × (values ≡ setting.argument a ∷ stream setting queue))

  pub record IsSound (s : Link) : Type 0 where
    pub tracked : IsTracked s.client
    pub sending :
        (n : ℕ)
        → s.client.sender ≡ some n
        → Fits s.client s.client.header.seq s.client.header.service_method s.writing
    pub requests : HasRequests s.client s.requests
    pub jobs : All (JobFits setting s.client) s.jobs
    pub responses : All (ResponseFits setting s.client) s.responses
    pub replies :
        (r : ℕ) (b : Str)
        → r < s.client.next_call
        → (s.client.calls r).reply ≡ some b
        → Answers setting (s.client.calls r).service_method (s.client.calls r).args b

  -- What the loop does with a request is for the request.
  unfoldable pub OutcomeFits : Client → Outcome → Type 0
  OutcomeFits c (respond h e) = h.seq < c.seq
  OutcomeFits c (crashes h) = Unit {0}
  OutcomeFits c (handle h svc mtype argv) =
      Fits c h.seq h.service_method argv
      × (find_service h.service_method setting.server ≡ found svc mtype)

  HasRequests-Extends :
      (c c' : Client) (values : List Value)
      → IsTracked c
      → Extends c c'
      → HasRequests c values
      → HasRequests c' values
  unfolding RequestFits
  HasRequests-Extends c c' values t x q = record {
    queue = q.queue;
    fit = All-maps q.queue (λ p. Fits-Extends c c' p.0.seq p.0.service_method p.1 t x) q.fit;
    shape = q.shape;
  }

  -- What is on its way is for the calls that there were, and a reply is an answer as before.
  pub record IsCarried (c : Client) (s : Link) : Type 0 where
    pub requests : HasRequests c s.requests
    pub jobs : All (JobFits setting c) s.jobs
    pub responses : All (ResponseFits setting c) s.responses

  pub carries : (s : Link) (c : Client) → IsSound s → Extends s.client c → IsCarried c s
  carries s c v x = record {
    requests = HasRequests-Extends s.client c s.requests v.tracked x v.requests;
    jobs = All-maps s.jobs (λ j. JobFits-Extends setting s.client c j v.tracked x) v.jobs;
    responses =
        All-maps s.responses (λ r. ResponseFits-Extends setting s.client c r v.tracked x)
          v.responses;
  }

  pub keeps_answers :
      (s : Link) (c : Client)
      → IsSound s
      → Extends s.client c
      → KeepsReplies s.client c
      → (r : ℕ) (b : Str) → r < c.next_call
      → (c.calls r).reply ≡ some b
      → Answers setting (c.calls r).service_method (c.calls r).args b
  keeps_answers s c v x keeps r b lt e =
      let (below, had) = keeps r b lt e in
      rw (x.same_method r below, x.same_args r below) (v.replies r b below had)
