-- ===== src/GeeRpc/Link/Invariant.antt =====
-- What is on its way between a client and a server, and what the replies are.
use distributed_study.Common.{
  ℕ, ◌<◌, ◌≡◌, Str, lookup, Option, none, some, List, [], ◌∷◌, ◌++◌, nat_key, arith, All,
}
use distributed_study.GeeRpc.Service.{Service, MethodType}
use distributed_study.GeeRpc.Client.{Client}
use distributed_study.GeeRpc.Client.Tracking.{IsTracked, Extends, Fits, Fits-Extends}
use distributed_study.GeeRpc.Server.{found, find_service}
use distributed_study.GeeRpc.Link.{Setting, Job, Response, invoked}
use distributed_study.GeeRpc.Server.Handling.Effects.{carried}

-- The text of a response's error.
abbrev pub text_of : Option Str → Str
text_of none = []
text_of (some e) = e

pub All-maps :
    {A : Type 0} {P Q : A → Type 0} (l : List A) → ((a : A) → P a → Q a) → All P l → All Q l
All-maps [] f h = tt
All-maps (a ∷ l) f (h, hs) = (f a h, All-maps l f hs)

pub All-join : {A : Type 0} (P : A → Type 0) (l m : List A) → All P l → All P m → All P (l ++ m)
All-join P [] m h k = k
All-join P (a ∷ l) m (h, hs) k = (h, All-join P l m hs k)

module _ (setting : Setting) where
  -- The method that the name finds gives the reply for the arguments, and no error, or one without
  -- a text.
  pub record Answers (service_method args b : Str) : Type 0 where
    pub svc : Service
    pub mtype : MethodType
    pub finds : find_service service_method setting.server ≡ found svc mtype
    pub replies : (setting.invoke svc.name mtype.method args).1 ≡ b
    pub succeeds : text_of (setting.invoke svc.name mtype.method args).0 ≡ []

  pub record JobFits (c : Client) (j : Job) : Type 0 where
    pub fits : Fits c j.header.seq j.header.service_method j.argv
    pub finds : find_service j.header.service_method setting.server ≡ found j.svc j.mtype
    pub own_error :
        (e : Option Str) → carried j.handling.worker ≡ some e → e ≡ (invoked setting j).0

  pub record ResponseFits (c : Client) (r : Response) : Type 0 where
    pub given : r.header.seq < c.seq
    pub answers :
        (b : Str) (q : ℕ)
        → r.header.error ≡ []
        → r.body ≡ some b
        → lookup r.header.seq c.pending ≡ some q
        → Answers (c.calls q).service_method (c.calls q).args b

  pub ResponseFits-Extends :
      (c c' : Client) (r : Response)
      → IsTracked c
      → Extends c c'
      → ResponseFits c r
      → ResponseFits c' r
  ResponseFits-Extends c c' r t x f = record {
    given = omega (arith, f.given, x.numbers);
    answers = λ b q ok said e.
        let was = x.pending r.header.seq q f.given e in
        let below = t.made r.header.seq q was in
        rw (x.same_method q below, x.same_args q below) (f.answers b q ok said was);
  }

  pub JobFits-Extends :
      (c c' : Client) (j : Job) → IsTracked c → Extends c c' → JobFits c j → JobFits c' j
  JobFits-Extends c c' j t x f = record {
    fits = Fits-Extends c c' j.header.seq j.header.service_method j.argv t x f.fits;
    finds = f.finds;
    own_error = f.own_error;
  }
