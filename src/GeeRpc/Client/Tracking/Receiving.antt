-- ===== src/GeeRpc/Client/Tracking/Receiving.antt =====
-- What the receiver, and the steps that neither send nor receive, keep of a client's calls.
use distributed_study.Common.{
  ℕ, ◌≡◌, ◌∙◌, refl, sym, ◌⊎◌, Str, Dict, lookup, lookup-erase, Option, none, some, [], ◌∷◌, true,
  ◌==◌, nat_key, str_key, str_beq, str_beq_iff, ◌&&◌, arith, Bool-cases, Option-cases, inl, inr,
}
use mathlib.Core.Path.{subst}
use distributed_study.GeeRpc.Codec.{Header}
use distributed_study.GeeRpc.Client.{
  Error, transport, Client, Body, body, broken, Receiver, receiving, failed, ended, done, set_error,
  set_reply, remove_call, fail_all, terminate_calls, receive_one, deliver, close, step, Action,
  begins, writes, receives, breaks, terminates, closes, cancels,
}
use distributed_study.GeeRpc.Client.Tracking.{IsTracked, KeepsReplies, Goes, Goes-refl, keeps-Goes}

pub receive_one-Goes :
    (h : Header) (b : Body) (c : Client) → IsTracked c → Goes c (receive_one h b c)
unfolding receive_one deliver remove_call done set_error set_reply
receive_one-Goes h b c t = go b (Option-cases (lookup h.seq c.pending))
  where
    go :
        (b : Body)
        → ((lookup h.seq c.pending ≡ none) ⊎ ((q : ℕ) × (lookup h.seq c.pending ≡ some q)))
        → Goes c (receive_one h b c)
    go (body x) (inl absent) =
        keeps-Goes c _ t (ground arith) (ground arith)
          (λ m r e. ground (arith, lookup-erase h.seq m c.pending)) (λ r. ground arith)
          (λ r. ground arith)
    go (broken why) (inl absent) =
        keeps-Goes c _ t (ground arith) (ground arith)
          (λ m r e. ground (arith, lookup-erase h.seq m c.pending)) (λ r. ground arith)
          (λ r. ground arith)
    go (body x) (inr (q, found)) =
        keeps-Goes c _ t (ground arith) (ground arith)
          (λ m r e. ground (arith, lookup-erase h.seq m c.pending)) (λ r. ground arith)
          (λ r. ground arith)
    go (broken why) (inr (q, found)) =
        keeps-Goes c _ t (ground arith) (ground arith)
          (λ m r e. ground (arith, lookup-erase h.seq m c.pending)) (λ r. ground arith)
          (λ r. ground arith)

pub receive_one_calls :
    (h : Header) (b : Body) (c : Client) → (receive_one h b c).next_call ≡ c.next_call
unfolding receive_one deliver remove_call done set_error set_reply
receive_one_calls h (body x) c = elim (Option-cases (lookup h.seq c.pending)) [
  | inl absent ↦ ground arith
  | inr (q, found) ↦ ground arith
]
receive_one_calls h (broken why) c = elim (Option-cases (lookup h.seq c.pending)) [
  | inl absent ↦ ground arith
  | inr (q, found) ↦ ground arith
]

-- Whatever has a reply after a response had it before, or is the call of the number, and the
-- response has no error and this body.
pub receive_one_replies :
    (h : Header) (b : Body) (c : Client) (r : ℕ) (x : Str)
    → ((receive_one h b c).calls r).reply ≡ some x
    → ((c.calls r).reply ≡ some x)
      ⊎ ((lookup h.seq c.pending ≡ some r) × ((h.error ≡ []) × (b ≡ body x)))
unfolding receive_one deliver remove_call done set_error set_reply
receive_one_replies h b c r x e = go b refl (Option-cases (lookup h.seq c.pending))
  where
    go :
        (b' : Body)
        → b ≡ b'
        → ((lookup h.seq c.pending ≡ none) ⊎ ((q : ℕ) × (lookup h.seq c.pending ≡ some q)))
        → ((c.calls r).reply ≡ some x)
          ⊎ ((lookup h.seq c.pending ≡ some r) × ((h.error ≡ []) × (b ≡ body x)))
    go (body y) same (inl absent) = inl (ground arith)
    go (broken why) same (inl absent) = inl (ground arith)
    go (broken why) same (inr (q, found)) = inl (ground arith)
    go (body y) same (inr (q, found)) = elim (Bool-cases ((q == r) && str_beq h.error [])) [
      | inl it ↦ inr (ground arith, (ground (arith, str_beq_iff h.error []), ground arith))
      | inr other ↦ inl (ground arith)
    ]

-- What `send` holds on to.
abbrev pub Holds : Client → Client → Type 0
Holds c c' = (c'.header ≡ c.header) × (c'.sender ≡ c.sender)

pub receive_one-Holds : (h : Header) (b : Body) (c : Client) → Holds c (receive_one h b c)
unfolding receive_one deliver remove_call done set_error set_reply
receive_one-Holds h (body x) c = elim (Option-cases (lookup h.seq c.pending)) [
  | inl absent ↦ ground arith
  | inr (q, found) ↦ ground arith
]
receive_one-Holds h (broken why) c = elim (Option-cases (lookup h.seq c.pending)) [
  | inl absent ↦ ground arith
  | inr (q, found) ↦ ground arith
]

-- A step that moves no call on but to an error.
pub record Rests (c c' : Client) : Type 0 where
  pub goes : Goes c c'
  pub replies : KeepsReplies c c'
  pub holds : Holds c c'

Rests-refl : (c : Client) → IsTracked c → Rests c c
Rests-refl c t = record {
  goes = Goes-refl c t;
  replies = λ r b lt e. (lt, e);
  holds = (refl, refl);
}

fail_all-Rests : (e : Error) (m : Dict ℕ ℕ) (c : Client) → IsTracked c → Rests c (fail_all e m c)
unfolding fail_all done set_error
fail_all-Rests e [] c t = Rests-refl c t
fail_all-Rests e ((n, q) ∷ m) c t =
    let c1 = done q (set_error q e c) in
    let first = keeps-Goes c c1 t refl refl (λ k r p. p) (λ r. ground arith) (λ r. ground arith) in
    let rest = fail_all-Rests e m c1 first.tracked in
    record {
      goes = record {
        tracked = rest.goes.tracked;
        extends = record {
          numbers = rest.goes.extends.numbers;
          calls_made = rest.goes.extends.calls_made;
          pending = rest.goes.extends.pending;
          same_method = λ r lt. rest.goes.extends.same_method r lt ∙ ground arith;
          same_args = λ r lt. rest.goes.extends.same_args r lt ∙ ground arith;
        };
        counts = rest.goes.counts;
      };
      replies = λ r b lt p. let (below, had) = rest.replies r b lt p in (below, ground arith);
      holds = rest.holds;
    }

-- The actions of a client that neither send nor receive.
abbrev pub IsAside : Action → Type 0
IsAside (breaks why) = Unit {0}
IsAside terminates = Unit {0}
IsAside closes = Unit {0}
IsAside (cancels n) = Unit {0}
IsAside _ = ⊥

step-Rests : (a : Action) (c c' : Client) → step a c ≡ c' → Rests c c' → Rests c (step a c)
step-Rests a c c' e rests = subst (Rests c) (sym e) rests

pub aside-Rests : (a : Action) (c : Client) → IsAside a → IsTracked c → Rests c (step a c)
unfolding step close remove_call terminate_calls
aside-Rests (begins m x) c aside t = absurd aside
aside-Rests (writes e) c aside t = absurd aside
aside-Rests (receives h b) c aside t = absurd aside
aside-Rests (cancels n) c aside t = record {
  goes =
      keeps-Goes c _ t refl refl (λ m r e. ground (arith, lookup-erase n m c.pending)) (λ r. refl)
        (λ r. refl);
  replies = λ r b lt e. (lt, e);
  holds = (refl, refl);
}
aside-Rests closes c aside t = elim (Bool-cases c.closing) [
  | inl shut ↦ step-Rests closes c c (ground arith) (Rests-refl c t)
  | inr free ↦
      step-Rests closes c (record c { closing = true }) (ground arith)
        (record {
          goes = keeps-Goes c _ t refl refl (λ m r e. e) (λ r. refl) (λ r. refl);
          replies = λ r b lt e. (lt, e);
          holds = (refl, refl);
        })
]
aside-Rests (breaks why) c aside t = go c.receiver refl
  where
    go : (rc : Receiver) → c.receiver ≡ rc → Rests c (step (breaks why) c)
    go receiving e =
        step-Rests (breaks why) c (record c { receiver = failed (transport why) }) (ground arith)
          (record {
            goes = keeps-Goes c _ t refl refl (λ m r p. p) (λ r. refl) (λ r. refl);
            replies = λ r b lt p. (lt, p);
            holds = (refl, refl);
          })
    go (failed w) e = step-Rests (breaks why) c c (ground arith) (Rests-refl c t)
    go ended e = step-Rests (breaks why) c c (ground arith) (Rests-refl c t)
aside-Rests terminates c aside t = go c.sender c.receiver refl refl
  where
    go :
        (o : Option ℕ) (rc : Receiver)
        → c.sender ≡ o
        → c.receiver ≡ rc
        → Rests c (step terminates c)
    go (some n) rc busy e = step-Rests terminates c c (ground arith) (Rests-refl c t)
    go none receiving idle e = step-Rests terminates c c (ground arith) (Rests-refl c t)
    go none ended idle e = step-Rests terminates c c (ground arith) (Rests-refl c t)
    go none (failed why) idle e =
        let c1 : Client = record c { shutdown = true } in
        let rests =
          fail_all-Rests why c.pending c1 (record { numbered = t.numbered; made = t.made }) in
        step-Rests terminates c (record (terminate_calls why c) { receiver = ended }) (ground arith)
          (record {
            goes = record {
              tracked = record {
                numbered = rests.goes.tracked.numbered;
                made = rests.goes.tracked.made;
              };
              extends = record {
                numbers = rests.goes.extends.numbers;
                calls_made = rests.goes.extends.calls_made;
                pending = rests.goes.extends.pending;
                same_method = rests.goes.extends.same_method;
                same_args = rests.goes.extends.same_args;
              };
              counts = rests.goes.counts;
            };
            replies = rests.replies;
            holds = rests.holds;
          })
