-- ===== src/GeeRpc/Client/Tracking.antt =====
-- What each critical section of the client keeps of its calls.
pub mod Receiving
use distributed_study.Common.{
  ℕ, ◌+◌, ◌%◌, ◌^◌, ◌≤◌, ◌<◌, ◌≡◌, ◌∙◌, ap, refl, sym, ◌⊎◌, Str, Dict, lookup, lookup-insert,
  lookup-erase, insert, erase, Option, none, some, List, [], ◌∷◌, Bool, true, false, ◌||◌, ◌==◌,
  nat_key, str_key, str_beq, str_beq_iff, ◌&&◌, arith, Bool-cases, Option-cases, inl, inr,
}
use mathlib.Core.Path.{subst}
use distributed_study.GeeRpc.Codec.{Header}
use distributed_study.GeeRpc.Client.{
  Error, transport, Client, Body, body, broken, Receiver, receiving, failed, ended, begin_send,
  end_send, done, set_error, set_reply, register_call, remove_call, fail_all, terminate_calls,
  receive_one, deliver, close, step, Action, begins, writes, receives, breaks, terminates, closes,
  cancels,
}

-- The numbers and calls of the pending map were given out.
pub record IsTracked (c : Client) : Type 0 where
  pub numbered : (n r : ℕ) → lookup n c.pending ≡ some r → n < c.seq
  pub made : (n r : ℕ) → lookup n c.pending ≡ some r → r < c.next_call

pub record Extends (c c' : Client) : Type 0 where
  pub numbers : c.seq ≤ c'.seq
  pub calls_made : c.next_call ≤ c'.next_call
  pub pending : (n r : ℕ) → n < c.seq → lookup n c'.pending ≡ some r → lookup n c.pending ≡ some r
  pub same_method :
      (r : ℕ) → r < c.next_call → (c'.calls r).service_method ≡ (c.calls r).service_method
  pub same_args : (r : ℕ) → r < c.next_call → (c'.calls r).args ≡ (c.calls r).args

-- A reply is none or stood there before.
abbrev pub KeepsReplies : Client → Client → Type 0
KeepsReplies c c' =
    (r : ℕ) (b : Str)
    → r < c'.next_call
    → (c'.calls r).reply ≡ some b
    → (r < c.next_call) × ((c.calls r).reply ≡ some b)

-- A message with the number is for a call of the method and the arguments, if it is pending.
pub record Fits (c : Client) (n : ℕ) (service_method args : Str) : Type 0 where
  pub given : n < c.seq
  pub for_method :
      (r : ℕ) → lookup n c.pending ≡ some r → (c.calls r).service_method ≡ service_method
  pub for_args : (r : ℕ) → lookup n c.pending ≡ some r → (c.calls r).args ≡ args

pub Fits-Extends :
    (c c' : Client) (n : ℕ) (service_method args : Str)
    → IsTracked c
    → Extends c c'
    → Fits c n service_method args
    → Fits c' n service_method args
Fits-Extends c c' n service_method args t x f = record {
  given = omega (arith, f.given, x.numbers);
  for_method = λ r e.
      let was = x.pending n r f.given e in x.same_method r (t.made n r was) ∙ f.for_method r was;
  for_args =
      λ r e. let was = x.pending n r f.given e in x.same_args r (t.made n r was) ∙ f.for_args r was;
}

Extends-refl : (c : Client) → Extends c c
Extends-refl c = record {
  numbers = omega arith;
  calls_made = omega arith;
  pending = λ n r h e. e;
  same_method = λ r h. refl;
  same_args = λ r h. refl;
}

-- A step of the client that keeps what is known of its calls.
pub record Goes (c c' : Client) : Type 0 where
  pub tracked : IsTracked c'
  pub extends : Extends c c'
  pub counts : c'.seq ≤ c.seq + 1

pub Goes-refl : (c : Client) → IsTracked c → Goes c c
Goes-refl c t = record { tracked = t; extends = Extends-refl c; counts = omega arith }

pub begin_send-Goes :
    (service_method args : Str) (c : Client)
    → IsTracked c
    → c.seq + 1 < 2 ^ 64
    → Goes c (begin_send service_method args c)
unfolding begin_send register_call done set_error
begin_send-Goes service_method args c t h = elim (Bool-cases (c.closing || c.shutdown)) [
  | inl stop ↦ record {
    tracked = record {
      numbered = λ n r e. ground (arith, t.numbered n r);
      made = λ n r e. ground (arith, t.made n r);
    };
    extends = record {
      numbers = ground arith;
      calls_made = ground arith;
      pending = λ n r lt e. ground arith;
      same_method = λ r lt. ground arith;
      same_args = λ r lt. ground arith;
    };
    counts = ground arith;
  }
  | inr go ↦ record {
    tracked = record {
      numbered =
          λ n r e. ground (arith, t.numbered n r, lookup-insert c.seq n c.next_call c.pending);
      made = λ n r e. ground (arith, t.made n r, lookup-insert c.seq n c.next_call c.pending);
    };
    extends = record {
      numbers = ground arith;
      calls_made = ground arith;
      pending = λ n r lt e. ground (arith, lookup-insert c.seq n c.next_call c.pending);
      same_method = λ r lt. ground arith;
      same_args = λ r lt. ground arith;
    };
    counts = ground arith;
  }
]

pub begin_send-KeepsReplies :
    (service_method args : Str) (c : Client) → KeepsReplies c (begin_send service_method args c)
unfolding begin_send register_call done set_error
begin_send-KeepsReplies service_method args c r b lt e =
    elim (Bool-cases (c.closing || c.shutdown)) [ inl stop ↦ ground arith | inr go ↦ ground arith ]

-- The call that `send` registers is the one of its arguments.
pub begin_send-Fits :
    (service_method args : Str) (c : Client) (n : ℕ)
    → c.seq + 1 < 2 ^ 64
    → c.sender ≡ none
    → (begin_send service_method args c).sender ≡ some n
    → let c' = begin_send service_method args c in
      Fits c' c'.header.seq c'.header.service_method args
unfolding begin_send register_call done set_error
begin_send-Fits service_method args c n h idle e = elim (Bool-cases (c.closing || c.shutdown)) [
  | inl stop ↦ ground arith
  | inr go ↦ record {
    given = ground arith;
    for_method = λ r p. ground (arith, lookup-insert c.seq c.seq c.next_call c.pending);
    for_args = λ r p. ground (arith, lookup-insert c.seq c.seq c.next_call c.pending);
  }
]

-- A section that gives out no number and makes no call.
pub keeps-Goes :
    (c c' : Client)
    → IsTracked c
    → c'.seq ≡ c.seq
    → c'.next_call ≡ c.next_call
    → ((n r : ℕ) → lookup n c'.pending ≡ some r → lookup n c.pending ≡ some r)
    → ((r : ℕ) → (c'.calls r).service_method ≡ (c.calls r).service_method)
    → ((r : ℕ) → (c'.calls r).args ≡ (c.calls r).args)
    → Goes c c'
keeps-Goes c c' t seq next pending same_method same_args = record {
  tracked = record {
    numbered = λ n r e. omega (arith, seq, t.numbered n r (pending n r e));
    made = λ n r e. omega (arith, next, t.made n r (pending n r e));
  };
  extends = record {
    numbers = omega (arith, seq);
    calls_made = omega (arith, next);
    pending = λ n r lt. pending n r;
    same_method = λ r lt. same_method r;
    same_args = λ r lt. same_args r;
  };
  counts = omega (arith, seq);
}

keeps-KeepsReplies :
    (c c' : Client)
    → c'.next_call ≡ c.next_call
    → ((r : ℕ) → (c'.calls r).reply ≡ (c.calls r).reply)
    → KeepsReplies c c'
keeps-KeepsReplies c c' next same r b lt e = (omega (arith, next), sym (same r) ∙ e)

pub end_send-Goes : (e : Option Error) (n : ℕ) (c : Client) → IsTracked c → Goes c (end_send e n c)
unfolding end_send remove_call done set_error
end_send-Goes none n c t = keeps-Goes c _ t refl refl (λ m r e. e) (λ r. refl) (λ r. refl)
end_send-Goes (some why) n c t = elim (Option-cases (lookup n c.pending)) [
  | inl absent ↦
      keeps-Goes c _ t (ground arith) (ground arith)
        (λ m r e. ground (arith, lookup-erase n m c.pending)) (λ r. ground arith)
        (λ r. ground arith)
  | inr (q, found) ↦
      keeps-Goes c _ t (ground arith) (ground arith)
        (λ m r e. ground (arith, lookup-erase n m c.pending)) (λ r. ground arith)
        (λ r. ground arith)
]

pub end_send-KeepsReplies :
    (e : Option Error) (n : ℕ) (c : Client) → KeepsReplies c (end_send e n c)
unfolding end_send remove_call done set_error
end_send-KeepsReplies none n c = keeps-KeepsReplies c (end_send none n c) refl (λ r. refl)
end_send-KeepsReplies (some why) n c = elim (Option-cases (lookup n c.pending)) [
  | inl absent ↦ keeps-KeepsReplies c (end_send (some why) n c) (ground arith) (λ r. ground arith)
  | inr (q, found) ↦
      keeps-KeepsReplies c (end_send (some why) n c) (ground arith) (λ r. ground arith)
]

pub end_send-idle : (e : Option Error) (n : ℕ) (c : Client) → (end_send e n c).sender ≡ none
unfolding end_send remove_call done set_error
end_send-idle none n c = refl
end_send-idle (some why) n c = elim (Option-cases (lookup n c.pending)) [
  | inl absent ↦ ground arith
  | inr (q, found) ↦ ground arith
]
