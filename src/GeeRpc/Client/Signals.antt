-- ===== src/GeeRpc/Client/Signals.antt =====
-- Each call is signalled once.
use distributed_study.Common.{
  ℕ, ◌+◌, ◌^◌, ◌<◌, ◌≡◌, ◌∙◌, refl, sym, Str, Dict, lookup, Option, none, some, [], ◌∷◌, ◌++◌,
  nat_key, true, ◌||◌, arith, Option-cases, Bool-cases, inl, inr, ◌⊎◌, str_key,
}
use mathlib.Core.List.{append-nil, append_assoc}
use distributed_study.GeeRpc.Codec.{Header}
use distributed_study.GeeRpc.Client.{
  Error, Client, receiving, Body, body, broken, done, set_error, set_reply, register_call,
  remove_call, fail_all, begin_send, end_send, receive_one,
}
use distributed_study.GeeRpc.Client.Accounts.{one, vals}
use distributed_study.GeeRpc.Client.Balance.{
  is_live, Inv, Moves, nothing, keeps, finishes, misses, registers, refuses,
}

-- The loop of `terminateCalls` signals the pending calls in turn.
pub fail_all_signals :
    (e : Error) (m : Dict ℕ ℕ) (c : Client)
    → ((fail_all e m c).signals ≡ c.signals ++ vals m)
      × ((fail_all e m c).pending ≡ c.pending)
      × ((fail_all e m c).seq ≡ c.seq)
      × ((fail_all e m c).next_call ≡ c.next_call)
      × ((fail_all e m c).shutdown ≡ c.shutdown)
      × ((fail_all e m c).sender ≡ c.sender)
unfolding fail_all done set_error vals
fail_all_signals e [] c = (sym (append-nil c.signals), refl, refl, refl, refl, refl)
fail_all_signals e ((n, r) ∷ m) c =
    let (s, p, q, l, sh, se) = fail_all_signals e m (done r (set_error r e c)) in
    (s ∙ append_assoc c.signals (r ∷ []) (vals m), p, q, l, sh, se)

pub begin_send-Moves :
    (service_method args : Str) (c : Client)
    → Inv c
    → c.seq + 1 < 2 ^ 64
    → c.sender ≡ none
    → Moves c (begin_send service_method args c) (one c.next_call)
unfolding begin_send register_call done set_error
begin_send-Moves s args c v h idle = elim (Bool-cases (c.closing || c.shutdown)) [
  | inl stop ↦
      refuses c _ v (ground arith) (ground arith) (ground arith) (ground arith) (ground arith)
        (ground arith) (ground arith)
  | inr go ↦
      let live : is_live c.receiver ≡ true = elim (Bool-cases (is_live c.receiver)) [
        | inl l ↦ l
        | inr dead ↦ let (sh, _) = v.stopped dead in absurd (ground arith)
      ] in
      registers c _ v (ground arith) (ground arith) (ground arith) (ground arith) live
        (ground arith)
]

pub end_send-Moves :
    (e : Option Error) (n : ℕ) (c : Client)
    → Inv c
    → c.sender ≡ some n
    → Moves c (end_send e n c) nothing
unfolding end_send remove_call done set_error
end_send-Moves e n c v busy = go e
  where
    live : is_live c.receiver ≡ true
    live = elim (Bool-cases (is_live c.receiver)) [
      | inl l ↦ l
      | inr dead ↦ let (_, idle) = v.stopped dead in absurd (ground arith)
    ]

    go : (e : Option Error) → Moves c (end_send e n c) nothing
    go none = keeps c _ v refl refl refl refl refl (λ dead. absurd (ground arith))
    go (some why) = elim (Option-cases (lookup n c.pending)) [
      | inl absent ↦
          misses c _ v n absent (ground arith) (ground arith) (ground arith) (ground arith) live
            (ground arith)
      | inr (q, found) ↦
          finishes c _ v n q found (ground arith) (ground arith) (ground arith) (ground arith) live
            (ground arith)
    ]

pub receive_one-Moves :
    (h : Header) (b : Body) (c : Client)
    → Inv c
    → c.receiver ≡ receiving
    → Moves c (receive_one h b c) nothing
unfolding receive_one remove_call done set_error set_reply
receive_one-Moves h b c v r = go b (Option-cases (lookup h.seq c.pending))
  where
    live : is_live c.receiver ≡ true
    live = ground arith

    go :
        (b : Body)
        → ((lookup h.seq c.pending ≡ none) ⊎ ((q : ℕ) × (lookup h.seq c.pending ≡ some q)))
        → Moves c (receive_one h b c) nothing
    go (body s) (inl absent) =
        misses c _ v h.seq absent (ground arith) (ground arith) (ground arith) (ground arith) live
          (ground arith)
    go (body s) (inr (q, found)) =
        finishes c _ v h.seq q found (ground arith) (ground arith) (ground arith) (ground arith)
          live (ground arith)
    go (broken why) (inl absent) =
        misses c _ v h.seq absent (ground arith) (ground arith) (ground arith) (ground arith) live
          (ground arith)
    go (broken why) (inr (q, found)) =
        finishes c _ v h.seq q found (ground arith) (ground arith) (ground arith) (ground arith)
          live (ground arith)
