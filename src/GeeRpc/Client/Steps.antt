-- ===== src/GeeRpc/Client/Steps.antt =====
-- How each action of a client moves the balance of a call.
use distributed_study.Common.{
  ℕ, ◌+◌, ◌^◌, ◌≤◌, ◌<◌, ◌≡◌, ◌∙◌, refl, sym, ap, erase, Option, none, some, nat_key, true, arith,
  Option-cases, Bool-cases, inl, inr, str_key,
}
use mathlib.Core.Path.{subst, subst₂}
use distributed_study.GeeRpc.Client.{
  Error, Client, Receiver, receiving, failed, ended, Action, begins, writes, receives, breaks,
  terminates, closes, cancels, close, remove_call, terminate_calls, end_send, receive_one, step,
}
use distributed_study.GeeRpc.Client.Accounts.{
  one, count, count-erase, erase-IsUnique, erase-IsBelow,
}
use distributed_study.GeeRpc.Client.Balance.{open_calls, balance, Inv, Moves, nothing, keeps, ends}
use distributed_study.GeeRpc.Client.Signals.{
  fail_all_signals, begin_send-Moves, end_send-Moves, receive_one-Moves,
}

-- The call that an action makes.
abbrev pub added_if : Option ℕ → Client → ℕ → ℕ
added_if none c = one c.next_call
added_if (some n) c = nothing

abbrev pub added : Action → Client → ℕ → ℕ
added (begins s args) c = added_if c.sender c
added _ c = nothing

abbrev pub NotCancel : Action → Type 0
NotCancel (cancels n) = ⊥
NotCancel _ = Unit {0}

stays : (c : Client) → Inv c → Moves c c nothing
stays c v = keeps c c v refl refl refl refl refl v.stopped

terminates-Moves :
    (e : Error) (c : Client)
    → Inv c
    → c.sender ≡ none
    → c.receiver ≡ failed e
    → Moves c (record (terminate_calls e c) { receiver = ended }) nothing
unfolding terminate_calls
terminates-Moves e c v idle broke =
    let (s, p, q, l, sh, se) = fail_all_signals e c.pending (record c { shutdown = true }) in
    ends c _ v p s q l (ground arith) refl sh (se ∙ idle)

reaches :
    (c : Client) (a : Action) (c' : Client)
    → step a c ≡ c'
    → Moves c c' nothing
    → Moves c (step a c) nothing
reaches c a c' e m = subst (λ x. Moves c x nothing) (sym e) m

pub step-Moves :
    (a : Action) (c : Client)
    → Inv c
    → c.seq + 1 < 2 ^ 64
    → NotCancel a
    → Moves c (step a c) (added a c)
unfolding step close
step-Moves (begins s args) c v h t = elim (Option-cases c.sender) [
  | inl idle ↦
      subst₂ (Moves c) (sym (ground arith)) (sym (ap (λ o. added_if o c) idle))
        (begin_send-Moves s args c v h idle)
  | inr (n, busy) ↦
      subst₂ (Moves c) (sym (ground arith)) (sym (ap (λ o. added_if o c) busy)) (stays c v)
]
step-Moves (writes e) c v h t = elim (Option-cases c.sender) [
  | inl idle ↦ reaches c (writes e) c (ground arith) (stays c v)
  | inr (n, busy) ↦
      reaches c (writes e) (end_send e n c) (ground arith) (end_send-Moves e n c v busy)
]
step-Moves (receives hd b) c v h t = go c.receiver refl
  where
    go : (rc : Receiver) → c.receiver ≡ rc → Moves c (step (receives hd b) c) nothing
    go receiving e =
        reaches c (receives hd b) (receive_one hd b c) (ground arith) (receive_one-Moves hd b c v e)
    go (failed why) e = reaches c (receives hd b) c (ground arith) (stays c v)
    go ended e = reaches c (receives hd b) c (ground arith) (stays c v)
step-Moves (breaks why) c v h t = go c.receiver refl
  where
    go : (rc : Receiver) → c.receiver ≡ rc → Moves c (step (breaks why) c) nothing
    go receiving e =
        keeps c _ v (ground arith) (ground arith) (ground arith) (ground arith) (ground arith)
          (λ dead. absurd (ground arith))
    go (failed _) e = reaches c (breaks why) c (ground arith) (stays c v)
    go ended e = reaches c (breaks why) c (ground arith) (stays c v)
step-Moves terminates c v h t = go c.sender c.receiver refl refl
  where
    go :
        (o : Option ℕ) (rc : Receiver)
        → c.sender ≡ o
        → c.receiver ≡ rc
        → Moves c (step terminates c) nothing
    go (some n) rc busy e = reaches c terminates c (ground arith) (stays c v)
    go none (failed why) idle e =
        reaches c terminates (record (terminate_calls why c) { receiver = ended }) (ground arith)
          (terminates-Moves why c v idle e)
    go none receiving idle e = reaches c terminates c (ground arith) (stays c v)
    go none ended idle e = reaches c terminates c (ground arith) (stays c v)
step-Moves closes c v h t = elim (Bool-cases c.closing) [
  | inl shut ↦ reaches c closes c (ground arith) (stays c v)
  | inr free ↦
      reaches c closes (record c { closing = true }) (ground arith)
        (keeps c (record c { closing = true }) v refl refl refl refl refl v.stopped)
]
step-Moves (cancels n) c v h t = absurd t

-- A context that is done takes a call out, which then waits for no signal.
pub cancel-Inv :
    (n : ℕ) (c : Client)
    → Inv c
    → Inv (step (cancels n) c) × ((r : ℕ) → balance r (step (cancels n) c) ≤ balance r c)
unfolding step remove_call
cancel-Inv n c v = (
  record {
    unique = erase-IsUnique n c.pending v.unique;
    below = erase-IsBelow c.seq n c.pending v.below;
    unmade = λ r h. omega (arith, v.unmade r h, count-erase n r c.pending v.unique);
    stopped = v.stopped;
  },
  λ r. open_erase_le r n c.receiver,
)
  where
    open_erase_le :
        (r n : ℕ) (rc : Receiver)
        → count r c.signals + count r (open_calls rc (erase n c.pending))
          ≤ count r c.signals + count r (open_calls rc c.pending)
    open_erase_le r n receiving = omega (arith, count-erase n r c.pending v.unique)
    open_erase_le r n (failed e) = omega (arith, count-erase n r c.pending v.unique)
    open_erase_le r n ended = omega arith
