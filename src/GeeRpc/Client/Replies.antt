-- ===== src/GeeRpc/Client/Replies.antt =====
-- Which call a response reaches, and what becomes of a `Call` that waits for it.
use distributed_study.Common.{
  ℕ, ◌+◌, ◌^◌, ◌<◌, ◌≤◌, ◌≡◌, ◌≢◌, refl, Str, lookup, lookup-erase, Option, none, some, List, [],
  ◌∷◌, ◌++◌, nat_key, str_key, str_beq_iff, Bool, arith, Option-cases, inl, inr, ◌⊎◌, length,
}
use distributed_study.GeeRpc.Codec.{Header}
use distributed_study.GeeRpc.Client.{
  Error, Client, Body, body, broken, Action, Waiting, sent, received, cancelled, replied, wait_call,
  new_client_codec, done, set_error, set_reply, remove_call, receive_one, run, done_room,
}
use distributed_study.GeeRpc.Client.Accounts.{count, count-append}
use distributed_study.GeeRpc.Client.History.{run_signals_once}

-- A channel that is one call's own never makes `done` wait.
run_signals_room :
    (actions : List Action) (r : ℕ) (done : Option ℕ) (room : ℕ)
    → length actions + 1 < 2 ^ 64
    → done_room done ≡ some room
    → count r (run actions new_client_codec).signals ≤ room
unfolding done_room
run_signals_room actions r none room h e = let once = run_signals_once actions r h in ground arith
run_signals_room actions r (some n) room h e =
    let once = run_signals_once actions r h in ground arith

-- A Call never returns the outcome of its call: it receives the only signal and then waits for
-- another, so in any history it ends by its context or not at all, as long as there are fewer
-- actions than numbers of a uint64.
pub call_never_replies :
    (actions : List Action) (r : ℕ) (ctx_done : Bool) (w : Waiting)
    → length actions + 1 < 2 ^ 64
    → ((e : Option Error) → w ≢ replied e)
    → (e : Option Error) → wait_call ctx_done r (run actions new_client_codec) w ≢ replied e
unfolding wait_call count
call_never_replies actions r ctx_done sent h n e =
    let s = run_signals_once actions r h in λ eq. ground arith
call_never_replies actions r ctx_done received h n e =
    let s = run_signals_once actions r h in λ eq. ground arith
call_never_replies actions r ctx_done cancelled h n e = n e
call_never_replies actions r ctx_done (replied e') h n e = absurd (n e' refl)

-- A response changes neither the reply and error nor the signals of any call but the one that
-- is pending under its number.
receive_one_others :
    (h : Header) (b : Body) (c : Client) (q : ℕ)
    → lookup h.seq c.pending ≢ some q
    → ((receive_one h b c).calls q ≡ c.calls q)
      × (count q (receive_one h b c).signals ≡ count q c.signals)
unfolding receive_one remove_call done set_error set_reply count
receive_one_others h b c q other = go b (Option-cases (lookup h.seq c.pending))
  where
    go :
        (b : Body)
        → ((lookup h.seq c.pending ≡ none) ⊎ ((r : ℕ) × (lookup h.seq c.pending ≡ some r)))
        → ((receive_one h b c).calls q ≡ c.calls q)
          × (count q (receive_one h b c).signals ≡ count q c.signals)
    go (body s) (inl absent) = ground arith
    go (body s) (inr (r, found)) = ground (arith, count-append q c.signals (r ∷ []))
    go (broken why) (inl absent) = ground arith
    go (broken why) (inr (r, found)) = ground (arith, count-append q c.signals (r ∷ []))

-- A response without an error whose body can be read gives it to the call that is pending under
-- its number, leaves the call's error, signals the call, and leaves nothing pending under the
-- number.
receive_one_reply :
    (h : Header) (s : Str) (c : Client) (r : ℕ)
    → lookup h.seq c.pending ≡ some r
    → h.error ≡ []
    → (((receive_one h (body s) c).calls r).reply ≡ some s)
      × (((receive_one h (body s) c).calls r).error ≡ (c.calls r).error)
      × ((receive_one h (body s) c).signals ≡ c.signals ++ r ∷ [])
      × (lookup h.seq (receive_one h (body s) c).pending ≡ none)
unfolding receive_one remove_call done set_error set_reply
receive_one_reply h s c r e ok =
    ground (arith, str_beq_iff h.error [], lookup-erase h.seq h.seq c.pending)
