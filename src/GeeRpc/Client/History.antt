-- ===== src/GeeRpc/Client/History.antt =====
-- Histories of a client: how often each call is signalled.
use distributed_study.Common.{
  ℕ, ◌+◌, ◌^◌, ◌≤◌, ◌<◌, ◌≡◌, refl, sym, Option, none, some, List, [], ◌∷◌, All, ◌==◌, nat_key,
  arith, Bool-cases, inl, inr, ◌⊎◌, length, str_key,
}
use mathlib.Core.Path.{subst}
use native.Mathlib.Decide.{dec_lt}
use distributed_study.GeeRpc.Client.{
  Client, ended, Action, begins, writes, receives, breaks, terminates, closes, cancels,
  new_client_codec, remove_call, step, run,
}
use distributed_study.GeeRpc.Client.Accounts.{count, vals}
use distributed_study.GeeRpc.Client.Balance.{balance, Inv, new-Inv, open_le, open_dead}
use distributed_study.GeeRpc.Client.Steps.{added_if, added, NotCancel, step-Moves, cancel-Inv}

-- The invariant, and no call with more than one signal.
pub record IsSound (c : Client) : Type 0 where
  pub inv : Inv c
  pub once : (r : ℕ) → balance r c ≤ 1

new-IsSound : IsSound new_client_codec
unfolding new_client_codec count vals
new-IsSound = record { inv = new-Inv; once = λ r. omega arith }

cancel_or_not : (a : Action) → NotCancel a ⊎ ((n : ℕ) × (a ≡ cancels n))
cancel_or_not (cancels n) = inr (n, refl)
cancel_or_not (begins s args) = inl tt
cancel_or_not (writes e) = inl tt
cancel_or_not (receives h b) = inl tt
cancel_or_not (breaks why) = inl tt
cancel_or_not terminates = inl tt
cancel_or_not closes = inl tt

added_if_cases :
    (o : Option ℕ) (c : Client) (r : ℕ)
    → (added_if o c r ≡ 0) ⊎ ((c.next_call ≡ r) × (added_if o c r ≡ 1))
added_if_cases (some n) c r = inl refl
added_if_cases none c r = elim (Bool-cases (c.next_call == r)) [
  | inl e ↦ inr (ground arith, ground arith)
  | inr e ↦ inl (ground arith)
]

added_cases :
    (a : Action) (c : Client) (r : ℕ) → (added a c r ≡ 0) ⊎ ((c.next_call ≡ r) × (added a c r ≡ 1))
added_cases (begins s args) c r = added_if_cases c.sender c r
added_cases (writes e) c r = inl refl
added_cases (receives h b) c r = inl refl
added_cases (breaks why) c r = inl refl
added_cases terminates c r = inl refl
added_cases closes c r = inl refl
added_cases (cancels n) c r = inl refl

step-IsSound :
    (a : Action) (c : Client)
    → IsSound c
    → c.seq + 1 < 2 ^ 64
    → IsSound (step a c) × ((step a c).seq ≤ c.seq + 1)
step-IsSound a c g h = elim (cancel_or_not a) [
  | inl t ↦
      let m = step-Moves a c g.inv h t in
      (
        record {
          inv = m.inv;
          once = λ r. elim (added_cases a c r) [
            | inl zero_more ↦ omega (arith, m.grows r, g.once r)
            | inr (new, one_more) ↦
                omega
                  (arith, m.grows r, g.inv.unmade r (omega arith), open_le r c.receiver c.pending)
          ];
        },
        m.numbers,
      )
  | inr (n, e) ↦
      let (inv, less) = cancel-Inv n c g.inv in
      subst (λ x. IsSound (step x c) × ((step x c).seq ≤ c.seq + 1)) (sym e)
        (
          record { inv = inv; once = λ r. omega (arith, less r, g.once r) },
          unfold step remove_call in omega arith,
        )
]

run-IsSound :
    (actions : List Action) (c : Client)
    → IsSound c
    → c.seq + length actions < 2 ^ 64
    → IsSound (run actions c)
unfolding run
run-IsSound [] c g h = g
run-IsSound (a ∷ actions) c g h =
    let (g', less) = step-IsSound a c g (omega arith) in
    run-IsSound actions (step a c) g' (omega arith)

-- Whatever the goroutines of a client do, in any order and with any results, no call is
-- signalled twice, as long as there are fewer actions than numbers of a uint64.
pub run_signals_once :
    (actions : List Action) (r : ℕ)
    → length actions + 1 < 2 ^ 64
    → count r (run actions new_client_codec).signals ≤ 1
run_signals_once actions r h =
    let g =
      run-IsSound actions new_client_codec new-IsSound (unfold new_client_codec in omega arith) in
    omega (arith, g.once r)

-- Every call that was made is signalled or waits to be.
abbrev IsExact : Client → Type 0
IsExact c = (r : ℕ) → r < c.next_call → balance r c ≡ 1

step-IsExact :
    (a : Action) (c : Client)
    → IsSound c
    → IsExact c
    → c.seq + 1 < 2 ^ 64
    → NotCancel a
    → IsExact (step a c)
step-IsExact a c g x h t r lt =
    let m = step-Moves a c g.inv h t in
    elim (dec_lt r c.next_call) [
      | yes old ↦ elim (added_cases a c r) [
        | inl zero_more ↦ omega (arith, m.grows r, x r old)
        | inr (new, _) ↦ absurd (omega arith)
      ]
      | no new ↦ omega (
        arith,
        m.grows r,
        m.makes r (omega arith) lt,
        g.inv.unmade r (omega arith),
        open_le r c.receiver c.pending,
      )
    ]

run-IsExact :
    (actions : List Action) (c : Client)
    → IsSound c
    → IsExact c
    → c.seq + length actions < 2 ^ 64
    → All NotCancel actions
    → IsExact (run actions c)
unfolding run
run-IsExact [] c g x h t = x
run-IsExact (a ∷ actions) c g x h t =
    let (g', less) = step-IsSound a c g (omega arith) in
    run-IsExact actions (step a c) g' (step-IsExact a c g x (omega arith) t.0) (omega arith) t.1

-- If no context ends a call, then once receive has ended every call that was made has been
-- signalled exactly once, as long as there are fewer actions than numbers of a uint64.
pub run_exactly_once :
    (actions : List Action) (r : ℕ)
    → length actions + 1 < 2 ^ 64
    → All NotCancel actions
    → (run actions new_client_codec).receiver ≡ ended
    → r < (run actions new_client_codec).next_call
    → count r (run actions new_client_codec).signals ≡ 1
unfolding count
run_exactly_once actions r h t over lt =
    let c = run actions new_client_codec in
    let x =
      run-IsExact actions new_client_codec new-IsSound
        (unfold new_client_codec in λ q none_made. absurd (omega arith))
        (unfold new_client_codec in omega arith) t r lt in
    let gone = open_dead c.receiver c.pending (ground arith) in ground arith
