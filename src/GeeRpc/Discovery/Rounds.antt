-- ===== src/GeeRpc/Discovery/Rounds.antt =====
-- Round robin serves the servers in turn; the other modes.
use distributed_study.Common.{
  ℕ, zero, suc, ◌+◌, ◌%◌, ◌<◌, ◌≡◌, ◌∙◌, refl, ap, Str, Option, none, some, List, [], ◌∷◌, length,
  get_elem?, arith, nat_key,
}
use native.Mathlib.Nat.{mod-add-mod, add-zero}
use distributed_study.GeeRpc.Discovery.{
  Lock, free, readers, writer, Discovery, round_robin_select, Result, choose, get, r_lock, unlock,
  get_all,
}

-- The answers of `n` calls of `Get` in round robin.
pub answers : ℕ → (ℕ → ℕ) → Discovery → List (Option (Result Str))
answers zero intn d = []
answers (suc n) intn d = let (a, d') = get intn round_robin_select d in a ∷ answers n intn d'

get_in_turn :
    (intn : ℕ → ℕ) (d : Discovery)
    → 0 < length d.servers
    → get intn round_robin_select d ≡ (
      choose d.servers (d.index % length d.servers),
      record d { index = (d.index + 1) % length d.servers },
    )
unfolding get
get_in_turn intn d h = ground arith

next_place : (i j n : ℕ) → ((i + 1) % n + j) % n ≡ (i + suc j) % n
next_place i j n = mod-add-mod (i + 1) n j ∙ ap (λ (x : ℕ). x % n) (omega arith)

-- The j-th of any number of calls in round robin answers with the j-th server after the current
-- one, counted around the list, if the list is not empty.
pub answers_in_turn :
    (n j : ℕ) (intn : ℕ → ℕ) (d : Discovery)
    → 0 < length d.servers
    → j < n
    → get_elem? (answers n intn d) j ≡ some (choose d.servers ((d.index + j) % length d.servers))
unfolding answers
answers_in_turn zero j intn d h lt = absurd (omega arith)
answers_in_turn (suc n) zero intn d h lt = rw (get_in_turn intn d h, add-zero) refl
answers_in_turn (suc n) (suc j) intn d h lt = rw (get_in_turn intn d h) (
    answers_in_turn n j intn (record d { index = (d.index + 1) % length d.servers }) h (omega arith)
    ∙ ap (λ (i : ℕ). some (choose d.servers i)) (next_place d.index j (length d.servers)))

-- `GetAll` never returns, in any state of the lock.
get_all_fatal : (d : Discovery) → get_all d ≡ none
unfolding get_all r_lock unlock
get_all_fatal d = go d.mu refl
  where
    go : (l : Lock) → d.mu ≡ l → get_all d ≡ none
    go free e = ground arith
    go (readers n) e = ground arith
    go writer e = ground arith
