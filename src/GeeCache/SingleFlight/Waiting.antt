-- ===== src/GeeCache/SingleFlight/Waiting.antt =====
-- What a goroutine waits for.
use distributed_study.Common.{
  ℕ, ◌≡◌, ◌⊎◌, Str, some, List, [], ◌∷◌, nat_key, arith, Option-cases, inl, inr,
}
use distributed_study.GeeCache.SingleFlight.{
  Place, ready, waits, runs, removes, crashed, returned, Flight, Action, wakes, finishes,
  start_flight, finish, wake, step, run,
}
use distributed_study.GeeCache.SingleFlight.Invariant.{Inv, owned}
use distributed_study.GeeCache.SingleFlight.Flights.{run-Inv, start-Inv}

module _ {R : Type 0} (keys : ℕ → Str) where
  wake_done :
      (s : Flight R) (i c : ℕ) (r : R)
      → s.place i ≡ waits c
      → s.calls c ≡ some r
      → (step keys (wakes i) s).place i ≡ returned r
  unfolding step wake
  wake_done s i c r at done = ground arith

  -- Once the function returns, a goroutine that waits for it goes on with what it returned.
  finish_wakes :
      (s : Flight R) (i j c : ℕ) (r : R)
      → s.place i ≡ waits c
      → s.place j ≡ runs c
      → (run keys (finishes j r ∷ wakes i ∷ []) s).place i ≡ returned r
  unfolding step run finish
  finish_wakes s i j c r at running =
      wake_done (step keys (finishes j r) s) i c r (ground arith) (ground arith)

  owned-cases :
      (p : Place R) (c : ℕ) → owned p ≡ some c → (p ≡ runs c) ⊎ ((p ≡ removes c) ⊎ (p ≡ crashed c))
  owned-cases ready c e = ground arith
  owned-cases (waits d) c e = ground arith
  owned-cases (runs d) c e = inl (ground arith)
  owned-cases (removes d) c e = inr (inl (ground arith))
  owned-cases (crashed d) c e = inr (inr (ground arith))
  owned-cases (returned r) c e = ground arith

  -- In any interleaving, a goroutine that waits can go on with an outcome; or another is in the
  -- function for its key, and once that one's run ends, with any outcome, the goroutine can go on
  -- with this outcome; or a run for its key panicked.
  pub run_wakes :
      (actions : List (Action R)) (i c : ℕ)
      → (run keys actions start_flight).place i ≡ waits c
      → let s = run keys actions start_flight in
        ((r : R) × ((step keys (wakes i) s).place i ≡ returned r))
        ⊎ ((j : ℕ) × (keys j ≡ keys i)
            × (((s.place j ≡ runs c)
                  × ((r : R) → (run keys (finishes j r ∷ wakes i ∷ []) s).place i ≡ returned r))
                ⊎ (s.place j ≡ crashed c)))
  run_wakes actions i c at =
      let s = run keys actions start_flight in
      let v : Inv keys s = run-Inv keys actions start_flight (start-Inv keys) in
      elim (Option-cases (s.calls c)) [
        | inr (r, done) ↦ inl (r, wake_done s i c r at done)
        | inl unfinished ↦
            let (j, same, has) = v.owner (keys i) c (v.waiting i c (ground arith) unfinished) in
            inr (
              j,
              same,
              elim (owned-cases (s.place j) c has) [
                | inl running ↦ inl (running, λ r. finish_wakes s i j c r at running)
                | inr (inl removing) ↦ let (r, done) = v.finished j c (ground arith) in ground arith
                | inr (inr panicked) ↦ inr panicked
              ],
            )
      ]
