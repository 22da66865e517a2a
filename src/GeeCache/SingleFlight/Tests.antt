-- ===== src/GeeCache/SingleFlight/Tests.antt =====
-- Three goroutines, two of which ask for the same key.
use distributed_study.Common.{
  ℕ, zero, suc, ◌≡◌, ◌⊎◌, refl, bytes, Str, lookup, insert, erase, str_beq, List, [], ◌∷◌, ◌++◌,
  true,
}
use distributed_study.GeeCache.SingleFlight.{
  runs, crashed, returned, Action, enters, panics, deletes, wakes, finishes, start_flight, enter,
  finish, delete, wake, step, run,
}
use distributed_study.GeeCache.SingleFlight.Invariant.{Ended}
use distributed_study.GeeCache.SingleFlight.Waiting.{run_wakes}
use distributed_study.GeeCache.SingleFlight.Flights.{
  is_blocked, run_single, run_returns, panic_blocks,
}

program : Unit {0}
unfolding start_flight enter finish delete wake step run lookup insert erase str_beq
program = tt

abbrev keys : ℕ → Str
keys zero = bytes "a"
keys (suc zero) = bytes "a"
keys (suc (suc i)) = bytes "b"

abbrev started : List (Action ℕ)
started = enters 0 ∷ enters 2 ∷ enters 1 ∷ deletes 0 ∷ wakes 1 ∷ []

abbrev shared : List (Action ℕ)
shared = started ++ finishes 0 7 ∷ deletes 0 ∷ wakes 1 ∷ []

one_run :
    ((run keys shared start_flight).outcomes ≡ (bytes "a", 7) ∷ [])
    × ((run keys shared start_flight).place 0 ≡ returned 7)
    × ((run keys shared start_flight).place 1 ≡ returned 7)
    × ((run keys shared start_flight).place 2 ≡ runs 1)
unfolding program
one_run = (refl, refl, refl, refl)

run_single_example : ◌≡◌ {A = ℕ} 0 0
unfolding program
run_single_example = run_single keys started 0 0 0 0 refl refl refl

run_returns_example : Ended (bytes "a") 7 (run keys shared start_flight).outcomes
unfolding program
run_returns_example = run_returns keys shared 1 7 refl

panic_blocks_example :
    is_blocked 0 (
      (run keys (wakes 1 ∷ enters 1 ∷ []) (run keys (started ++ panics 0 ∷ []) start_flight)).place
        1)
    ≡ true
unfolding program
panic_blocks_example =
    panic_blocks keys (started ++ panics 0 ∷ []) (wakes 1 ∷ enters 1 ∷ []) 0 1 0 refl refl refl

run_wakes_example :
    let s = run keys started start_flight in
    ((r : ℕ) × ((step keys (wakes 1) s).place 1 ≡ returned r))
    ⊎ ((j : ℕ) × (keys j ≡ bytes "a")
        × (((s.place j ≡ runs 0)
              × ((r : ℕ) → (run keys (finishes j r ∷ wakes 1 ∷ []) s).place 1 ≡ returned r))
            ⊎ (s.place j ≡ crashed 0)))
unfolding program
run_wakes_example = run_wakes keys started 1 0 refl
