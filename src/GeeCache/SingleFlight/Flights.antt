-- ===== src/GeeCache/SingleFlight/Flights.antt =====
-- One run for a key at a time, and what the goroutines return.
use distributed_study.Common.{
  ℕ, ◌≡◌, refl, Str, lookup, none, some, List, [], ◌∷◌, ◌==◌, nat_key, str_key, arith, Option-cases,
  inl, inr, Bool, true, false,
}
use distributed_study.GeeCache.SingleFlight.{
  Place, ready, waits, runs, removes, crashed, returned, Flight, Action, enters, panics, deletes,
  wakes, finishes, start_flight, enter, finish, delete, wake, step, run,
}
use distributed_study.GeeCache.SingleFlight.Invariant.{
  Ended, Inv, enter_new-Inv, enter_known-Inv, finish-Inv, panic-Inv, delete-Inv, wake-Inv,
}

module _ {R : Type 0} where
  -- Every action keeps the invariant.
  step-Inv : (keys : ℕ → Str) (a : Action R) (s : Flight R) → Inv keys s → Inv keys (step keys a s)
  unfolding step delete wake
  step-Inv keys (enters i) s v = go (s.place i) refl
    where
      go : (p : Place R) → s.place i ≡ p → Inv keys (step keys (enters i) s)
      go ready e =
          rw (e, step)
            (elim (Option-cases (lookup (keys i) s.m)) [
              | inl absent ↦ enter_new-Inv keys s v i e absent
              | inr (c, there) ↦ enter_known-Inv keys s v i c e there
            ])
      go (waits c) e = rw (e, step) v
      go (runs c) e = rw (e, step) v
      go (removes c) e = rw (e, step) v
      go (crashed c) e = rw (e, step) v
      go (returned q) e = rw (e, step) v
  step-Inv keys (finishes i r) s v = go (s.place i) refl
    where
      go : (p : Place R) → s.place i ≡ p → Inv keys (step keys (finishes i r) s)
      go ready e = rw (e, step) v
      go (waits c) e = rw (e, step) v
      go (runs c) e = rw (e, step) (finish-Inv keys s v i c r e)
      go (removes c) e = rw (e, step) v
      go (crashed c) e = rw (e, step) v
      go (returned q) e = rw (e, step) v
  step-Inv keys (panics i) s v = go (s.place i) refl
    where
      go : (p : Place R) → s.place i ≡ p → Inv keys (step keys (panics i) s)
      go ready e = rw (e, step) v
      go (waits c) e = rw (e, step) v
      go (runs c) e = rw (e, step) (panic-Inv keys s v i c e)
      go (removes c) e = rw (e, step) v
      go (crashed c) e = rw (e, step) v
      go (returned q) e = rw (e, step) v
  step-Inv keys (deletes i) s v = go (s.place i) refl
    where
      go : (p : Place R) → s.place i ≡ p → Inv keys (step keys (deletes i) s)
      go ready e = rw (e, step) v
      go (waits c) e = rw (e, step) v
      go (runs c) e = rw (e, step) v
      go (removes c) e =
          rw (e, step)
            (elim (Option-cases (s.calls c)) [
              | inl running ↦ rw (running, delete) v
              | inr (r, done) ↦ delete-Inv keys s v i c r e done
            ])
      go (crashed c) e = rw (e, step) v
      go (returned q) e = rw (e, step) v
  step-Inv keys (wakes i) s v = go (s.place i) refl
    where
      go : (p : Place R) → s.place i ≡ p → Inv keys (step keys (wakes i) s)
      go ready e = rw (e, step) v
      go (waits c) e =
          rw (e, step)
            (elim (Option-cases (s.calls c)) [
              | inl running ↦ rw (running, wake) v
              | inr (r, done) ↦ wake-Inv keys s v i c r e done
            ])
      go (runs c) e = rw (e, step) v
      go (removes c) e = rw (e, step) v
      go (crashed c) e = rw (e, step) v
      go (returned q) e = rw (e, step) v

  pub run-Inv :
      (keys : ℕ → Str) (actions : List (Action R)) (s : Flight R)
      → Inv keys s
      → Inv keys (run keys actions s)
  unfolding run
  run-Inv keys [] s v = v
  run-Inv keys (a ∷ rest) s v = run-Inv keys rest (step keys a s) (step-Inv keys a s v)

  pub start-Inv : (keys : ℕ → Str) → Inv keys (start_flight {R = R})
  unfolding start_flight lookup
  start-Inv keys = record {
    bounded = λ k c e. ground arith;
    fresh = λ c h. refl;
    apart = λ k q c e f. ground arith;
    owns = λ i c e. ground arith;
    single = λ i j c e f. ground arith;
    unfinished = λ i c e. ground arith;
    finished = λ i c e. cc;
    owner = λ k c e. cc;
    ended = λ k c r e f. cc;
    waiting = λ i c e f. ground arith;
    served = λ i c r e f. cc;
    returns = λ i r e. cc;
  }

  -- In any interleaving, two goroutines that are in the function for the same key are one.
  pub run_single :
      (keys : ℕ → Str) (actions : List (Action R)) (i j c d : ℕ)
      → (run keys actions start_flight).place i ≡ runs c
      → (run keys actions start_flight).place j ≡ runs d
      → keys i ≡ keys j
      → i ≡ j
  run_single keys actions i j c d e f same =
      let v : Inv keys (run keys actions start_flight) =
        run-Inv keys actions start_flight (start-Inv keys) in
      ground (arith, v.owns i c, v.owns j d, v.single i j c)

  -- In any interleaving, what a goroutine returns is the outcome of a run of the function for the
  -- goroutine's key.
  pub run_returns :
      (keys : ℕ → Str) (actions : List (Action R)) (i : ℕ) (r : R)
      → (run keys actions start_flight).place i ≡ returned r
      → Ended (keys i) r (run keys actions start_flight).outcomes
  run_returns keys actions i r e =
      let v : Inv keys (run keys actions start_flight) =
        run-Inv keys actions start_flight (start-Inv keys) in
      v.returns i r (ground arith)

  -- Before its entry, or waiting for the call.
  abbrev pub is_blocked : ℕ → Place R → Bool
  is_blocked c ready = true
  is_blocked c (waits d) = d == c
  is_blocked c _ = false

  step-crashed :
      (keys : ℕ → Str) (a : Action R) (s : Flight R) (i c : ℕ)
      → s.place i ≡ crashed c
      → (step keys a s).place i ≡ crashed c
  unfolding step enter finish delete wake
  step-crashed keys (enters j) s i c e = ground arith
  step-crashed keys (finishes j r) s i c e = ground arith
  step-crashed keys (panics j) s i c e = ground arith
  step-crashed keys (deletes j) s i c e = ground arith
  step-crashed keys (wakes j) s i c e = ground arith

  step-blocked :
      (keys : ℕ → Str) (a : Action R) (s : Flight R) (j c : ℕ)
      → lookup (keys j) s.m ≡ some c
      → s.calls c ≡ none
      → is_blocked c (s.place j) ≡ true
      → is_blocked c ((step keys a s).place j) ≡ true
  unfolding step enter finish delete wake
  step-blocked keys (enters i) s j c e n b = ground arith
  step-blocked keys (finishes i r) s j c e n b = ground arith
  step-blocked keys (panics i) s j c e n b = ground arith
  step-blocked keys (deletes i) s j c e n b = ground arith
  step-blocked keys (wakes i) s j c e n b = ground arith

  run_blocked :
      (keys : ℕ → Str) (actions : List (Action R)) (s : Flight R) (i j c : ℕ)
      → Inv keys s
      → keys i ≡ keys j
      → s.place i ≡ crashed c
      → is_blocked c (s.place j) ≡ true
      → is_blocked c ((run keys actions s).place j) ≡ true
  unfolding run
  run_blocked keys [] s i j c v same e b = b
  run_blocked keys (a ∷ rest) s i j c v same e b =
      run_blocked keys rest (step keys a s) i j c (step-Inv keys a s v) same
        (step-crashed keys a s i c e)
        (step-blocked keys a s j c (ground (arith, v.owns i c)) (ground (arith, v.unfinished i c))
          b)

  -- After a panic of the function for a key, no goroutine that asks for the key from then on, or
  -- that waits for the call that panicked, ever gets an outcome, whatever else happens.
  pub panic_blocks :
      (keys : ℕ → Str) (before after : List (Action R)) (i j c : ℕ)
      → (run keys before start_flight).place i ≡ crashed c
      → is_blocked c ((run keys before start_flight).place j) ≡ true
      → keys i ≡ keys j
      → is_blocked c ((run keys after (run keys before start_flight)).place j) ≡ true
  panic_blocks keys before after i j c e b same =
      run_blocked keys after (run keys before start_flight) i j c
        (run-Inv keys before start_flight (start-Inv keys)) same e b
