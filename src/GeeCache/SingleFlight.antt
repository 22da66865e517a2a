-- ===== src/GeeCache/SingleFlight.antt =====
-- geecache/singleflight/singleflight.go: goroutines that ask for keys, with one run of the
-- function for a key at a time.
--
-- A goroutine is a number that makes one call `Do(keys i, fn)`; a `*call` is a number, and `calls`
-- is what stands behind the pointers: no outcome before `wg.Done`, and then `Val` and `err`. The
-- outcome of a run is the environment's choice, so `fn` may be any function. `outcomes` records the
-- runs that ended, with the key that they ran for.
pub mod Invariant
pub mod Flights
pub mod Waiting
mod Tests
use distributed_study.Common.{
  ℕ, ◌+◌, Str, Dict, lookup, insert, erase, Option, none, some, List, [], ◌∷◌, ◌==◌, nat_key,
  str_key, if◌then◌else◌,
}

-- Where a goroutine stands: before the first lock, in `wg.Wait`, in `fn`, before the second lock,
-- behind its return, or unwound by a panic of `fn`.
pub data Place (R : Type 0) : Type 0 where
  ready : Place R
  waits runs removes crashed : ℕ → Place R
  returned : R → Place R

pub record Flight (R : Type 0) : Type 0 where
  pub m : Dict Str ℕ
  pub calls : ℕ → Option R
  pub next_call : ℕ
  pub place : ℕ → Place R
  pub outcomes : List (Str × R)

pub data Action (R : Type 0) : Type 0 where
  enters panics deletes wakes : ℕ → Action R
  finishes : ℕ → R → Action R

abbrev pub set : {A : Type 0} → (ℕ → A) → ℕ → A → ℕ → A
set f i a j = if i == j then a else f j

module _ {R : Type 0} where
  unfoldable pub start_flight : Flight R
  start_flight = record {
    m = [];
    calls = λ _. none;
    next_call = 0;
    place = λ _. ready;
    outcomes = [];
  }

  -- The first critical section of `Do`.
  unfoldable pub enter : Str → ℕ → Flight R → Flight R
  enter key i s = elim (lookup key s.m) [
    | some c ↦ record s { place = set s.place i (waits c) }
    | none ↦ record s {
      m = insert key s.next_call s.m;
      next_call = s.next_call + 1;
      place = set s.place i (runs s.next_call);
    }
  ]

  -- `fn` returns, and `wg.Done` lets the waiting goroutines go on.
  unfoldable pub finish : Str → ℕ → ℕ → R → Flight R → Flight R
  finish key i c r s = record s {
    calls = set s.calls c (some r);
    place = set s.place i (removes c);
    outcomes = (key, r) ∷ s.outcomes;
  }

  -- The second critical section, and the return.
  unfoldable pub delete : Str → ℕ → ℕ → Flight R → Flight R
  delete key i c s = elim (s.calls c) [
    | none ↦ s
    | some r ↦ record s { m = erase key s.m; place = set s.place i (returned r) }
  ]

  -- The return of a goroutine that waited, which the wait group holds back until the run ends.
  unfoldable pub wake : ℕ → ℕ → Flight R → Flight R
  wake i c s = elim (s.calls c) [
    | none ↦ s
    | some r ↦ record s { place = set s.place i (returned r) }
  ]

  -- An action that the goroutine's place does not admit changes nothing.
  unfoldable pub step : (ℕ → Str) → Action R → Flight R → Flight R
  step keys (enters i) s = elim (s.place i) [ ready ↦ enter (keys i) i s | _ ↦ s ]
  step keys (finishes i r) s = elim (s.place i) [ runs c ↦ finish (keys i) i c r s | _ ↦ s ]
  step keys (panics i) s = elim (s.place i) [
    | runs c ↦ record s { place = set s.place i (crashed c) }
    | _ ↦ s
  ]
  step keys (deletes i) s = elim (s.place i) [ removes c ↦ delete (keys i) i c s | _ ↦ s ]
  step keys (wakes i) s = elim (s.place i) [ waits c ↦ wake i c s | _ ↦ s ]

  unfoldable pub run : (ℕ → Str) → List (Action R) → Flight R → Flight R
  run keys [] s = s
  run keys (a ∷ rest) s = run keys rest (step keys a s)
