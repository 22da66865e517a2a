-- ===== src/GeeCache/SingleFlight/Invariant.antt =====
-- Who owns which call, and what waits for it; kept by every action.
use distributed_study.Common.{
  ℕ, ◌<◌, ◌≤◌, ◌≡◌, ◌⊎◌, Str, lookup, lookup-insert, lookup-erase, Option, none, some, List, [],
  ◌∷◌, ◌==◌, nat_key, str_key, str_beq, str_beq_iff, arith, Bool-cases, inl, inr,
}
use distributed_study.GeeCache.SingleFlight.{
  Place, ready, waits, runs, removes, crashed, returned, Flight, set, enter, finish, delete, wake,
}

module _ {R : Type 0} where
  -- A run that ended for the key, with the outcome.
  abbrev pub Ended : Str → R → List (Str × R) → Type 0
  Ended k r [] = ⊥
  Ended k r (p ∷ l) = (p ≡ (k, r)) ⊎ Ended k r l

  -- The call that a goroutine made and has not deleted.
  abbrev pub owned : Place R → Option ℕ
  owned (runs c) = some c
  owned (removes c) = some c
  owned (crashed c) = some c
  owned _ = none

  -- The call that a goroutine made and that has no outcome.
  abbrev pub pending : Place R → Option ℕ
  pending (runs c) = some c
  pending (crashed c) = some c
  pending _ = none

  abbrev pub removed : Place R → Option ℕ
  removed (removes c) = some c
  removed _ = none

  abbrev pub awaited : Place R → Option ℕ
  awaited (waits c) = some c
  awaited _ = none

  abbrev pub result : Place R → Option R
  result (returned r) = some r
  result _ = none

  pub record Inv (keys : ℕ → Str) (s : Flight R) : Type 0 where
    pub bounded : (k : Str) (c : ℕ) → lookup k s.m ≡ some c → c < s.next_call
    pub fresh : (c : ℕ) → s.next_call ≤ c → s.calls c ≡ none
    pub apart : (k q : Str) (c : ℕ) → lookup k s.m ≡ some c → lookup q s.m ≡ some c → k ≡ q
    pub owns : (i c : ℕ) → owned (s.place i) ≡ some c → lookup (keys i) s.m ≡ some c
    pub single : (i j c : ℕ) → owned (s.place i) ≡ some c → owned (s.place j) ≡ some c → i ≡ j
    pub unfinished : (i c : ℕ) → pending (s.place i) ≡ some c → s.calls c ≡ none
    pub finished : (i c : ℕ) → removed (s.place i) ≡ some c → (r : R) × (s.calls c ≡ some r)
    pub owner :
        (k : Str) (c : ℕ)
        → lookup k s.m ≡ some c
        → (i : ℕ) × (keys i ≡ k) × (owned (s.place i) ≡ some c)
    pub ended :
        (k : Str) (c : ℕ) (r : R)
        → lookup k s.m ≡ some c
        → s.calls c ≡ some r
        → Ended k r s.outcomes
    pub waiting :
        (i c : ℕ) → awaited (s.place i) ≡ some c → s.calls c ≡ none → lookup (keys i) s.m ≡ some c
    pub served :
        (i c : ℕ) (r : R)
        → awaited (s.place i) ≡ some c
        → s.calls c ≡ some r
        → Ended (keys i) r s.outcomes
    pub returns : (i : ℕ) (r : R) → result (s.place i) ≡ some r → Ended (keys i) r s.outcomes

  module _ (keys : ℕ → Str) (s : Flight R) (v : Inv keys s) (i : ℕ) where
    -- A goroutine goes to a place where it owns nothing that it did not own, and waits for nothing.
    pub enter_new-Inv :
        s.place i ≡ ready → lookup (keys i) s.m ≡ none → Inv keys (enter (keys i) i s)
    unfolding enter
    enter_new-Inv at absent =
        rw (absent, enter)
          (record {
            bounded =
                λ k c e. ground (arith, v.bounded k c, lookup-insert (keys i) k s.next_call s.m);
            fresh = λ c h. v.fresh c (omega arith);
            apart = λ k q c e f. ground (
              arith,
              v.apart k q c,
              v.bounded k c,
              v.bounded q c,
              lookup-insert (keys i) k s.next_call s.m,
              lookup-insert (keys i) q s.next_call s.m,
              str_beq_iff (keys i) k,
              str_beq_iff (keys i) q,
            );
            owns = λ j c e. ground (
              arith,
              v.owns j c,
              lookup-insert (keys i) (keys j) s.next_call s.m,
              str_beq_iff (keys i) (keys j),
            );
            single = λ j l c e f. ground (
              arith,
              v.single j l c,
              v.owns j c,
              v.owns l c,
              v.bounded (keys j) c,
              v.bounded (keys l) c,
            );
            unfinished = λ j c e. ground (arith, v.unfinished j c, v.fresh c);
            finished = λ j c e. v.finished j c (ground arith);
            owner = λ k c e. elim (Bool-cases (str_beq (keys i) k)) [
              | inl same ↦ (
                i,
                (str_beq_iff (keys i) k).0 same,
                ground (arith, lookup-insert (keys i) k s.next_call s.m),
              )
              | inr other ↦
                  let (j, of_key, has) =
                    v.owner k c (ground (arith, lookup-insert (keys i) k s.next_call s.m)) in
                  (j, of_key, ground arith)
            ];
            ended = λ k c r e f.
                ground (arith, v.ended k c r, v.fresh c, lookup-insert (keys i) k s.next_call s.m);
            waiting = λ j c e f. ground (
              arith,
              v.waiting j c,
              lookup-insert (keys i) (keys j) s.next_call s.m,
              str_beq_iff (keys i) (keys j),
            );
            served = λ j c r e f. ground (arith, v.served j c r);
            returns = λ j r e. ground (arith, v.returns j r);
          })

    pub enter_known-Inv :
        (c : ℕ) → s.place i ≡ ready → lookup (keys i) s.m ≡ some c → Inv keys (enter (keys i) i s)
    unfolding enter
    enter_known-Inv c at there =
        rw (there, enter)
          (record {
            bounded = v.bounded;
            fresh = v.fresh;
            apart = v.apart;
            owns = λ j d e. ground (arith, v.owns j d);
            single = λ j l d e f. ground (arith, v.single j l d);
            unfinished = λ j d e. ground (arith, v.unfinished j d);
            finished = λ j d e. v.finished j d (ground arith);
            owner = λ k d e. let (j, of_key, has) = v.owner k d e in (j, of_key, ground arith);
            ended = v.ended;
            waiting = λ j d e f. ground (arith, v.waiting j d);
            served = λ j d r e f. ground (arith, v.served j d r, v.ended (keys i) d r);
            returns = λ j r e. ground (arith, v.returns j r);
          })

    pub finish-Inv : (c : ℕ) (r : R) → s.place i ≡ runs c → Inv keys (finish (keys i) i c r s)
    unfolding finish
    finish-Inv c r at = record {
      bounded = v.bounded;
      fresh = λ d h. ground (arith, v.fresh d, v.bounded (keys i) c, v.owns i c);
      apart = v.apart;
      owns = λ j d e. ground (arith, v.owns j d, v.owns i d);
      single = λ j l d e f. ground (arith, v.single j l d, v.single i l d, v.single j i d);
      unfinished = λ j d e. ground (arith, v.unfinished j d, v.single i j d);
      finished = λ j d e. elim (Bool-cases (c == d)) [
        | inl same ↦ (r, ground arith)
        | inr other ↦ let (q, done) = v.finished j d (ground arith) in (q, ground arith)
      ];
      owner = λ k d e. let (j, of_key, has) = v.owner k d e in (j, of_key, ground arith);
      ended = λ k d q e f. elim (Bool-cases (c == d)) [
        | inl same ↦ inl (ground (arith, v.apart k (keys i) c, v.owns i c))
        | inr other ↦ inr (ground (arith, v.ended k d q))
      ];
      waiting = λ j d e f. ground (arith, v.waiting j d);
      served = λ j d q e f. elim (Bool-cases (c == d)) [
        | inl same ↦ inl (
            ground
              (arith, v.apart (keys j) (keys i) c, v.owns i c, v.waiting j c, v.unfinished i c))
        | inr other ↦ inr (ground (arith, v.served j d q))
      ];
      returns = λ j q e. inr (ground (arith, v.returns j q));
    }

    pub panic-Inv :
        (c : ℕ) → s.place i ≡ runs c → Inv keys (record s { place = set s.place i (crashed c) })
    panic-Inv c at = record {
      bounded = v.bounded;
      fresh = v.fresh;
      apart = v.apart;
      owns = λ j d e. ground (arith, v.owns j d, v.owns i d);
      single = λ j l d e f. ground (arith, v.single j l d, v.single i l d, v.single j i d);
      unfinished = λ j d e. ground (arith, v.unfinished j d, v.unfinished i d);
      finished = λ j d e. v.finished j d (ground arith);
      owner = λ k d e. let (j, of_key, has) = v.owner k d e in (j, of_key, ground arith);
      ended = v.ended;
      waiting = λ j d e f. ground (arith, v.waiting j d);
      served = λ j d r e f. ground (arith, v.served j d r);
      returns = λ j r e. ground (arith, v.returns j r);
    }

    pub delete-Inv :
        (c : ℕ) (r : R)
        → s.place i ≡ removes c
        → s.calls c ≡ some r
        → Inv keys (delete (keys i) i c s)
    unfolding delete
    delete-Inv c r at done =
        rw (done, delete)
          (record {
            bounded = λ k d e. ground (arith, v.bounded k d, lookup-erase (keys i) k s.m);
            fresh = v.fresh;
            apart = λ k q d e f.
                ground
                  (arith, v.apart k q d, lookup-erase (keys i) k s.m, lookup-erase (keys i) q s.m);
            owns = λ j d e. ground (
              arith,
              v.owns j d,
              v.owns i c,
              lookup-erase (keys i) (keys j) s.m,
              str_beq_iff (keys i) (keys j),
              v.single i j c,
            );
            single = λ j l d e f. ground (arith, v.single j l d);
            unfinished = λ j d e. ground (arith, v.unfinished j d);
            finished = λ j d e. v.finished j d (ground arith);
            owner = λ k d e.
                let erased = lookup-erase (keys i) k s.m in
                let (j, of_key, has) = v.owner k d (ground arith) in
                (j, of_key, ground (arith, str_beq_iff (keys i) k));
            ended = λ k d q e f. ground (arith, v.ended k d q, lookup-erase (keys i) k s.m);
            waiting = λ j d e f. ground (
              arith,
              v.waiting j d,
              v.owns i c,
              lookup-erase (keys i) (keys j) s.m,
              str_beq_iff (keys i) (keys j),
            );
            served = λ j d q e f. ground (arith, v.served j d q);
            returns = λ j q e. ground (arith, v.returns j q, v.ended (keys i) c r, v.owns i c);
          })

    pub wake-Inv :
        (c : ℕ) (r : R) → s.place i ≡ waits c → s.calls c ≡ some r → Inv keys (wake i c s)
    unfolding wake
    wake-Inv c r at done =
        rw (done, wake)
          (record {
            bounded = v.bounded;
            fresh = v.fresh;
            apart = v.apart;
            owns = λ j d e. ground (arith, v.owns j d);
            single = λ j l d e f. ground (arith, v.single j l d);
            unfinished = λ j d e. ground (arith, v.unfinished j d);
            finished = λ j d e. v.finished j d (ground arith);
            owner = λ k d e. let (j, of_key, has) = v.owner k d e in (j, of_key, ground arith);
            ended = v.ended;
            waiting = λ j d e f. ground (arith, v.waiting j d);
            served = λ j d q e f. ground (arith, v.served j d q);
            returns = λ j q e. ground (arith, v.returns j q, v.served i c r);
          })
