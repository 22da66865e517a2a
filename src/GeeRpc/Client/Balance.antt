-- ===== src/GeeRpc/Client/Balance.antt =====
-- The balance of a call, and the ways in which an action can move it.
use distributed_study.Common.{
  ℕ, ◌+◌, ◌≤◌, ◌<◌, ◌≡◌, refl, sym, Dict, lookup, insert, erase, none, some, List, [], ◌∷◌, ◌++◌,
  nat_key, Bool, true, false, arith,
}
use distributed_study.GeeRpc.Client.{Client, Receiver, receiving, failed, ended, new_client_codec}
use distributed_study.GeeRpc.Client.Accounts.{
  one, count, count-append, vals, IsUnique, IsBelow, lookup-IsBelow, IsBelow-mono, insert-IsBelow,
  erase-IsBelow, insert-IsUnique, erase-IsUnique, count-insert, count-erase,
}

-- The pending calls that `terminateCalls` has still to signal.
abbrev pub open_calls : Receiver → Dict ℕ ℕ → List ℕ
open_calls ended m = []
open_calls receiving m = vals m
open_calls (failed e) m = vals m

abbrev pub is_live : Receiver → Bool
is_live ended = false
is_live receiving = true
is_live (failed e) = true

pub open_dead : (rc : Receiver) (m : Dict ℕ ℕ) → is_live rc ≡ false → open_calls rc m ≡ []
open_dead ended m h = refl
open_dead receiving m h = absurd (ground arith)
open_dead (failed e) m h = absurd (ground arith)

open_live : (rc : Receiver) (m : Dict ℕ ℕ) → is_live rc ≡ true → open_calls rc m ≡ vals m
open_live ended m h = absurd (ground arith)
open_live receiving m h = refl
open_live (failed e) m h = refl

open_same :
    (a b : Receiver) (m : Dict ℕ ℕ) → is_live a ≡ is_live b → open_calls a m ≡ open_calls b m
open_same ended b m h = sym (open_dead b m (sym h))
open_same receiving b m h = sym (open_live b m (sym h))
open_same (failed e) b m h = sym (open_live b m (sym h))

pub open_le : (r : ℕ) (rc : Receiver) (m : Dict ℕ ℕ) → count r (open_calls rc m) ≤ count r (vals m)
unfolding count
open_le r ended m = omega arith
open_le r receiving m = omega arith
open_le r (failed e) m = omega arith

-- How often a call was signalled or waits for it.
abbrev pub balance : ℕ → Client → ℕ
balance r c = count r c.signals + count r (open_calls c.receiver c.pending)

-- Numbers stand once in the map and below `seq`; a call that was not made is nowhere; once
-- `receive` has ended no call can be sent any more.
pub record Inv (c : Client) : Type 0 where
  pub unique : IsUnique c.pending
  pub below : IsBelow c.seq c.pending
  pub unmade : (r : ℕ) → c.next_call ≤ r → count r c.signals + count r (vals c.pending) ≡ 0
  pub stopped : is_live c.receiver ≡ false → (c.shutdown ≡ true) × (c.sender ≡ none)

pub new-Inv : Inv new_client_codec
unfolding new_client_codec count vals
new-Inv = record {
  unique = tt;
  below = tt;
  unmade = λ r h. refl;
  stopped = λ e. absurd (ground arith);
}

-- The invariant goes on, the balance of each call grows by `new`, and a call
-- made meanwhile is one of those.
pub record Moves (c c' : Client) (new : ℕ → ℕ) : Type 0 where
  pub inv : Inv c'
  pub grows : (r : ℕ) → balance r c' ≡ balance r c + new r
  pub numbers : c'.seq ≤ c.seq + 1
  pub makes : (r : ℕ) → c.next_call ≤ r → r < c'.next_call → new r ≡ 1

abbrev pub nothing : ℕ → ℕ
nothing _ = 0

module _ (c c' : Client) (v : Inv c) where
  -- Nothing happens to any call.
  pub keeps :
      c'.pending ≡ c.pending
      → c'.signals ≡ c.signals
      → c'.seq ≡ c.seq
      → c'.next_call ≡ c.next_call
      → is_live c'.receiver ≡ is_live c.receiver
      → (is_live c'.receiver ≡ false → (c'.shutdown ≡ true) × (c'.sender ≡ none))
      → Moves c c' nothing
  keeps p s q n l st = record {
    inv = record {
      unique = rw p v.unique;
      below = rw (p, q) v.below;
      unmade = λ r h. rw (p, s) (v.unmade r (rw (← n) h));
      stopped = st;
    };
    grows = λ r. ground (arith, open_same c'.receiver c.receiver c.pending l);
    numbers = omega arith;
    makes = λ r lo hi. ground arith;
  }

  -- A pending call is taken out and signalled.
  pub finishes :
      (n q : ℕ)
      → lookup n c.pending ≡ some q
      → c'.pending ≡ erase n c.pending
      → c'.signals ≡ c.signals ++ q ∷ []
      → c'.seq ≡ c.seq
      → c'.next_call ≡ c.next_call
      → is_live c.receiver ≡ true
      → is_live c'.receiver ≡ true
      → Moves c c' nothing
  unfolding count
  finishes n q found p s e m l l' =
      let total = λ (r : ℕ). count-erase n r c.pending v.unique in
      let after = λ (r : ℕ). count-append r c.signals (q ∷ []) in
      record {
        inv = record {
          unique = rw p (erase-IsUnique n c.pending v.unique);
          below = rw (p, e) (erase-IsBelow c.seq n c.pending v.below);
          unmade = λ r h. ground (arith, total r, after r, v.unmade r);
          stopped = λ dead. absurd (ground arith);
        };
        grows = λ r. ground (
          arith,
          total r,
          after r,
          open_live c.receiver c.pending l,
          open_live c'.receiver c'.pending l',
        );
        numbers = omega arith;
        makes = λ r lo hi. ground arith;
      }

  -- A number is taken out under which no call is pending.
  pub misses :
      (n : ℕ)
      → lookup n c.pending ≡ none
      → c'.pending ≡ erase n c.pending
      → c'.signals ≡ c.signals
      → c'.seq ≡ c.seq
      → c'.next_call ≡ c.next_call
      → is_live c.receiver ≡ true
      → is_live c'.receiver ≡ true
      → Moves c c' nothing
  misses n absent p s e m l l' =
      let total = λ (r : ℕ). count-erase n r c.pending v.unique in
      record {
        inv = record {
          unique = rw p (erase-IsUnique n c.pending v.unique);
          below = rw (p, e) (erase-IsBelow c.seq n c.pending v.below);
          unmade = λ r h. ground (arith, total r, v.unmade r);
          stopped = λ dead. absurd (ground arith);
        };
        grows = λ r.
            ground (
              arith,
              total r,
              open_live c.receiver c.pending l,
              open_live c'.receiver c'.pending l',
            );
        numbers = omega arith;
        makes = λ r lo hi. ground arith;
      }

  -- A new call is pending under the next number.
  pub registers :
      c'.pending ≡ insert c.seq c.next_call c.pending
      → c'.signals ≡ c.signals
      → c'.seq ≡ c.seq + 1
      → c'.next_call ≡ c.next_call + 1
      → is_live c.receiver ≡ true
      → is_live c'.receiver ≡ true
      → Moves c c' (one c.next_call)
  registers p s e m l l' =
      let absent = lookup-IsBelow c.seq c.pending v.below in
      let total = λ (r : ℕ). count-insert c.seq c.next_call r c.pending absent in
      record {
        inv = record {
          unique = rw p (insert-IsUnique c.seq c.next_call c.pending v.unique);
          below =
              rw (p, e)
                (insert-IsBelow (c.seq + 1) c.seq c.next_call c.pending (omega arith)
                  (IsBelow-mono c.seq (c.seq + 1) c.pending (omega arith) v.below));
          unmade = λ r h. ground (arith, total r, v.unmade r);
          stopped = λ dead. absurd (ground arith);
        };
        grows = λ r.
            ground (
              arith,
              total r,
              open_live c.receiver c.pending l,
              open_live c'.receiver c'.pending l',
            );
        numbers = omega arith;
        makes = λ r lo hi. ground arith;
      }

  -- A new call is signalled at once.
  pub refuses :
      c'.pending ≡ c.pending
      → c'.signals ≡ c.signals ++ c.next_call ∷ []
      → c'.seq ≡ c.seq
      → c'.next_call ≡ c.next_call + 1
      → c'.receiver ≡ c.receiver
      → c'.shutdown ≡ c.shutdown
      → c'.sender ≡ c.sender
      → Moves c c' (one c.next_call)
  unfolding count
  refuses p s e m rc sh se =
      let after = λ (r : ℕ). count-append r c.signals (c.next_call ∷ []) in
      record {
        inv = record {
          unique = rw p v.unique;
          below = rw (p, e) v.below;
          unmade = λ r h. ground (arith, after r, v.unmade r);
          stopped = λ dead. rw (sh, se) (v.stopped (rw rc at dead));
        };
        grows = λ r. ground (arith, after r);
        numbers = omega arith;
        makes = λ r lo hi. ground arith;
      }

  -- All pending calls are signalled, and `receive` ends.
  pub ends :
      c'.pending ≡ c.pending
      → c'.signals ≡ c.signals ++ vals c.pending
      → c'.seq ≡ c.seq
      → c'.next_call ≡ c.next_call
      → is_live c.receiver ≡ true
      → c'.receiver ≡ ended
      → c'.shutdown ≡ true
      → c'.sender ≡ none
      → Moves c c' nothing
  unfolding count
  ends p s e m l rc sh se =
      let after = λ (r : ℕ). count-append r c.signals (vals c.pending) in
      record {
        inv = record {
          unique = rw p v.unique;
          below = rw (p, e) v.below;
          unmade = λ r h. ground (arith, after r, v.unmade r);
          stopped = λ dead. (sh, se);
        };
        grows = λ r. ground (arith, after r, open_live c.receiver c.pending l);
        numbers = omega arith;
        makes = λ r lo hi. ground arith;
      }
