-- ===== src/GeeCache/Lru/History.antt =====
-- Whole histories of calls, against a list of pairs that is cut back to the limit.
use distributed_study.Common.{
  ℕ, ◌+◌, ◌-◌, ◌≤◌, ◌<◌, ◌≡◌, ◌∙◌, refl, Str, Dict, lookup, erase, Option, some, ◌>>=◌, List, [],
  ◌∷◌, str_key, length, arith, str_beq_iff, Option-cases, inl, inr, i64_half, All,
}
use mathlib.Core.List.{foldl}
use distributed_study.GeeCache.Lru.{Cache}
use distributed_study.GeeCache.Lru
use distributed_study.GeeCache.Lru.Invariant.{contents, cost, total, IsValid}
use distributed_study.GeeCache.Lru.Eviction.{fit, kept, length-fit-le}
use distributed_study.GeeCache.Lru.Methods.{touch, promote, get-promote, add-kept}

pub data Call (V : Type 0) : Type 0 where
  get : Str → Call V
  add : Str → V → Call V

module _ {V : Type 0} (value_len : V → ℕ) where
  unfoldable pub run : {W : Type 0} → ℕ → List (Call V) → Cache V W → Option (Cache V W)
  run fuel [] c = some c
  run fuel (get k ∷ calls) c = do (c', _) ← Lru.get k c; run fuel calls c'
  run fuel (add k v ∷ calls) c = do c' ← Lru.add value_len fuel k v c; run fuel calls c'

  -- What a call makes of the pairs.
  unfoldable pub note : ℕ → Dict Str V → Call V → Dict Str V
  note limit s (get k) = promote k s
  note limit s (add k v) = kept value_len limit (touch k v s)

  -- The limit leaves room for the pair in an int64.
  abbrev pub IsSmall : ℕ → Call V → Type 0
  IsSmall limit (get k) = Unit {0}
  IsSmall limit (add k v) = limit + cost value_len (k, v) < i64_half

  pub total-erase-le : (k : Str) (s : Dict Str V) → total value_len (erase k s) ≤ total value_len s
  unfolding erase
  total-erase-le k [] = omega arith
  total-erase-le k (p ∷ s) = ground (arith, total-erase-le k s)

  pub length-erase-le : (k : Str) (s : Dict Str V) → length (erase k s) ≤ length s
  unfolding erase
  length-erase-le k [] = omega arith
  length-erase-le k (p ∷ s) = ground (arith, length-erase-le k s)

  touch_le :
      (k : Str) (v : V) (s : Dict Str V)
      → lookup k s ≡ some v
      → (total value_len (touch k v s) ≤ total value_len s) × (length (touch k v s) ≤ length s)
  unfolding lookup erase
  touch_le k v [] h = ground arith
  touch_le k v ((j, w) ∷ s) h =
      ground (arith, str_beq_iff j k, touch_le k v s, total-erase-le k s, length-erase-le k s)

  pub promote_le :
      (k : Str) (s : Dict Str V)
      → (total value_len (promote k s) ≤ total value_len s) × (length (promote k s) ≤ length s)
  unfolding promote
  promote_le k s = elim (Option-cases (lookup k s)) [
    | inl e ↦ rw (e, promote) (omega arith)
    | inr (v, e) ↦ rw (e, promote) (touch_le k v s e)
  ]

  total-fit-le : (b : ℕ) (s : Dict Str V) → total value_len (fit value_len b s) ≤ b
  unfolding fit
  total-fit-le b [] = omega arith
  total-fit-le b (p ∷ s) = ground (arith, total-fit-le (b - cost value_len p) s)

  length-kept-le : (limit : ℕ) (s : Dict Str V) → length (kept value_len limit s) ≤ length s
  unfolding kept
  length-kept-le limit s = ground (arith, length-fit-le value_len limit s)

  pub total-kept-le :
      (limit : ℕ) (s : Dict Str V) → 0 < limit → total value_len (kept value_len limit s) ≤ limit
  unfolding kept
  total-kept-le limit s h = ground (arith, total-fit-le limit s)

  -- From a valid cache within a positive limit below 2^63, any list of calls whose pairs leave
  -- room in an int64 runs without fault or hang, given fuel for all pairs; the result is valid,
  -- holds what the calls make of the plain list of pairs, and takes up at most the limit.
  pub run-note :
      {W : Type 0} (limit fuel : ℕ) (calls : List (Call V)) (c : Cache V W)
      → IsValid value_len c
      → c.max_bytes ≡ limit
      → 0 < limit
      → limit < i64_half
      → total value_len (contents c) ≤ limit
      → All (IsSmall limit) calls
      → length (contents c) + length calls < fuel
      → (c' : Cache V W) × (run fuel calls c ≡ some c')
        × IsValid value_len c'
        × (contents c' ≡ foldl (note limit) (contents c) calls)
        × (total value_len (contents c') ≤ limit)
  unfolding run note
  run-note limit fuel [] c v m pos lo t small n = (c, refl, v, refl, t)
  run-note limit fuel (get k ∷ calls) c v m pos lo t small n =
      let (c1, got, valid, holds, same, _) = get-promote value_len c k v in
      let (less, fewer) = promote_le k (contents c) in
      let (c', ran, valid'', is, within) =
        run-note limit fuel calls c1 valid (same ∙ m) pos lo (rw holds (omega arith)) small.1
          (rw holds (omega arith)) in
      (c', rw (got, run) ran, valid'', ground (arith, is, holds), within)
  run-note limit fuel (add k v ∷ calls) c valid m pos lo t small n =
      let s = touch k v (contents c) in
      let (c1, added, valid', same, holds, _) =
        add-kept value_len fuel c k v valid (rw m lo)
          (omega (arith, total-erase-le k (contents c), small.0))
          (omega (arith, length-erase-le k (contents c))) in
      let (c', ran, valid'', is, within) =
        run-note limit fuel calls c1 valid' (same ∙ m) pos lo
          (rw (holds, m) (total-kept-le limit s pos)) small.1
          (rw (holds, m) (omega (arith, length-kept-le limit s, length-erase-le k (contents c)))) in
      (c', rw (added, run) ran, valid'', ground (arith, is, holds, m), within)
