-- ===== src/GeeCache/Lru/Eviction.antt =====
-- The eviction loop: what it drops, what it keeps, when it ends.
use distributed_study.Common.{
  ℕ, zero, suc, ◌+◌, ◌-◌, ◌≤◌, ◌<◌, ◌≡◌, ◌≢◌, ◌%◌, ◌∙◌, refl, sym, Str, Dict, Option, none, some,
  List, [], ◌∷◌, ◌++◌, ◌==◌, nat_key, str_key, true, false, leb, if◌then◌else◌, length, arith, ap,
  i64_mod, i64_half, lookup-erase, Option-cases, Bool-cases, inl, inr, drop, length-append,
  drop-length, drop-append_le,
}
use mathlib.Core.List.{foldr}
use distributed_study.GeeCache.Lru.{
  Elem, Cache, remove_id, back, remove_oldest, call_evicted, over, evict,
}
use distributed_study.GeeCache.Lru.Elems.{
  pairs, IsDistinct, remove_id-IsFresh, remove_id-IsDistinct, find_id-back, find_key-remove_id,
  length-pairs,
}
use distributed_study.GeeCache.Lru.Invariant.{contents, cost, total, IsValid, total-remove_id}

module _ {V : Type 0} where
  back-none : (l : List (Elem V)) → back l ≡ none → l ≡ []
  unfolding back
  back-none [] p = refl
  back-none (x ∷ []) p = ground arith
  back-none (x ∷ y ∷ l) p = let e = back-none (y ∷ l) p in ground arith

  pairs-back :
      (l : List (Elem V)) (e : Elem V)
      → IsDistinct l
      → back l ≡ some e
      → pairs l ≡ pairs (remove_id e.id l) ++ (e.key, e.value) ∷ []
  unfolding back remove_id
  pairs-back [] e d p = ground arith
  pairs-back (x ∷ []) e d p = ground arith
  pairs-back (x ∷ y ∷ l) e d p = ground (arith, pairs-back (y ∷ l) e, find_id-back (y ∷ l) e)

module _ {V : Type 0} (value_len : V → ℕ) where
  abbrev cost_of : Str × V → ℕ
  cost_of = cost value_len

  -- The longest prefix that takes up at most `budget` bytes.
  unfoldable pub fit : ℕ → Dict Str V → Dict Str V
  fit budget [] = []
  fit budget (p ∷ s) = if leb (cost_of p) budget then p ∷ fit (budget - cost_of p) s else []

  -- What is kept under a limit; 0 stands for no limit.
  unfoldable pub kept : ℕ → Dict Str V → Dict Str V
  unfolding fit
  kept limit s = if limit == 0 then s else fit limit s

  total-append :
      (s t : Dict Str V) → total value_len (s ++ t) ≡ total value_len s + total value_len t
  total-append [] t = omega arith
  total-append (p ∷ s) t = omega (arith, total-append s t)

  fit_all : (b : ℕ) (s : Dict Str V) → total value_len s ≤ b → fit b s ≡ s
  unfolding fit
  fit_all b [] h = refl
  fit_all b (p ∷ s) h = ground (arith, fit_all (b - cost_of p) s)

  fit-snoc :
      (b : ℕ) (s : Dict Str V) (p : Str × V)
      → b < total value_len (s ++ p ∷ [])
      → fit b (s ++ p ∷ []) ≡ fit b s
  unfolding fit
  fit-snoc b [] p h = ground arith
  fit-snoc b (q ∷ s) p h = ground (arith, fit-snoc (b - cost_of q) s p)

  pub length-fit-le : (b : ℕ) (s : Dict Str V) → length (fit b s) ≤ length s
  unfolding fit
  length-fit-le b [] = omega arith
  length-fit-le b (p ∷ s) = ground (arith, length-fit-le (b - cost_of p) s)

  module _ {W : Type 0} where
    remove_oldest-IsValid :
        (c : Cache V W) → IsValid value_len c → IsValid value_len (remove_oldest value_len c)
    unfolding remove_oldest
    remove_oldest-IsValid c v = elim (Option-cases (back c.ll)) [
      | inl e ↦ rw (e, remove_oldest) v
      | inr (x, e) ↦
          let here = find_id-back c.ll x v.distinct e in
          rw (e, remove_oldest)
            (record {
              index = λ k. ground (
                arith,
                v.index k,
                lookup-erase x.key k c.catche,
                find_key-remove_id x.id k c.ll x,
              );
              distinct = remove_id-IsDistinct x.id c.ll v.distinct;
              fresh = remove_id-IsFresh c.next_id x.id c.ll v.fresh;
              counted = omega (arith, total-remove_id value_len x.id c.ll x here, v.counted);
            })
    ]

    -- The callback is told of the pairs of a list, the last one first.
    unfoldable pub notify : Option (Str → V → W → W) → Dict Str V → W → W
    notify f s w = foldr (λ p w'. call_evicted f p.0 p.1 w') w s

    -- What the loop leaves of a cache, beside the bytes that fit.
    pub record IsTrimmed (c c' : Cache V W) : Type 0 where
      pub valid : IsValid value_len c'
      pub limit : c'.max_bytes ≡ c.max_bytes
      pub callback : c'.one_evicted ≡ c.one_evicted
      pub holds : contents c' ≡ kept c.max_bytes (contents c)
      pub told :
          c'.world
          ≡ notify c.one_evicted
              (drop (length (kept c.max_bytes (contents c))) (contents c))
              c.world

    over_iff_total :
        (c : Cache V W)
        → IsValid value_len c
        → c.max_bytes < i64_half
        → total value_len (contents c) < i64_half
        → over value_len c ≡ (
            if c.max_bytes == 0
            then false
            else leb (c.max_bytes + 1) (total value_len (contents c)))
    unfolding over
    over_iff_total c v h t = let n = v.counted in ground arith

    notify-snoc :
        (f : Option (Str → V → W → W)) (s : Dict Str V) (p : Str × V) (w : W)
        → notify f (s ++ p ∷ []) w ≡ notify f s (call_evicted f p.0 p.1 w)
    unfolding notify
    notify-snoc f [] p w = refl
    notify-snoc f (q ∷ s) p w = ap (call_evicted f q.0 q.1) (notify-snoc f s p w)

    under_trims :
        (c : Cache V W)
        → IsValid value_len c
        → c.max_bytes < i64_half
        → total value_len (contents c) < i64_half
        → over value_len c ≡ false
        → IsTrimmed c c
    unfolding kept notify
    under_trims c v h t e =
        let all : kept c.max_bytes (contents c) ≡ contents c =
          ground (arith, over_iff_total c v h t, fit_all c.max_bytes (contents c)) in
        record {
          valid = v;
          limit = refl;
          callback = refl;
          holds = sym all;
          told = rw (all, drop-length (contents c)) refl;
        }

    remove_oldest_drops :
        (c : Cache V W)
        → IsValid value_len c
        → c.max_bytes < i64_half
        → over value_len c ≡ true
        → (p : Str × V) × (contents c ≡ contents (remove_oldest value_len c) ++ p ∷ [])
          × ((remove_oldest value_len c).max_bytes ≡ c.max_bytes)
          × ((remove_oldest value_len c).one_evicted ≡ c.one_evicted)
          × ((remove_oldest value_len c).world ≡ call_evicted c.one_evicted p.0 p.1 c.world)
    unfolding remove_oldest over
    remove_oldest_drops c v h o = elim (Option-cases (back c.ll)) [
      | inl e ↦
          let gone : c.ll ≡ [] = back-none c.ll e in
          let none_left : c.nbytes ≡ 0 =
            v.counted ∙ ap (λ l. total value_len (pairs l) % i64_mod) gone in
          absurd (ground arith)
      | inr (x, e) ↦
          rw (e, remove_oldest) ((x.key, x.value), pairs-back c.ll x v.distinct e, refl, refl, refl)
    ]

    over→lt :
        (c : Cache V W)
        → IsValid value_len c
        → c.max_bytes < i64_half
        → total value_len (contents c) < i64_half
        → over value_len c ≡ true
        → (c.max_bytes ≢ 0) × (c.max_bytes < total value_len (contents c))
    over→lt c v h t o = ground (arith, over_iff_total c v h t)

    trim_step :
        (c c' : Cache V W)
        → IsValid value_len c
        → c.max_bytes < i64_half
        → total value_len (contents c) < i64_half
        → over value_len c ≡ true
        → IsTrimmed (remove_oldest value_len c) c'
        → IsTrimmed c c'
    unfolding kept
    trim_step c c' v h t o i =
        let (p, split, same, callback, told) = remove_oldest_drops c v h o in
        let s = contents (remove_oldest value_len c) in
        let (limited, big) = over→lt c v h t o in
        let keeps : kept c.max_bytes (contents c) ≡ fit c.max_bytes s =
          ground (arith, fit-snoc c.max_bytes s p) in
        let kept_of : kept (remove_oldest value_len c).max_bytes s ≡ fit c.max_bytes s =
          ground arith in
        record {
          valid = i.valid;
          limit = i.limit ∙ same;
          callback = i.callback ∙ callback;
          holds = i.holds ∙ kept_of ∙ sym keeps;
          told = ground (
            arith,
            i.told,
            notify-snoc c.one_evicted (drop (length (fit c.max_bytes s)) s) p c.world,
            drop-append_le (length (fit c.max_bytes s)) s (p ∷ []),
            length-fit-le c.max_bytes s,
          );
        }

    -- With fuel for each element the loop ends, for every limit that is not negative.
    pub evict_trims :
        (fuel : ℕ) (c : Cache V W)
        → IsValid value_len c
        → c.max_bytes < i64_half
        → total value_len (contents c) < i64_half
        → length c.ll < fuel
        → (c' : Cache V W) × (evict value_len fuel c ≡ some c') × IsTrimmed c c'
    unfolding evict
    evict_trims zero c v h t n = absurd (omega arith)
    evict_trims (suc fuel) c v h t n = elim (Bool-cases (over value_len c)) [
      | inl o ↦
          let s = contents (remove_oldest value_len c) in
          let (p, split, same, _, _) = remove_oldest_drops c v h o in
          let (c', ends, trimmed) =
            evict_trims fuel (remove_oldest value_len c) (remove_oldest-IsValid c v) (omega arith)
              (omega (arith, ap (total value_len) split, total-append s (p ∷ [])))
              (omega (
                arith,
                ap length split,
                length-append s (p ∷ []),
                length-pairs c.ll,
                length-pairs (remove_oldest value_len c).ll,
              )) in
          (c', rw (o, evict) ends, trim_step c c' v h t o trimmed)
      | inr u ↦ (c, rw (u, evict) refl, under_trims c v h t u)
    ]

    remove_oldest_shrinks :
        (c : Cache V W)
        → IsValid value_len c
        → ((remove_oldest value_len c).max_bytes ≡ c.max_bytes)
          × (total value_len (contents (remove_oldest value_len c)) ≤ total value_len (contents c))
    unfolding remove_oldest
    remove_oldest_shrinks c v = elim (Option-cases (back c.ll)) [
      | inl e ↦ rw (e, remove_oldest) (refl, omega arith)
      | inr (x, e) ↦
          let here = find_id-back c.ll x v.distinct e in
          rw (e, remove_oldest) (refl, omega (arith, total-remove_id value_len x.id c.ll x here))
    ]

    -- On a valid cache whose bytes fit an int64, with a limit that is a negative int64, the
    -- loop of Add runs out of any fuel.
    pub evict_hangs :
        (fuel : ℕ) (c : Cache V W)
        → IsValid value_len c
        → i64_half ≤ c.max_bytes
        → c.max_bytes < i64_mod
        → total value_len (contents c) < i64_half
        → evict value_len fuel c ≡ none
    unfolding evict over
    evict_hangs zero c v lo hi t = refl
    evict_hangs (suc fuel) c v lo hi t =
        let (same, less) = remove_oldest_shrinks c v in
        let again : evict value_len fuel (remove_oldest value_len c) ≡ none =
          evict_hangs fuel (remove_oldest value_len c) (remove_oldest-IsValid c v) (omega arith)
            (omega arith) (omega arith) in
        let n = v.counted in ground arith
