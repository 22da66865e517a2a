-- ===== src/GeeCache/Cache/Kept.antt =====
-- The cache of a group as the pairs that it holds.
use distributed_study.Common.{
  ℕ, ◌+◌, ◌-◌, ◌≤◌, ◌<◌, ◌≡◌, ◌∙◌, refl, sym, ap, Str, Dict, lookup, lookup-erase, Option, none,
  some, [], ◌∷◌, str_key, arith, str_beq_iff, Option-cases, inl, inr, i64_half, if◌then◌else◌, ◌==◌,
}
use distributed_study.GeeCache.Lru
use distributed_study.GeeCache.Lru.Elems.{length-pairs}
use distributed_study.GeeCache.Lru.Invariant.{contents, cost, total}
use distributed_study.GeeCache.Lru.Eviction.{fit, kept}
use distributed_study.GeeCache.Lru.Methods.{touch, promote, get-promote, add-kept}
use distributed_study.GeeCache.Lru.History.{
  promote_le, total-kept-le, total-erase-le, length-erase-le,
}
use distributed_study.GeeCache.Cache.{ByteView, len, LruCache, Cache, init_lru, add, get}

-- What the cache holds, most recently used first.
unfoldable pub held : Cache → Dict Str ByteView
unfolding init_lru
held c = contents (init_lru c)

pub record IsValid (c : Cache) : Type 0 where
  pub lru : Lru.Invariant.IsValid len (init_lru c)
  pub limit : (init_lru c).max_bytes ≡ c.cache_bytes
  pub positive : 0 < c.cache_bytes
  pub small : c.cache_bytes < i64_half
  pub within : total len (held c) ≤ c.cache_bytes

-- A cache that was never used is valid and holds nothing, if its limit is positive and an int64.
pub new-IsValid :
    (limit : ℕ)
    → 0 < limit
    → limit < i64_half
    → IsValid (record { lru = none; cache_bytes = limit })
      × (held (record { lru = none; cache_bytes = limit }) ≡ [])
unfolding init_lru held
new-IsValid limit pos lo =
    let (v, none_held) = Lru.Methods.new-IsValid len limit none tt in
    (
      record {
        lru = v;
        limit = unfold Lru.new in refl;
        positive = pos;
        small = lo;
        within = rw none_held (omega arith);
      },
      none_held,
    )

lookup-fit :
    (b : ℕ) (k : Str) (v : ByteView) (s : Dict Str ByteView)
    → lookup k (fit len b s) ≡ some v
    → lookup k s ≡ some v
unfolding fit lookup
lookup-fit b k v [] h = h
lookup-fit b k v (p ∷ s) h = ground (arith, lookup-fit (b - cost len p) k v s)

-- What is kept of the pairs was there before.
lookup-kept :
    (limit : ℕ) (k : Str) (v : ByteView) (s : Dict Str ByteView)
    → lookup k (kept len limit s) ≡ some v
    → lookup k s ≡ some v
unfolding kept
lookup-kept limit k v s h = ground (arith, lookup-fit limit k v s)

lookup-touch :
    (k q : Str) (v : ByteView) (s : Dict Str ByteView)
    → lookup q (touch k v s) ≡ (if k == q then some v else lookup q s)
unfolding lookup
lookup-touch k q v s = ground (arith, lookup-erase k q s)

lookup-promote : (k q : Str) (s : Dict Str ByteView) → lookup q (promote k s) ≡ lookup q s
unfolding promote
lookup-promote k q s = elim (Option-cases (lookup k s)) [
  | inl e ↦ rw (e, promote) refl
  | inr (v, e) ↦ rw (e, promote) (ground (arith, lookup-touch k q v s, str_beq_iff k q))
]

-- `add` ends without a fault, and afterwards a key has the new value, an old one, or none.
pub add-IsValid :
    (k : Str) (v : ByteView) (c : Cache)
    → IsValid c
    → c.cache_bytes + cost len (k, v) < i64_half
    → (c' : Cache) × (add k v c ≡ some c')
      × IsValid c'
      × (c'.cache_bytes ≡ c.cache_bytes)
      × ((q : Str) (w : ByteView)
          → lookup q (held c') ≡ some w
          → (if k == q then some v else lookup q (held c)) ≡ some w)
unfolding add init_lru held
add-IsValid k v c valid room =
    let l = init_lru c in
    let s = touch k v (held c) in
    let (l', added, v', same, holds, _) =
      add-kept len (Lru.len l + 2) l k v valid.lru (rw (valid.limit) (valid.small))
        (omega (arith, total-erase-le len k (held c), room, valid.within))
        (unfold Lru.len in omega (arith, length-erase-le len k (held c), length-pairs l.ll)) in
    let is : contents l' ≡ kept len c.cache_bytes s =
      holds ∙ ap (λ (b : ℕ). kept len b s) valid.limit in
    let c' = record c { lru = some l' } in
    (
      c',
      rw (added, add) refl,
      record {
        lru = v';
        limit = same ∙ valid.limit;
        positive = valid.positive;
        small = valid.small;
        within = rw is (total-kept-le len c.cache_bytes s valid.positive);
      },
      refl,
      λ q w h.
          sym (lookup-touch k q v (held c))
          ∙ lookup-kept c.cache_bytes q w s (ap (lookup q) (sym is) ∙ h),
    )

module _ (k : Str) (limit : ℕ) where
  abbrev with_lru : Option LruCache → Cache
  with_lru o = record { lru = o; cache_bytes = limit }

  get_lru-IsValid :
      (o : Option LruCache)
      → IsValid (with_lru o)
      → (c' : Cache) × (get k (with_lru o) ≡ some (lookup k (held (with_lru o)), c'))
        × IsValid c'
        × (c'.cache_bytes ≡ limit)
        × ((q : Str) → lookup q (held c') ≡ lookup q (held (with_lru o)))
  unfolding get init_lru held
  get_lru-IsValid none valid =
      (with_lru none, unfold Lru.new lookup in refl, valid, refl, λ q. refl)
  get_lru-IsValid (some l) valid =
      let (l', got, v', is, same, _) = get-promote len l k valid.lru in
      let c' = with_lru (some l') in
      (
        c',
        rw (got, get) refl,
        record {
          lru = v';
          limit = same ∙ valid.limit;
          positive = valid.positive;
          small = valid.small;
          within = rw is (omega (arith, (promote_le len k (contents l)).0, valid.within));
        },
        refl,
        λ q. ap (lookup q) is ∙ lookup-promote k q (contents l),
      )

-- `get` returns what is held, and holds the same afterwards.
pub get-IsValid :
    (k : Str) (c : Cache)
    → IsValid c
    → (c' : Cache) × (get k c ≡ some (lookup k (held c), c'))
      × IsValid c'
      × (c'.cache_bytes ≡ c.cache_bytes)
      × ((q : Str) → lookup q (held c') ≡ lookup q (held c))
get-IsValid k c valid = get_lru-IsValid k c.cache_bytes c.lru valid
