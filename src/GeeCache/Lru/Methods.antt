-- ===== src/GeeCache/Lru/Methods.antt =====
-- `New`, `Get` and `Add` against the list of pairs that the cache stands for.
use distributed_study.Common.{
  ℕ, ◌+◌, ◌≤◌, ◌<◌, ◌≡◌, ◌⊎◌, ◌%◌, ◌∙◌, refl, Str, Dict, lookup, erase, insert, Option, none, some,
  List, [], ◌∷◌, nat_key, str_key, str_beq_iff, length, arith, ap, i64_mod, i64_half, lookup-insert,
  Option-cases, inl, inr, add64, sub64, drop,
}
use distributed_study.GeeCache.Lru.{Elem, Cache, find_id, remove_id, new, get, store, add}
use distributed_study.GeeCache.Lru.Elems.{
  find_key, pairs, IsDistinct, remove_id-IsFresh, remove_id-IsDistinct, find_key_of_id,
  find_id-fresh, find_id-find_key, key-find_key, find_key-remove_id, find_id-remove_id,
  find_id-IsFresh, IsFresh-suc, lookup-pairs, pairs-remove_id, length-pairs, erase_absent,
}
use distributed_study.GeeCache.Lru.Invariant.{contents, cost, total, IsValid, total-remove_id}
use distributed_study.GeeCache.Lru.Eviction.{kept, notify, evict_trims}

-- A key and its value in front, with no other entry of the key.
abbrev pub touch : {V : Type 0} → Str → V → Dict Str V → Dict Str V
touch k v s = (k, v) ∷ erase k s

-- What `get` makes of the pairs: a hit moves to the front.
unfoldable pub promote : {V : Type 0} → Str → Dict Str V → Dict Str V
promote k s = elim (lookup k s) [ none ↦ s | some v ↦ touch k v s ]

module _ {V : Type 0} (value_len : V → ℕ) where
  total-touch :
      (l : List (Elem V)) (e : Elem V) (value : V)
      → IsDistinct l
      → find_id e.id l ≡ some e
      → total value_len (touch e.key value (pairs l)) + value_len e.value
        ≡ total value_len (pairs l) + value_len value
  total-touch l e value d here = omega (
    arith,
    total-remove_id value_len e.id l e here,
    ap (total value_len) (pairs-remove_id e.id l e d here),
  )

module _ {V W : Type 0} (value_len : V → ℕ) where
  -- A new cache is valid and empty.
  pub new-IsValid :
      (limit : ℕ) (f : Option (Str → V → W → W)) (w : W)
      → IsValid value_len (new limit f w) × (contents (new limit f w) ≡ [])
  unfolding new lookup find_key
  new-IsValid limit f w =
      (record { index = λ k. refl; distinct = tt; fresh = tt; counted = refl }, refl)

  -- An element put in front of the list that it was taken from, perhaps with a new value.
  refront-IsValid :
      (c : Cache V W) (e : Elem V) (value : V) (n : ℕ)
      → IsValid value_len c
      → find_id e.id c.ll ≡ some e
      → n ≡ total value_len (touch e.key value (contents c)) % i64_mod
      → IsValid value_len
          (record c { ll = record e { value = value } ∷ remove_id e.id c.ll; nbytes = n })
  unfolding find_key
  refront-IsValid c e value n v here size = record {
    index = λ k. ground (
      arith,
      v.index k,
      find_key-remove_id e.id k c.ll e,
      str_beq_iff e.key k,
      find_key_of_id e.id c.ll e,
    );
    distinct = ground (
      arith,
      str_beq_iff e.key e.key,
      find_key-remove_id e.id e.key c.ll e,
      find_id-remove_id e.id c.ll,
      remove_id-IsDistinct e.id c.ll,
    );
    fresh = (
      find_id-IsFresh c.next_id e.id c.ll e v.fresh here,
      remove_id-IsFresh c.next_id e.id c.ll v.fresh,
    );
    counted = rw (pairs-remove_id, v.distinct, here) size;
  }

  -- `catche` leads to the element of the key, if there is one.
  pointer :
      (c : Cache V W) (key : Str)
      → IsValid value_len c
      → ((e : Elem V) × (lookup key c.catche ≡ some e.id)
          × (find_id e.id c.ll ≡ some e)
          × (e.key ≡ key)
          × (lookup key (contents c) ≡ some e.value))
        ⊎ ((lookup key c.catche ≡ none)
            × (find_key key c.ll ≡ none)
            × (lookup key (contents c) ≡ none))
  pointer c key v = elim (Option-cases (find_key key c.ll)) [
    | inl miss ↦ inr (ground (arith, v.index key), miss, ground (arith, lookup-pairs key c.ll))
    | inr (e, hit) ↦ inl (
      e,
      ground (arith, v.index key),
      find_id-find_key key c.ll e v.distinct hit,
      key-find_key key c.ll e hit,
      ground (arith, lookup-pairs key c.ll),
    )
  ]

  -- Get on a valid cache does not fault: it returns the value stored under the key if there is
  -- one, moves a hit to the front and nothing else, keeps the cache valid, and keeps the limit
  -- and the byte count.
  pub get-promote :
      (c : Cache V W) (key : Str)
      → IsValid value_len c
      → (c' : Cache V W) × (get key c ≡ some (c', lookup key (contents c)))
        × IsValid value_len c'
        × (contents c' ≡ promote key (contents c))
        × (c'.max_bytes ≡ c.max_bytes)
        × (c'.nbytes ≡ c.nbytes)
  unfolding get promote
  get-promote c key v = elim (pointer c key v) [
    | inl (e, known, here, same, stored) ↦ (
      record c { ll = e ∷ remove_id e.id c.ll },
      ground arith,
      refront-IsValid c e e.value c.nbytes v here
          (omega (arith, v.counted, total-touch value_len c.ll e e.value v.distinct here)),
      ground (arith, pairs-remove_id e.id c.ll e),
      refl,
      refl,
    )
    | inr (unknown, _, absent) ↦ (c, ground arith, v, ground arith, refl, refl)
  ]

  -- Before the loop, `Add` has put the pair in front and counted its bytes.
  store-touch :
      (c : Cache V W) (key : Str) (value : V)
      → IsValid value_len c
      → (c' : Cache V W) × (store value_len key value c ≡ some c')
        × IsValid value_len c'
        × (contents c' ≡ touch key value (contents c))
        × (c'.max_bytes ≡ c.max_bytes)
        × (c'.one_evicted ≡ c.one_evicted)
        × (c'.world ≡ c.world)
  unfolding store find_key
  store-touch c key value v = elim (pointer c key v) [
    | inl (e, known, here, same, stored) ↦ (
      record c {
        ll = record e { value = value } ∷ remove_id e.id c.ll;
        nbytes = add64 c.nbytes (sub64 (value_len value) (value_len e.value));
      },
      ground arith,
      refront-IsValid c e value _ v here
          (omega (arith, v.counted, total-touch value_len c.ll e value v.distinct here)),
      ground (arith, pairs-remove_id e.id c.ll e),
      refl,
      refl,
      refl,
    )
    | inr (unknown, fresh_key, absent) ↦ (
      record c {
        ll = record { id = c.next_id; key = key; value = value } ∷ c.ll;
        catche = insert key c.next_id c.catche;
        nbytes = add64 c.nbytes (add64 (length key) (value_len value));
        next_id = c.next_id + 1;
      },
      ground arith,
      record {
        index = λ k. ground (arith, v.index k, lookup-insert key k c.next_id c.catche);
        distinct = (fresh_key, find_id-fresh c.next_id c.ll v.fresh, v.distinct);
        fresh = (omega arith, IsFresh-suc c.next_id c.ll v.fresh);
        counted = omega (arith, v.counted);
      },
      ground (arith, erase_absent key c.ll),
      refl,
      refl,
      refl,
    )
  ]

  -- Add on a valid cache, with a limit that is not negative, byte counts that fit an int64 and
  -- fuel for each pair and the new one, ends without a fault in a valid cache with the same
  -- limit; the pair is put in front, the longest prefix that fits the limit is kept, and
  -- OneEvicted is called on the others, the least recent one first.
  pub add-kept :
      (fuel : ℕ) (c : Cache V W) (key : Str) (value : V)
      → IsValid value_len c
      → c.max_bytes < i64_half
      → total value_len (touch key value (contents c)) < i64_half
      → length (touch key value (contents c)) < fuel
      → let s = touch key value (contents c) in
        (c' : Cache V W) × (add value_len fuel key value c ≡ some c')
        × IsValid value_len c'
        × (c'.max_bytes ≡ c.max_bytes)
        × (contents c' ≡ kept value_len c.max_bytes s)
        × (c'.world
            ≡ notify value_len c.one_evicted
                (drop (length (kept value_len c.max_bytes s)) s)
                c.world)
  unfolding add
  add-kept fuel c key value v h t n =
      let (c', stored, valid, holds, same, callback, quiet) = store-touch c key value v in
      let (c'', ends, trimmed) =
        evict_trims value_len fuel c' valid (omega arith) (rw holds t)
          (omega (arith, ap length holds, length-pairs c'.ll)) in
      (
        c'',
        rw (stored, add) ends,
        trimmed.valid,
        trimmed.limit ∙ same,
        ground (arith, trimmed.holds),
        ground (arith, trimmed.told),
      )

  -- A Get of the key right after an Add returns the added value, if the cache is valid, has no
  -- limit or one that is not negative and that the pair fits by itself, byte counts fit an
  -- int64, and there is fuel for each pair and the new one.
  get-add :
      (fuel : ℕ) (c : Cache V W) (key : Str) (value : V)
      → IsValid value_len c
      → c.max_bytes < i64_half
      → total value_len (touch key value (contents c)) < i64_half
      → length (touch key value (contents c)) < fuel
      → (c.max_bytes ≡ 0) ⊎ (cost value_len (key, value) ≤ c.max_bytes)
      → (c' : Cache V W) × (c'' : Cache V W) × (add value_len fuel key value c ≡ some c')
        × (get key c' ≡ some (c'', some value))
  unfolding kept lookup
  get-add fuel c key value v h t n room =
      let (c', added, valid, _, holds, _) = add-kept fuel c key value v h t n in
      let (c'', got, _, _, _, _) = get-promote c' key valid in
      let there : lookup key (contents c') ≡ some value =
        ground (arith, holds, str_beq_iff key key) in
      (c', c'', added, ground (arith, got))
