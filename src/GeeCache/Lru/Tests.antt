-- ===== src/GeeCache/Lru/Tests.antt =====
-- The cases of geecache/lru/lru_test.go, and the theorems at concrete caches.
use distributed_study.Common.{
  ◌≤◌, ◌≡◌, refl, Str, lookup, insert, erase, bytes, none, some, ◌>>=◌, List, [], ◌∷◌, ◌++◌,
  str_key, str_beq, str_beq_iff, length, arith,
}
use mathlib.Core.List.{foldl}
use distributed_study.GeeCache.Lru.{
  Cache, find_id, remove_id, back, new, get, call_evicted, remove_oldest, over, evict, store, add,
  len,
}
use distributed_study.GeeCache.Lru.Elems.{find_key}
use distributed_study.GeeCache.Lru.Invariant.{contents, id_of, total, IsValid}
use distributed_study.GeeCache.Lru.Eviction.{fit, kept, notify, evict_hangs}
use distributed_study.GeeCache.Lru.Methods.{promote, get-promote, add-kept}
use distributed_study.GeeCache.Lru.History.{Call, run, note, run-note}

program : Unit {0}
unfolding find_id remove_id back new get call_evicted remove_oldest over evict store add len lookup
    insert erase str_beq fit kept notify promote run note
program = tt

-- `OneEvicted` of the tests appends the key to a list.
abbrev log : Str → Str → List Str → List Str
log k v w = w ++ k ∷ []

abbrev start : Cache Str (List Str)
start = unfold new in new 10 (some log) []

abbrev on_evicted : List (Call Str)
on_evicted =
    Call.add (bytes "key1") (bytes "123456")
    ∷ Call.add (bytes "k2") (bytes "k2")
    ∷ Call.add (bytes "k3") (bytes "k3")
    ∷ Call.add (bytes "k4") (bytes "k4")
    ∷ []

-- `TestOnEvicted`.
told_keys :
    (do c ← run length 9 on_evicted start; some c.world) ≡ some (bytes "key1" ∷ bytes "k2" ∷ [])
unfolding program
told_keys = refl

-- `TestRemoveoldest`.
removed :
    (do
      c ←
          run length 9
            (Call.add (bytes "key1") (bytes "value1")
              ∷ Call.add (bytes "key2") (bytes "value2")
              ∷ Call.add (bytes "k3") (bytes "v3")
              ∷ [])
            (new 20 none tt)
      r ← get (bytes "key1") c
      r.1)
    ≡ none
unfolding program
removed = refl

abbrev held : Cache Str (List Str)
held = record {
  max_bytes = 10;
  nbytes = 8;
  ll =
      record { id = 1; key = bytes "k2"; value = bytes "v2" }
      ∷ record { id = 0; key = bytes "k1"; value = bytes "v1" }
      ∷ [];
  catche = (bytes "k1", 0) ∷ (bytes "k2", 1) ∷ [];
  one_evicted = some log;
  next_id = 2;
  world = [];
}

held_index :
    (k : Str) → lookup k ((bytes "k1", 0) ∷ (bytes "k2", 1) ∷ []) ≡ id_of (find_key k held.ll)
unfolding lookup find_key
held_index k = ground (arith, str_beq_iff (bytes "k1") k, str_beq_iff (bytes "k2") k)

held-IsValid : IsValid length held
unfolding find_key find_id str_beq
held-IsValid = record {
  index = held_index;
  distinct = ground arith;
  fresh = omega arith;
  counted = refl;
}

get-promote_example :
    (c' : Cache Str (List Str)) × (get (bytes "k1") held
      ≡ some (c', lookup (bytes "k1") (contents held)))
    × IsValid length c'
    × (contents c' ≡ promote (bytes "k1") (contents held))
    × (c'.max_bytes ≡ held.max_bytes)
    × (c'.nbytes ≡ held.nbytes)
get-promote_example = get-promote length held (bytes "k1") held-IsValid

-- The new pair pushes the older of the two out.
add-kept_example :
    (c' : Cache Str (List Str)) × (add length 9 (bytes "k3") (bytes "v3") held ≡ some c')
    × IsValid length c'
    × (c'.max_bytes ≡ 10)
    × (contents c' ≡ (bytes "k3", bytes "v3") ∷ (bytes "k2", bytes "v2") ∷ [])
    × (c'.world ≡ bytes "k1" ∷ [])
unfolding kept erase str_beq notify call_evicted
add-kept_example =
    add-kept length 9 held (bytes "k3") (bytes "v3") held-IsValid (omega arith) (omega arith)
      (omega arith)

run-note_example :
    (c' : Cache Str (List Str)) × (run length 9 on_evicted held ≡ some c')
    × IsValid length c'
    × (contents c' ≡ foldl (note length 10) (contents held) on_evicted)
    × (total length (contents c') ≤ 10)
run-note_example =
    run-note length 10 9 on_evicted held held-IsValid refl (omega arith) (omega arith) (omega arith)
      (omega arith) (omega arith)

-- A limit of -1.
evict_hangs_example : evict length 1000 (record held { max_bytes = 0xffff_ffff_ffff_ffff }) ≡ none
evict_hangs_example =
    evict_hangs length 1000 (record held { max_bytes = 0xffff_ffff_ffff_ffff })
      (record {
        index = held-IsValid.index;
        distinct = held-IsValid.distinct;
        fresh = held-IsValid.fresh;
        counted = held-IsValid.counted;
      })
      (omega arith) (omega arith) (omega arith)
