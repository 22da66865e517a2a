-- ===== src/GeeCache/ConsistentHash/Tests.antt =====
-- The cases of geecache/consistenthash/consistenthash_test.go, and the theorems on its ring.
use distributed_study.Common.{
  ℕ, ◌+◌, ◌-◌, ◌*◌, ◌≡◌, ◌⊎◌, refl, Str, none, some, List, [], ◌∷◌, bytes, itoa, lookup, insert,
  arith,
}
use distributed_study.GeeCache.ConsistentHash.{
  Map, checksum_ieee, new, place, replicate_from, add_all, insert_sorted, sort_ints, add,
  search_loop, search, at_least, owner, get,
}
use distributed_study.GeeCache.ConsistentHash.Ring.{successor, get-successor}
use distributed_study.GeeCache.ConsistentHash.Adding.{get-add_stable, get-add-new}

program : Unit {0}
unfolding checksum_ieee new place replicate_from add_all insert_sorted sort_ints add search_loop
    search at_least owner get itoa lookup insert
program = tt

crc_check : checksum_ieee (bytes "123456789") ≡ 0xcbf4_3926
unfolding program
crc_check = refl

-- The hash of the test: the number that the digits spell.
abbrev atoi_from : ℕ → Str → ℕ
atoi_from n [] = n
atoi_from n (d ∷ ds) = atoi_from (10 * n + (d - b'0')) ds

abbrev nodes : List Str
nodes = bytes "6" ∷ bytes "4" ∷ bytes "2" ∷ []

abbrev ring : Map
ring = record {
  hash = atoi_from 0;
  replicas = 3;
  keys = 2 ∷ 4 ∷ 6 ∷ 12 ∷ 14 ∷ 16 ∷ 22 ∷ 24 ∷ 26 ∷ [];
  has_map =
      (6, bytes "6")
      ∷ (16, bytes "6")
      ∷ (26, bytes "6")
      ∷ (4, bytes "4")
      ∷ (14, bytes "4")
      ∷ (24, bytes "4")
      ∷ (2, bytes "2")
      ∷ (12, bytes "2")
      ∷ (22, bytes "2")
      ∷ [];
}

ring_of_nodes : add nodes (new 3 (some (atoi_from 0))) ≡ ring
unfolding program
ring_of_nodes = refl

picks :
    (get (bytes "2") ring ≡ some (bytes "2"))
    × (get (bytes "11") ring ≡ some (bytes "2"))
    × (get (bytes "23") ring ≡ some (bytes "4"))
    × (get (bytes "27") ring ≡ some (bytes "2"))
    × (get (bytes "27") (add (bytes "8" ∷ []) ring) ≡ some (bytes "8"))
unfolding program
picks = (refl, refl, refl, refl, refl)

abbrev IsEight : Str → Type 0
IsEight s = s ≡ bytes "8"

get-successor_example :
    get (bytes "23") ring
    ≡ some (elim (successor 23 ring.keys) [ none ↦ [] | some k ↦ owner ring k ])
get-successor_example = get-successor (bytes "23") ring (omega arith)

get-add_stable_example :
    (get (bytes "27") (add (bytes "8" ∷ []) ring) ≡ get (bytes "27") ring)
    ⊎ ((s : Str) × (get (bytes "27") (add (bytes "8" ∷ []) ring) ≡ some s) × IsEight s)
get-add_stable_example =
    get-add_stable IsEight (bytes "8" ∷ []) ring (bytes "27") (omega arith) (refl, tt)

get-add-new_example :
    (s : Str) × (get (bytes "27") (add (bytes "8" ∷ []) (new 3 none)) ≡ some s) × IsEight s
get-add-new_example =
    get-add-new IsEight 3 none (bytes "8" ∷ []) (bytes "27") (omega arith) (omega arith) (refl, tt)
