-- ===== src/GeeCache/ConsistentHash.antt =====
-- geecache/consistenthash/consistenthash.go: the hash ring.
--
-- `replicas` is a number of rounds; a hash is the number that its uint32 stands for. `none` is the
-- panic of an index out of range.
mod Search
pub mod Ring
pub mod Sizes
pub mod Adding
mod Tests
use Prim.Native.Nat.{bit_xor}
use distributed_study.Common.{
  ℕ, zero, suc, ◌+◌, ◌/◌, ◌%◌, Str, Dict, lookup, insert, itoa, Option, none, some, ◌>>=◌, List, [],
  ◌∷◌, ◌++◌, Bool, true, false, ◌==◌, nat_key, leb, ltb, if◌then◌else◌, length, get_elem?,
}

-- `crc32.ChecksumIEEE`: eight shifts for each byte, over the reversed polynomial.
crc_shift : ℕ → ℕ → ℕ
crc_shift zero crc = crc
crc_shift (suc n) crc =
    crc_shift n (if crc % 2 == 1 then bit_xor (crc / 2) 0xedb8_8320 else crc / 2)

crc_bytes : ℕ → Str → ℕ
unfolding crc_shift
crc_bytes crc [] = crc
crc_bytes crc (b ∷ data_left) = crc_bytes (crc_shift 8 (bit_xor crc b)) data_left

checksum_ieee : Str → ℕ
unfolding crc_bytes
checksum_ieee s = bit_xor (crc_bytes 0xffff_ffff s) 0xffff_ffff

pub record Map : Type 0 where
  pub hash : Str → ℕ
  pub replicas : ℕ
  pub keys : List ℕ
  pub has_map : Dict ℕ Str

pub new : ℕ → Option (Str → ℕ) → Map
unfolding checksum_ieee
new replicas fn = record {
  hash = elim fn [ none ↦ checksum_ieee | some f ↦ f ];
  replicas = replicas;
  keys = [];
  has_map = [];
}

-- One round of the inner loop of `Add`.
pub place : Str → ℕ → Map → Map
place key i m =
    let h = m.hash (itoa i ++ key) in
    record m { keys = m.keys ++ h ∷ []; has_map = insert h key m.has_map }

-- The rounds from `i` on, `n` of them.
pub replicate_from : ℕ → ℕ → Str → Map → Map
replicate_from zero i key m = m
replicate_from (suc n) i key m = replicate_from n (i + 1) key (place key i m)

-- The outer loop.
pub add_all : List Str → Map → Map
add_all [] m = m
add_all (key ∷ rest) m = add_all rest (replicate_from m.replicas 0 key m)

-- `sort.Ints`.
pub insert_sorted : ℕ → List ℕ → List ℕ
insert_sorted k [] = k ∷ []
insert_sorted k (x ∷ xs) = if leb k x then k ∷ x ∷ xs else x ∷ insert_sorted k xs

pub sort_ints : List ℕ → List ℕ
unfolding insert_sorted
sort_ints [] = []
sort_ints (x ∷ xs) = insert_sorted x (sort_ints xs)

pub add : List Str → Map → Map
add nodes m = let m' = add_all nodes m in record m' { keys = sort_ints m'.keys }

-- `sort.Search`: the loop over `[i, j)`, which loses a position in each round.
unfoldable pub search_loop : ℕ → ℕ → ℕ → (ℕ → Bool) → ℕ
search_loop zero i j p = i
search_loop (suc fuel) i j p = elim (ltb i j) [
  | false ↦ i
  | true ↦ elim (p ((i + j) / 2)) [
    | false ↦ search_loop fuel ((i + j) / 2 + 1) j p
    | true ↦ search_loop fuel i ((i + j) / 2) p
  ]
]

unfoldable pub search : ℕ → (ℕ → Bool) → ℕ
search n p = search_loop n 0 n p

-- The test that `Get` searches with.
unfoldable pub at_least : List ℕ → ℕ → ℕ → Bool
at_least ks h i = elim (get_elem? ks i) [ none ↦ false | some k ↦ leb h k ]

-- `m.hasMap[k]`, with the zero value for a missing key.
unfoldable pub owner : Map → ℕ → Str
owner m k = elim (lookup k m.has_map) [ none ↦ [] | some s ↦ s ]

unfoldable pub get : Str → Map → Option Str
get key m = if length m.keys == 0 then some [] else (do
  k ← get_elem? m.keys (search (length m.keys) (at_least m.keys (m.hash key)) % length m.keys)
  some (owner m k))
