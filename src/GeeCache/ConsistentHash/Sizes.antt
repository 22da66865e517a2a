-- ===== src/GeeCache/ConsistentHash/Sizes.antt =====
-- The ring after nodes were added: how long it is, and that it is sorted.
use distributed_study.Common.{
  ℕ, zero, suc, ◌+◌, ◌*◌, ◌≡◌, ◌∙◌, ◌⊎◌, inl, inr, refl, ap, Str, itoa, Option, none, some, List,
  [], ◌∷◌, ◌++◌, ◌&&◌, not, nat_key, leb, length, arith, Bool-cases, length-append,
}
use distributed_study.GeeCache.ConsistentHash.{
  Map, place, replicate_from, add_all, insert_sorted, sort_ints, add, owner,
}
use distributed_study.GeeCache.ConsistentHash.Ring.{
  IsSorted, sort_ints-IsSorted, smaller, from, least_from,
}

length-insert_sorted : (k : ℕ) (ks : List ℕ) → length (insert_sorted k ks) ≡ suc (length ks)
unfolding insert_sorted
length-insert_sorted k [] = refl
length-insert_sorted k (x ∷ ks) = ground (arith, length-insert_sorted k ks)

pub length-sort_ints : (ks : List ℕ) → length (sort_ints ks) ≡ length ks
unfolding sort_ints
length-sort_ints [] = refl
length-sort_ints (k ∷ ks) = length-insert_sorted k (sort_ints ks) ∙ ap suc (length-sort_ints ks)

pub least_from-append :
    (h : ℕ) (xs : List ℕ) (k : ℕ)
    → least_from h (xs ++ k ∷ []) ≡ smaller (least_from h xs) (from h k)
unfolding least_from
least_from-append h [] k = ground arith
least_from-append h (x ∷ xs) k = ground (arith, least_from-append h xs k)

pub smaller_from :
    (o : Option ℕ) (n x : ℕ) → (smaller o (from n x) ≡ o) ⊎ (smaller o (from n x) ≡ some x)
smaller_from none n x = elim (Bool-cases (leb n x)) [
  | inl e ↦ inr (ground arith)
  | inr e ↦ inl (ground arith)
]
smaller_from (some a) n x = elim (Bool-cases (leb n x && not (leb a x))) [
  | inl e ↦ inr (ground arith)
  | inr e ↦ inl (ground arith)
]

abbrev pub owner_of : Map → Option ℕ → Str
owner_of m none = []
owner_of m (some k) = owner m k

pub add-IsSorted : (nodes : List Str) (m : Map) → IsSorted (add nodes m).keys
unfolding add
add-IsSorted nodes m = sort_ints-IsSorted _

length-replicate_from :
    (n i : ℕ) (key : Str) (m : Map)
    → (length (replicate_from n i key m).keys ≡ length m.keys + n)
      × ((replicate_from n i key m).replicas ≡ m.replicas)
unfolding replicate_from place
length-replicate_from zero i key m = (omega arith, refl)
length-replicate_from (suc n) i key m =
    let x : ℕ = m.hash (itoa i ++ key) in
    let (grows, same) = length-replicate_from n (i + 1) key (place key i m) in
    (omega (arith, grows, length-append m.keys (x ∷ [])), same)

length-add_all :
    (nodes : List Str) (m : Map)
    → length (add_all nodes m).keys ≡ length m.keys + m.replicas * length nodes
unfolding add_all
length-add_all [] m = omega arith
length-add_all (key ∷ rest) m =
    let (grows, same) = length-replicate_from m.replicas 0 key m in
    let e = length-add_all rest (replicate_from m.replicas 0 key m) in
    e ∙ rw (same, grows) (omega arith)

-- The ring is sorted after Add, and has one more key for each replica of each node.
pub length-add :
    (nodes : List Str) (m : Map)
    → IsSorted (add nodes m).keys
      × (length (add nodes m).keys ≡ length m.keys + m.replicas * length nodes)
unfolding add
length-add nodes m = (sort_ints-IsSorted _, length-sort_ints _ ∙ length-add_all nodes m)
