-- ===== src/GeeCache/Lru/Invariant.antt =====
-- The invariant of the cache, and the list of pairs that it stands for.
use distributed_study.Common.{
  ℕ, ◌+◌, ◌≡◌, ◌%◌, Str, Dict, lookup, Option, none, some, List, [], ◌∷◌, nat_key, str_key, length,
  arith, i64_mod,
}
use distributed_study.GeeCache.Lru.{Elem, Cache, find_id, remove_id}
use distributed_study.GeeCache.Lru.Elems.{find_key, pairs, IsDistinct, IsFresh}

-- What the cache holds, most recently used first.
abbrev pub contents : {V W : Type 0} → Cache V W → Dict Str V
contents c = pairs c.ll

abbrev pub id_of : {V : Type 0} → Option (Elem V) → Option ℕ
id_of none = none
id_of (some e) = some e.id

module _ {V : Type 0} (value_len : V → ℕ) where
  -- The bytes that a pair, or a list of pairs, takes up.
  abbrev pub cost : Str × V → ℕ
  cost p = length p.0 + value_len p.1

  abbrev pub total : Dict Str V → ℕ
  total [] = 0
  total (p ∷ s) = cost p + total s

  pub record IsValid {W : Type 0} (c : Cache V W) : Type 0 where
    pub index : (k : Str) → lookup k c.catche ≡ id_of (find_key k c.ll)
    pub distinct : IsDistinct c.ll
    pub fresh : IsFresh c.next_id c.ll
    pub counted : c.nbytes ≡ total (contents c) % i64_mod

  pub total-remove_id :
      (i : ℕ) (l : List (Elem V)) (e : Elem V)
      → find_id i l ≡ some e
      → total (pairs (remove_id i l)) + cost (e.key, e.value) ≡ total (pairs l)
  unfolding find_id remove_id
  total-remove_id i [] e p = ground arith
  total-remove_id i (x ∷ l) e p = ground (arith, total-remove_id i l e)
