-- ===== src/GeeCache/Lru/Elems.antt =====
-- The list of elements: searches by key and by identity, removal, and the bytes that it holds.
use distributed_study.Common.{
  ℕ, suc, ◌+◌, ◌<◌, ◌≡◌, refl, Str, Dict, lookup, erase, Option, none, some, List, [], ◌∷◌, nat_key,
  str_key, str_beq, str_beq_iff, if◌then◌else◌, length, All, map, arith, ap,
}
use distributed_study.GeeCache.Lru.{Elem, find_id, remove_id, back}

module _ {V : Type 0} where
  unfoldable pub find_key : Str → List (Elem V) → Option (Elem V)
  find_key k [] = none
  find_key k (e ∷ l) = if str_beq e.key k then some e else find_key k l

  abbrev pub pairs : List (Elem V) → Dict Str V
  pairs = map (λ e. (e.key, e.value))

  pub length-pairs : (l : List (Elem V)) → length (pairs l) ≡ length l
  length-pairs [] = refl
  length-pairs (e ∷ l) = ap suc (length-pairs l)

  -- No two elements share a key or an identity.
  abbrev pub IsDistinct : List (Elem V) → Type 0
  IsDistinct [] = Unit {0}
  IsDistinct (e ∷ l) = (find_key e.key l ≡ none) × (find_id e.id l ≡ none) × IsDistinct l

  -- Every identity was given out already.
  abbrev pub IsFresh : ℕ → List (Elem V) → Type 0
  IsFresh n = All (λ e. e.id < n)

  pub find_id-fresh : (n : ℕ) (l : List (Elem V)) → IsFresh n l → find_id n l ≡ none
  unfolding find_id
  find_id-fresh n [] h = refl
  find_id-fresh n (e ∷ l) h = ground (arith, find_id-fresh n l)

  pub remove_id-IsFresh : (n i : ℕ) (l : List (Elem V)) → IsFresh n l → IsFresh n (remove_id i l)
  unfolding remove_id
  remove_id-IsFresh n i [] h = h
  remove_id-IsFresh n i (e ∷ l) h = ground (arith, remove_id-IsFresh n i l)

  pub find_id-IsFresh :
      (n i : ℕ) (l : List (Elem V)) (e : Elem V) → IsFresh n l → find_id i l ≡ some e → e.id < n
  unfolding find_id
  find_id-IsFresh n i [] e h p = ground arith
  find_id-IsFresh n i (x ∷ l) e h p = ground (arith, find_id-IsFresh n i l e)

  pub IsFresh-suc : (n : ℕ) (l : List (Elem V)) → IsFresh n l → IsFresh (n + 1) l
  IsFresh-suc n [] h = h
  IsFresh-suc n (e ∷ l) h = (omega arith, IsFresh-suc n l h.1)

  pub key-find_key : (k : Str) (l : List (Elem V)) (e : Elem V) → find_key k l ≡ some e → e.key ≡ k
  unfolding find_key
  key-find_key k [] e p = ground arith
  key-find_key k (x ∷ l) e p = ground (arith, str_beq_iff x.key k, key-find_key k l e)

  -- The element found by key is the one behind its own pointer.
  pub find_id-find_key :
      (k : Str) (l : List (Elem V)) (e : Elem V)
      → IsDistinct l
      → find_key k l ≡ some e
      → find_id e.id l ≡ some e
  unfolding find_key find_id
  find_id-find_key k [] e d p = ground arith
  find_id-find_key k (x ∷ l) e d p = ground (arith, find_id-find_key k l e)

  -- And so is the last one.
  pub find_id-back :
      (l : List (Elem V)) (e : Elem V) → IsDistinct l → back l ≡ some e → find_id e.id l ≡ some e
  unfolding find_id back
  find_id-back [] e d p = ground arith
  find_id-back (x ∷ []) e d p = ground arith
  find_id-back (x ∷ y ∷ l) e d p = ground (arith, find_id-back (y ∷ l) e)

  pub find_key_of_id :
      (i : ℕ) (l : List (Elem V)) (e : Elem V)
      → IsDistinct l
      → find_id i l ≡ some e
      → find_key e.key l ≡ some e
  unfolding find_key find_id
  find_key_of_id i [] e d p = ground arith
  find_key_of_id i (x ∷ l) e d p = ground (arith, str_beq_iff x.key e.key, find_key_of_id i l e)

  -- What is left to find once an element is gone.
  pub find_key-remove_id :
      (i : ℕ) (j : Str) (l : List (Elem V)) (e : Elem V)
      → IsDistinct l
      → find_id i l ≡ some e
      → find_key j (remove_id i l) ≡ (if str_beq e.key j then none else find_key j l)
  unfolding find_key find_id remove_id
  find_key-remove_id i j [] e d p = ground arith
  find_key-remove_id i j (x ∷ l) e d p = ground (
    arith,
    str_beq_iff x.key j,
    str_beq_iff e.key j,
    find_key-remove_id i j l e,
    find_key_of_id i l e,
  )

  pub find_id-remove_id :
      (i : ℕ) (l : List (Elem V)) → IsDistinct l → find_id i (remove_id i l) ≡ none
  unfolding find_id remove_id
  find_id-remove_id i [] d = refl
  find_id-remove_id i (x ∷ l) d = ground (arith, find_id-remove_id i l)

  find_id-remove_id-none :
      (i j : ℕ) (l : List (Elem V)) → find_id j l ≡ none → find_id j (remove_id i l) ≡ none
  unfolding find_id remove_id
  find_id-remove_id-none i j [] h = refl
  find_id-remove_id-none i j (x ∷ l) h = ground (arith, find_id-remove_id-none i j l)

  find_key-remove_id-none :
      (i : ℕ) (j : Str) (l : List (Elem V))
      → find_key j l ≡ none
      → find_key j (remove_id i l) ≡ none
  unfolding find_key remove_id
  find_key-remove_id-none i j [] h = refl
  find_key-remove_id-none i j (x ∷ l) h = ground (arith, find_key-remove_id-none i j l)

  pub remove_id-IsDistinct : (i : ℕ) (l : List (Elem V)) → IsDistinct l → IsDistinct (remove_id i l)
  unfolding remove_id
  remove_id-IsDistinct i [] d = d
  remove_id-IsDistinct i (x ∷ l) d = ground (
    arith,
    remove_id-IsDistinct i l,
    find_id-remove_id-none i x.id l,
    find_key-remove_id-none i x.key l,
  )

  pub lookup-pairs :
      (k : Str) (l : List (Elem V))
      → lookup k (pairs l) ≡ elim (find_key k l) [ none ↦ none | some e ↦ some e.value ]
  unfolding lookup find_key
  lookup-pairs k [] = refl
  lookup-pairs k (e ∷ l) = ground (arith, lookup-pairs k l)

  pub erase_absent :
      (k : Str) (l : List (Elem V)) → find_key k l ≡ none → erase k (pairs l) ≡ pairs l
  unfolding erase find_key
  erase_absent k [] h = refl
  erase_absent k (e ∷ l) h = ground (arith, erase_absent k l)

  pub pairs-remove_id :
      (i : ℕ) (l : List (Elem V)) (e : Elem V)
      → IsDistinct l
      → find_id i l ≡ some e
      → pairs (remove_id i l) ≡ erase e.key (pairs l)
  unfolding erase find_id remove_id
  pairs-remove_id i [] e d p = ground arith
  pairs-remove_id i (x ∷ l) e d p = ground (
    arith,
    str_beq_iff x.key e.key,
    pairs-remove_id i l e,
    find_key_of_id i l e,
    erase_absent x.key l,
  )
