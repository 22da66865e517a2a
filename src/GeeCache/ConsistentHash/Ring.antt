-- ===== src/GeeCache/ConsistentHash/Ring.antt =====
-- `Get` finds the owner of the next key clockwise on the ring.
use distributed_study.Common.{
  ℕ, zero, suc, ◌%◌, ◌≤◌, ◌<◌, ◌≡◌, ◌∙◌, sym, refl, ap, Str, Option, none, some, List, [], ◌∷◌,
  nat_key, leb, if◌then◌else◌, length, get_elem?, All, arith,
}
use native.Mathlib.Decide.{dec_lt}
use native.Mathlib.Nat.{mod-lt, mod-eq_of_lt, mod_self}
use distributed_study.GeeCache.ConsistentHash.{
  Map, insert_sorted, sort_ints, at_least, search, owner, get,
}
use distributed_study.GeeCache.ConsistentHash.Search.{IsMonotone, IsFirst, search-IsFirst}

abbrev pub IsSorted : List ℕ → Type 0
IsSorted [] = Unit {0}
IsSorted (x ∷ xs) = All (λ y. x ≤ y) xs × IsSorted xs

All-ge : (a b : ℕ) (xs : List ℕ) → a ≤ b → All (λ y. b ≤ y) xs → All (λ y. a ≤ y) xs
All-ge a b [] h s = s
All-ge a b (x ∷ xs) h s = (omega arith, All-ge a b xs h s.1)

All-insert_sorted :
    (a k : ℕ) (xs : List ℕ) → a ≤ k → All (λ y. a ≤ y) xs → All (λ y. a ≤ y) (insert_sorted k xs)
unfolding insert_sorted
All-insert_sorted a k [] h s = (h, tt)
All-insert_sorted a k (x ∷ xs) h s = ground (arith, All-insert_sorted a k xs)

insert_sorted-IsSorted : (k : ℕ) (xs : List ℕ) → IsSorted xs → IsSorted (insert_sorted k xs)
unfolding insert_sorted
insert_sorted-IsSorted k [] s = (tt, tt)
insert_sorted-IsSorted k (x ∷ xs) s =
    ground (arith, insert_sorted-IsSorted k xs, All-insert_sorted x k xs, All-ge k x xs)

pub sort_ints-IsSorted : (xs : List ℕ) → IsSorted (sort_ints xs)
unfolding sort_ints
sort_ints-IsSorted [] = tt
sort_ints-IsSorted (x ∷ xs) = insert_sorted-IsSorted x (sort_ints xs) (sort_ints-IsSorted xs)

-- The smaller of two keys that may be missing.
abbrev pub smaller : Option ℕ → Option ℕ → Option ℕ
smaller none b = b
smaller (some a) none = some a
smaller (some a) (some b) = some (if leb a b then a else b)

abbrev pub from : ℕ → ℕ → Option ℕ
from h k = if leb h k then some k else none

-- The least key that is at least `h`.
unfoldable pub least_from : ℕ → List ℕ → Option ℕ
least_from h [] = none
least_from h (k ∷ ks) = smaller (from h k) (least_from h ks)

-- The next key clockwise: the least one from `h` on, or the least of all.
unfoldable pub successor : ℕ → List ℕ → Option ℕ
unfolding least_from
successor h ks = elim (least_from h ks) [ some k ↦ some k | none ↦ least_from 0 ks ]

least_from-insert_sorted :
    (h k : ℕ) (ks : List ℕ)
    → least_from h (insert_sorted k ks) ≡ smaller (from h k) (least_from h ks)
unfolding least_from insert_sorted
least_from-insert_sorted h k [] = refl
least_from-insert_sorted h k (x ∷ ks) = ground (arith, least_from-insert_sorted h k ks)

-- Sorting does not change it.
pub least_from-sort_ints : (h : ℕ) (ks : List ℕ) → least_from h (sort_ints ks) ≡ least_from h ks
unfolding least_from sort_ints
least_from-sort_ints h [] = refl
least_from-sort_ints h (k ∷ ks) =
    least_from-insert_sorted h k (sort_ints ks)
    ∙ ap (smaller (from h k)) (least_from-sort_ints h ks)

get_elem?-All :
    (a i : ℕ) (ks : List ℕ) {k : ℕ} → All (λ y. a ≤ y) ks → get_elem? ks i ≡ some k → a ≤ k
get_elem?-All a i [] s e = ground arith
get_elem?-All a zero (x ∷ ks) s e = ground arith
get_elem?-All a (suc i) (x ∷ ks) s e = get_elem?-All a i ks s.1 e

pub get_elem?-lt : (i : ℕ) (ks : List ℕ) → i < length ks → (k : ℕ) × (get_elem? ks i ≡ some k)
get_elem?-lt i [] h = absurd (omega arith)
get_elem?-lt zero (x ∷ ks) h = (x, refl)
get_elem?-lt (suc i) (x ∷ ks) h = get_elem?-lt i ks (omega arith)

get_elem?-mono :
    (i j : ℕ) (ks : List ℕ) (a b : ℕ)
    → IsSorted ks
    → i ≤ j
    → get_elem? ks i ≡ some a
    → get_elem? ks j ≡ some b
    → a ≤ b
get_elem?-mono i j [] a b s h e f = ground arith
get_elem?-mono zero zero (x ∷ ks) a b s h e f = ground arith
get_elem?-mono zero (suc j) (x ∷ ks) a b s h e f =
    let below = get_elem?-All x j ks s.0 f in ground arith
get_elem?-mono (suc i) zero (x ∷ ks) a b s h e f = absurd (omega arith)
get_elem?-mono (suc i) (suc j) (x ∷ ks) a b s h e f =
    get_elem?-mono i j ks a b s.1 (omega arith) e f

at_least-IsMonotone : (ks : List ℕ) (h : ℕ) → IsSorted ks → IsMonotone (length ks) (at_least ks h)
unfolding at_least
at_least-IsMonotone ks h s a b le lt t =
    let (k, e) = get_elem?-lt a ks (omega arith) in
    let (l, f) = get_elem?-lt b ks lt in ground (arith, get_elem?-mono a b ks k l s le e f)

smaller_of_ge :
    (h x : ℕ) (ks : List ℕ) → All (λ y. x ≤ y) ks → smaller (some x) (least_from h ks) ≡ some x
unfolding least_from
smaller_of_ge h x [] s = refl
smaller_of_ge h x (k ∷ ks) s = ground (arith, smaller_of_ge h x ks s.1)

-- The key at the first position that passes is the least one from `h` on.
first_is_least :
    (h : ℕ) (ks : List ℕ) (r : ℕ)
    → IsSorted ks
    → IsFirst (length ks) (at_least ks h) r
    → get_elem? ks r ≡ least_from h ks
unfolding least_from at_least
first_is_least h [] r s f = refl
first_is_least h (x ∷ ks) zero s f =
    let hit = f.passes (omega arith) in ground (arith, smaller_of_ge h x ks s.0)
first_is_least h (x ∷ ks) (suc r) s f =
    let miss = f.fails 0 (omega arith) in
    let rest = first_is_least h ks r s.1 (record {
      bounded = omega (arith, f.bounded);
      passes = λ lt. f.passes (omega arith);
      fails = λ k lt. f.fails (suc k) (omega arith);
    }) in
    ground arith

abbrev pub position : ℕ → List ℕ → ℕ
position h ks = search (length ks) (at_least ks h)

get_elem?-length : (ks : List ℕ) → get_elem? ks (length ks) ≡ none
get_elem?-length [] = refl
get_elem?-length (k ∷ ks) = get_elem?-length ks

pub successor_of_least :
    (h : ℕ) (ks : List ℕ) (o : Option ℕ)
    → least_from h ks ≡ o
    → successor h ks ≡ elim o [ some k ↦ some k | none ↦ least_from 0 ks ]
unfolding successor
successor_of_least h ks o e = rw (e, successor) refl

successor-nil : (h : ℕ) (ks : List ℕ) → length ks ≡ 0 → successor h ks ≡ none
unfolding successor
successor-nil h [] e = refl
successor-nil h (k ∷ ks) e = absurd (omega arith)

pub successor-none : (h : ℕ) (ks : List ℕ) → successor h ks ≡ none → length ks ≡ 0
unfolding successor
successor-none h [] e = refl
successor-none h (k ∷ ks) e = absurd (ground arith)

starts_passing : (ks : List ℕ) → IsFirst (length ks) (at_least ks 0) 0
unfolding at_least
starts_passing [] = record {
  bounded = omega arith;
  passes = λ h. absurd (omega arith);
  fails = λ k h. absurd (omega arith);
}
starts_passing (x ∷ ks) = record {
  bounded = omega arith;
  passes = λ h. ground arith;
  fails = λ k h. absurd (omega arith);
}

get_elem?-position :
    (h : ℕ) (ks : List ℕ)
    → IsSorted ks
    → 0 < length ks
    → get_elem? ks (position h ks % length ks) ≡ successor h ks
get_elem?-position h ks s full =
    let first = search-IsFirst (length ks) (at_least ks h) (at_least-IsMonotone ks h s) in
    let next = first_is_least h ks (position h ks) s first in
    elim (dec_lt (position h ks) (length ks)) [
      | yes lt ↦
          let (k, e) = get_elem?-lt (position h ks) ks lt in
          let found : least_from h ks ≡ some k = cc in
          rw (successor_of_least h ks (some k) found, mod-eq_of_lt lt) e
      | no ge ↦
          let e : position h ks ≡ length ks = omega (arith, first.bounded) in
          let found : least_from h ks ≡ none =
            sym next ∙ ap (get_elem? ks) e ∙ get_elem?-length ks in
          rw (successor_of_least h ks none found, e, mod_self)
            (first_is_least 0 ks 0 s (starts_passing ks))
    ]

-- On a sorted ring Get does not panic, and returns the owner of the next key clockwise from the
-- hash (the least key from the hash on, or the least of all), or the empty string on the empty
-- ring.
pub get-successor :
    (key : Str) (m : Map)
    → IsSorted m.keys
    → get key m ≡ some (elim (successor (m.hash key) m.keys) [ none ↦ [] | some k ↦ owner m k ])
unfolding get
get-successor key m s = elim (dec_lt 0 (length m.keys)) [
  | no empty ↦ ground (arith, successor-nil (m.hash key) m.keys)
  | yes full ↦
      let i : ℕ = position (m.hash key) m.keys % length m.keys in
      let (k, e) = get_elem?-lt i m.keys (mod-lt (position (m.hash key) m.keys) full) in
      ground (arith, e, get_elem?-position (m.hash key) m.keys s)
]
