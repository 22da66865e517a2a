-- ===== src/GeeRpc/Client/Accounts.antt =====
-- Counting calls: among the pending ones and among the signals.
use distributed_study.GeeRpc.Client.{signals_of}
use distributed_study.Common.{
  ℕ, ◌+◌, ◌≤◌, ◌<◌, ◌≡◌, refl, Dict, lookup, insert, erase, Option, none, some, List, [], ◌∷◌, ◌++◌,
  All, ◌==◌, nat_key, if◌then◌else◌, false, arith,
}

abbrev pub one : ℕ → ℕ → ℕ
one q r = if q == r then 1 else 0

unfoldable pub count : ℕ → List ℕ → ℕ
count r l = signals_of r l

pub count-append : (r : ℕ) (l m : List ℕ) → count r (l ++ m) ≡ count r l + count r m
unfolding count
count-append r [] m = omega arith
count-append r (q ∷ l) m = omega (arith, count-append r l m)

-- The calls of a map from numbers to calls.
unfoldable pub vals : Dict ℕ ℕ → List ℕ
vals [] = []
vals ((_, r) ∷ m) = r ∷ vals m

abbrev pub one_of : Option ℕ → ℕ → ℕ
one_of none r = 0
one_of (some q) r = one q r

-- Every number stands in the map once.
abbrev pub IsUnique : Dict ℕ ℕ → Type 0
IsUnique [] = Unit {0}
IsUnique ((n, _) ∷ m) = (lookup n m ≡ none) × IsUnique m

abbrev pub IsBelow : ℕ → Dict ℕ ℕ → Type 0
IsBelow s = All (λ e. e.0 < s)

pub lookup-IsBelow : (s : ℕ) (m : Dict ℕ ℕ) → IsBelow s m → lookup s m ≡ none
unfolding lookup
lookup-IsBelow s [] h = refl
lookup-IsBelow s (e ∷ m) h = ground (arith, lookup-IsBelow s m)

pub IsBelow-mono : (s t : ℕ) (m : Dict ℕ ℕ) → s ≤ t → IsBelow s m → IsBelow t m
IsBelow-mono s t [] le h = h
IsBelow-mono s t (e ∷ m) le h = (omega arith, IsBelow-mono s t m le h.1)

pub insert-IsBelow : (s n r : ℕ) (m : Dict ℕ ℕ) → n < s → IsBelow s m → IsBelow s (insert n r m)
unfolding insert
insert-IsBelow s n r [] lt h = (lt, tt)
insert-IsBelow s n r (e ∷ m) lt h = ground (arith, insert-IsBelow s n r m)

pub erase-IsBelow : (s n : ℕ) (m : Dict ℕ ℕ) → IsBelow s m → IsBelow s (erase n m)
unfolding erase
erase-IsBelow s n [] h = h
erase-IsBelow s n (e ∷ m) h = ground (arith, erase-IsBelow s n m)

lookup-insert_ne :
    (n q r : ℕ) (m : Dict ℕ ℕ)
    → (n == q) ≡ false
    → lookup q m ≡ none
    → lookup q (insert n r m) ≡ none
unfolding lookup insert
lookup-insert_ne n q r [] ne h = ground arith
lookup-insert_ne n q r (e ∷ m) ne h = ground (arith, lookup-insert_ne n q r m)

pub insert-IsUnique : (n r : ℕ) (m : Dict ℕ ℕ) → IsUnique m → IsUnique (insert n r m)
unfolding lookup insert
insert-IsUnique n r [] u = (refl, tt)
insert-IsUnique n r ((q, v) ∷ m) u = ground (arith, insert-IsUnique n r m, lookup-insert_ne n q r m)

lookup-erase-none : (n q : ℕ) (m : Dict ℕ ℕ) → lookup q m ≡ none → lookup q (erase n m) ≡ none
unfolding lookup erase
lookup-erase-none n q [] h = refl
lookup-erase-none n q (e ∷ m) h = ground (arith, lookup-erase-none n q m)

pub erase-IsUnique : (n : ℕ) (m : Dict ℕ ℕ) → IsUnique m → IsUnique (erase n m)
unfolding erase
erase-IsUnique n [] u = u
erase-IsUnique n ((q, v) ∷ m) u = ground (arith, erase-IsUnique n m, lookup-erase-none n q m)

pub count-insert :
    (n q r : ℕ) (m : Dict ℕ ℕ)
    → lookup n m ≡ none
    → count r (vals (insert n q m)) ≡ count r (vals m) + one q r
unfolding count vals lookup insert
count-insert n q r [] h = omega arith
count-insert n q r ((k, v) ∷ m) h = ground (arith, count-insert n q r m)

count-erase_absent :
    (n r : ℕ) (m : Dict ℕ ℕ) → lookup n m ≡ none → count r (vals (erase n m)) ≡ count r (vals m)
unfolding count vals lookup erase
count-erase_absent n r [] h = refl
count-erase_absent n r ((k, v) ∷ m) h = ground (arith, count-erase_absent n r m)

pub count-erase :
    (n r : ℕ) (m : Dict ℕ ℕ)
    → IsUnique m
    → count r (vals (erase n m)) + one_of (lookup n m) r ≡ count r (vals m)
unfolding count vals lookup erase
count-erase n r [] u = refl
count-erase n r ((k, v) ∷ m) u = ground (arith, count-erase n r m, count-erase_absent n r m)
