-- ===== src/GeeCache/ConsistentHash/Search.antt =====
-- The binary search finds the first position that passes the test.
use distributed_study.Common.{
  ℕ, zero, suc, ◌+◌, ◌-◌, ◌/◌, ◌≤◌, ◌<◌, ◌≡◌, Bool, true, false, ltb, arith, Bool-cases, inl, inr,
}
use distributed_study.GeeCache.ConsistentHash.{search_loop, search}

-- Once the test passes it passes from there on.
abbrev pub IsMonotone : ℕ → (ℕ → Bool) → Type 0
IsMonotone n p = (a b : ℕ) → a ≤ b → b < n → p a ≡ true → p b ≡ true

-- `r` is the first position below `n` that passes, or `n`.
pub record IsFirst (n : ℕ) (p : ℕ → Bool) (r : ℕ) : Type 0 where
  pub bounded : r ≤ n
  pub passes : r < n → p r ≡ true
  pub fails : (k : ℕ) → k < r → p k ≡ false

module _ (n : ℕ) (p : ℕ → Bool) (mono : IsMonotone n p) where
  fails_below : (b : ℕ) → b < n → p b ≡ false → (k : ℕ) → k < b + 1 → p k ≡ false
  fails_below b top miss k h = elim (Bool-cases (p k)) [
    | inr e ↦ e
    | inl e ↦ let up = mono k b (omega arith) top e in cc
  ]

  search_loop-IsFirst :
      (fuel i j : ℕ)
      → i ≤ j
      → j ≤ n
      → j - i ≤ fuel
      → ((k : ℕ) → k < i → p k ≡ false)
      → (j < n → p j ≡ true)
      → IsFirst n p (search_loop fuel i j p)
  unfolding search_loop
  search_loop-IsFirst zero i j le top room below above =
      let e : i ≡ j = omega arith in
      record { bounded = omega arith; passes = λ h. rw e (above (omega arith)); fails = below }
  search_loop-IsFirst (suc fuel) i j le top room below above = elim (Bool-cases (ltb i j)) [
    | inr stop ↦
        let e : i ≡ j = ground arith in
        rw (stop, search_loop)
          (record {
            bounded = omega arith;
            passes = λ h. rw e (above (omega arith));
            fails = below;
          })
    | inl go ↦
        let lt : i < j = ground arith in
        elim (Bool-cases (p ((i + j) / 2))) [
          | inl hit ↦
              rw (go, hit, search_loop)
                (search_loop-IsFirst fuel i ((i + j) / 2) (omega arith) (omega arith) (omega arith)
                  below (λ h. hit))
          | inr miss ↦
              rw (go, miss, search_loop)
                (search_loop-IsFirst fuel ((i + j) / 2 + 1) j (omega arith) top (omega arith)
                  (fails_below ((i + j) / 2) (omega arith) miss) above)
        ]
  ]

  pub search-IsFirst : IsFirst n p (search n p)
  unfolding search
  search-IsFirst =
      search_loop-IsFirst n 0 n (omega arith) (omega arith) (omega arith)
        (λ k h. absurd (omega arith)) (λ h. absurd (omega arith))
