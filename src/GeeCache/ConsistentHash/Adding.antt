-- ===== src/GeeCache/ConsistentHash/Adding.antt =====
-- What adding nodes does to the ring and to the owners of the keys.
use distributed_study.Common.{
  ℕ, zero, suc, ◌+◌, ◌≤◌, ◌<◌, ◌≡◌, ◌∙◌, ◌⊎◌, inl, inr, refl, sym, ap, Str, lookup, lookup-insert,
  itoa, Option, none, some, List, [], ◌∷◌, ◌++◌, ◌==◌, nat_key, length, All, arith, Bool-cases,
  Option-cases, length-append,
}
use native.Mathlib.Nat.{mul-pos}
use distributed_study.GeeCache.ConsistentHash.{
  Map, place, replicate_from, add_all, add, owner, get, new,
}
use distributed_study.GeeCache.ConsistentHash.Ring.{
  IsSorted, least_from, successor, least_from-sort_ints, get-successor, successor_of_least,
  successor-none,
}
use distributed_study.GeeCache.ConsistentHash.Sizes.{
  length-sort_ints, least_from-append, smaller_from, owner_of, add-IsSorted, length-add,
}

-- Nodes with the property `P` were added to `m`, and `m'` came of it.
module _ (P : Str → Type 0) where
  -- A key of the ring belongs to a new node.
  abbrev pub IsNew : Map → ℕ → Type 0
  IsNew m k = (s : Str) × (lookup k m.has_map ≡ some s) × P s

  pub record Grew (m m' : Map) : Type 0 where
    pub hash : m'.hash ≡ m.hash
    pub replicas : m'.replicas ≡ m.replicas
    pub owners : (k : ℕ) → (lookup k m'.has_map ≡ lookup k m.has_map) ⊎ IsNew m' k
    pub least :
        (h : ℕ)
        → (least_from h m'.keys ≡ least_from h m.keys)
          ⊎ ((k : ℕ) × (least_from h m'.keys ≡ some k) × IsNew m' k)
    pub longer : length m.keys ≤ length m'.keys

  Grew-refl : (m : Map) → Grew m m
  Grew-refl m = record {
    hash = refl;
    replicas = refl;
    owners = λ k. inl refl;
    least = λ h. inl refl;
    longer = omega arith;
  }

  IsNew-later : (m m' : Map) (k : ℕ) → Grew m m' → IsNew m k → IsNew m' k
  IsNew-later m m' k g (s, e, p) = elim (g.owners k) [ inl same ↦ (s, same ∙ e, p) | inr new ↦ new ]

  Grew-trans : (a b c : Map) → Grew a b → Grew b c → Grew a c
  Grew-trans a b c g h = record {
    hash = h.hash ∙ g.hash;
    replicas = h.replicas ∙ g.replicas;
    owners = λ k. elim (h.owners k) [
      | inr new ↦ inr new
      | inl same ↦ elim (g.owners k) [
        | inl older ↦ inl (same ∙ older)
        | inr new ↦ inr (IsNew-later b c k h new)
      ]
    ];
    least = λ n. elim (h.least n) [
      | inr new ↦ inr new
      | inl same ↦ elim (g.least n) [
        | inl older ↦ inl (same ∙ older)
        | inr (k, e, new) ↦ inr (k, same ∙ e, IsNew-later b c k h new)
      ]
    ];
    longer = omega (arith, g.longer, h.longer);
  }

  place-Grew : (key : Str) (i : ℕ) (m : Map) → P key → Grew m (place key i m)
  unfolding place
  place-Grew key i m p = record {
    hash = refl;
    replicas = refl;
    owners = λ k. elim (Bool-cases (m.hash (itoa i ++ key) == k)) [
      | inl hit ↦ inr (key, lookup-insert _ k key m.has_map ∙ ground arith, p)
      | inr miss ↦ inl (lookup-insert _ k key m.has_map ∙ ground arith)
    ];
    least = λ n.
        let x : ℕ = m.hash (itoa i ++ key) in
        let e = least_from-append n m.keys x in
        elim (smaller_from (least_from n m.keys) n x) [
          | inl old ↦ inl (e ∙ old)
          | inr new ↦ inr (x, e ∙ new, (key, lookup-insert x x key m.has_map ∙ ground arith, p))
        ];
    longer = omega (arith, length-append m.keys (m.hash (itoa i ++ key) ∷ []));
  }

  replicate_from-Grew : (n i : ℕ) (key : Str) (m : Map) → P key → Grew m (replicate_from n i key m)
  unfolding replicate_from
  replicate_from-Grew zero i key m p = Grew-refl m
  replicate_from-Grew (suc n) i key m p =
      Grew-trans m _ _ (place-Grew key i m p) (replicate_from-Grew n (i + 1) key (place key i m) p)

  add_all-Grew : (nodes : List Str) (m : Map) → All P nodes → Grew m (add_all nodes m)
  unfolding add_all
  add_all-Grew [] m ps = Grew-refl m
  add_all-Grew (key ∷ rest) m ps =
      Grew-trans m _ _ (replicate_from-Grew m.replicas 0 key m ps.0) (add_all-Grew rest _ ps.1)

  add-Grew : (nodes : List Str) (m : Map) → All P nodes → Grew m (add nodes m)
  unfolding add
  add-Grew nodes m ps =
      let g = add_all-Grew nodes m ps in
      let ks = (add_all nodes m).keys in
      record {
        hash = g.hash;
        replicas = g.replicas;
        owners = g.owners;
        least = λ n. elim (g.least n) [
          | inl same ↦ inl (least_from-sort_ints n ks ∙ same)
          | inr (k, e, new) ↦ inr (k, least_from-sort_ints n ks ∙ e, new)
        ];
        longer = omega (arith, g.longer, length-sort_ints ks);
      }

  successor-Grew :
      (m m' : Map) (h : ℕ)
      → Grew m m'
      → (successor h m'.keys ≡ successor h m.keys)
        ⊎ ((k : ℕ) × (successor h m'.keys ≡ some k) × IsNew m' k)
  successor-Grew m m' h g = elim (g.least h) [
    | inr (k, e, new) ↦ inr (k, successor_of_least h m'.keys (some k) e, new)
    | inl same ↦ elim (Option-cases (least_from h m.keys)) [
      | inr (k, e) ↦ inl (
          successor_of_least h m'.keys (some k) (same ∙ e)
          ∙ sym (successor_of_least h m.keys (some k) e))
      | inl e ↦
          let after = successor_of_least h m'.keys none (same ∙ e) in
          let before = successor_of_least h m.keys none e in
          elim (g.least 0) [
            | inl lowest ↦ inl (after ∙ lowest ∙ sym before)
            | inr (k, found, new) ↦ inr (k, after ∙ found, new)
          ]
    ]
  ]

  -- Adding nodes to a sorted ring moves a key only to a new node: afterwards Get answers as
  -- before, or with a node that was just added, also where hashes collide.
  pub get-add_stable :
      (nodes : List Str) (m : Map) (key : Str)
      → IsSorted m.keys
      → All P nodes
      → (get key (add nodes m) ≡ get key m) ⊎ ((s : Str) × (get key (add nodes m) ≡ some s) × P s)
  unfolding owner
  get-add_stable nodes m key s ps =
      let g = add-Grew nodes m ps in
      let m' = add nodes m in
      let h = m.hash key in
      let before = get-successor key m s in
      let after : get key m' ≡ some (owner_of m' (successor h m'.keys)) =
        get-successor key m' (add-IsSorted nodes m)
        ∙ ap (λ (f : Str → ℕ). some (owner_of m' (successor (f key) m'.keys))) g.hash in
      elim (successor-Grew m m' h g) [
        | inr (k, e, (s, found, p)) ↦ inr (s, after ∙ ground arith, p)
        | inl same ↦ elim (Option-cases (successor h m.keys)) [
          | inl none_there ↦ inl (ground arith)
          | inr (k, e) ↦ elim (g.owners k) [
            | inl kept ↦ inl (ground arith)
            | inr (s, found, p) ↦ inr (s, after ∙ ground arith, p)
          ]
        ]
      ]

  -- With at least one replica and at least one node, Get on a new ring to which the nodes were
  -- added returns one of the nodes for every key.
  pub get-add-new :
      (replicas : ℕ) (fn : Option (Str → ℕ)) (nodes : List Str) (key : Str)
      → 0 < replicas
      → 0 < length nodes
      → All P nodes
      → (s : Str) × (get key (add nodes (new replicas fn)) ≡ some s) × P s
  unfolding new successor least_from owner
  get-add-new replicas fn nodes key r n ps =
      let m : Map = new replicas fn in
      let m' = add nodes m in
      let g = add-Grew nodes m ps in
      let after = get-successor key m' (add-IsSorted nodes m) in
      elim (successor-Grew m m' (m'.hash key) g) [
        | inr (k, e, (s, found, p)) ↦ (s, after ∙ ground arith, p)
        | inl same ↦
            let empty = successor-none (m'.hash key) m'.keys same in
            let some_key = mul-pos r n in
            absurd (omega (arith, (length-add nodes m).1, empty, some_key))
      ]
