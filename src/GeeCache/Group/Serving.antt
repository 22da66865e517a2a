-- ===== src/GeeCache/Group/Serving.antt =====
-- A group answers as its getter does, whatever is in its cache.
use distributed_study.Common.{
  ◌+◌, ◌<◌, ◌≡◌, ◌⊎◌, ◌∙◌, refl, sym, ap, Str, lookup, bytes, Option, none, some, ◌>>=◌, List, [],
  ◌∷◌, map, false, ◌==◌, str_key, str_beq, str_beq_iff, if◌then◌else◌, arith, length, i64_half,
  Option-cases, Bool-cases, inl, inr,
}
use distributed_study.GeeCache.Cache
use distributed_study.GeeCache.Cache.{ByteView, len}
use distributed_study.GeeCache.Cache.Kept.{held, IsValid, get-IsValid, add-IsValid}
use distributed_study.GeeCache.Group.{
  Result, ok, err, Group, view, get_from_peer, populate_cache, get_locally, ask_peer, load, get,
}

-- What a reader of the group would get from the getter itself.
unfoldable pub direct : (Str → Result Str) → Str → Result ByteView
direct getter key =
    if key == []
    then err (bytes "key is required")
    else elim (getter key) [ ok b ↦ ok (view b) | err e ↦ err e ]

-- The cache is valid, and holds under a key only what the getter gives for it.
pub record IsCoherent (g : Group) : Type 0 where
  pub valid : IsValid g.main_cache
  pub cached :
      (k : Str) (v : ByteView) → lookup k (held g.main_cache) ≡ some v → g.getter k ≡ ok v.b

-- Whatever the getter gives leaves room in an int64.
abbrev pub HasRoom : Group → Type 0
HasRoom g =
    (k b : Str) → g.getter k ≡ ok b → g.main_cache.cache_bytes + (length k + length b) < i64_half

-- What a peer answers with success is what the getter gives.
abbrev pub AgreesAt : Str → Group → Type 0
AgreesAt k g = (v : ByteView) → ask_peer k g ≡ some (ok v) → g.getter k ≡ ok v.b

abbrev pub Agrees : Group → Type 0
Agrees g = (k : Str) → AgreesAt k g

pub Result-cases : {A : Type 0} (r : Result A) → ((a : A) × (r ≡ ok a)) ⊎ ((e : Str) × (r ≡ err e))
Result-cases (ok a) = inl (a, refl)
Result-cases (err e) = inr (e, refl)

-- What a call of a group keeps.
pub record Kept (g g' : Group) : Type 0 where
  pub coherent : IsCoherent g'
  pub getter_same : g'.getter ≡ g.getter
  pub room : HasRoom g'
  pub peers_same : (q : Str) → ask_peer q g' ≡ ask_peer q g

pub Kept-Agrees : (g g' : Group) → Kept g g' → Agrees g → Agrees g'
Kept-Agrees g g' keeps agrees k v e =
    let there = agrees k v (sym (keeps.peers_same k) ∙ e) in
    ap (λ (f : Str → Result Str). f k) keeps.getter_same ∙ there

module _ (k : Str) (g : Group) (h : IsCoherent g) (room : HasRoom g) (agrees : AgreesAt k g) where
  populate_cache-Kept :
      (b : Str)
      → g.getter k ≡ ok b
      → (g' : Group) × (populate_cache k (view b) g ≡ some g') × Kept g g'
  unfolding populate_cache ask_peer get_from_peer
  populate_cache-Kept b e =
      let (c', added, valid, bytes_same, origin) =
        add-IsValid k (view b) g.main_cache h.valid (room k b e) in
      (
        record g { main_cache = c' },
        rw added refl,
        record {
          coherent = record {
            valid = valid;
            cached = λ q w there. elim (Bool-cases (str_beq k q)) [
              | inl same ↦
                  ground (
                    arith,
                    origin q w there,
                    str_beq_iff k q,
                    ap g.getter ((str_beq_iff k q).0 same),
                  )
              | inr differs ↦ h.cached q w (rw (sym (origin q w there)) (rw differs refl))
            ];
          };
          getter_same = refl;
          room = λ q w gives. rw bytes_same (room q w gives);
          peers_same = λ q. refl;
        },
      )

  Kept-refl : Kept g g
  Kept-refl = record { coherent = h; getter_same = refl; room = room; peers_same = λ q. refl }

  get_locally-Kept :
      str_beq k [] ≡ false
      → (g' : Group) × (get_locally k g ≡ some (direct g.getter k, g')) × Kept g g'
  unfolding get_locally direct
  get_locally-Kept named = elim (Result-cases (g.getter k)) [
    | inl (b, e) ↦
        let (g', put, keeps) = populate_cache-Kept b e in
        (g', rw (named, e, get_locally) (rw put refl), keeps)
    | inr (why, e) ↦ (g, rw (named, e, get_locally) refl, Kept-refl)
  ]

  load-Kept :
      str_beq k [] ≡ false → (g' : Group) × (load k g ≡ some (direct g.getter k, g')) × Kept g g'
  unfolding load
  load-Kept named =
      let (g', local, keeps) = get_locally-Kept named in
      elim (Option-cases (ask_peer k g)) [
        | inl alone ↦ (g', rw (alone, load) local, keeps)
        | inr (answer, asked) ↦ elim (Result-cases answer) [
          | inl (v, e) ↦
              let given = agrees v (asked ∙ ap some e) in
              (g, rw (asked, load) (rw e (unfold direct in rw (named, given) refl)), Kept-refl)
          | inr (why, e) ↦ (g', rw (asked, load) (rw e local), keeps)
        ]
      ]

get_step :
    (k : Str) (g : Group) (c : Cache.Cache) (hit : Option ByteView)
    → str_beq k [] ≡ false
    → Cache.get k g.main_cache ≡ some (hit, c)
    → get k g ≡ elim hit [
      | some v ↦ some (ok v, record g { main_cache = c })
      | none ↦ load k (record g { main_cache = c })
    ]
unfolding get
get_step k g c hit named got = rw (named, got) refl

pub get-Kept :
    (k : Str) (g : Group)
    → IsCoherent g
    → HasRoom g
    → AgreesAt k g
    → (g' : Group) × (get k g ≡ some (direct g.getter k, g')) × Kept g g'
unfolding get direct ask_peer get_from_peer
get-Kept k g h room agrees = elim (Bool-cases (str_beq k [])) [
  | inl empty ↦ (g, rw empty refl, Kept-refl k g h room agrees)
  | inr named ↦
      let (c', got, valid, bytes_same, same) = get-IsValid k g.main_cache h.valid in
      let g1 : Group = record g { main_cache = c' } in
      let h1 : IsCoherent g1 = record {
        valid = valid;
        cached = λ q v e. h.cached q v (sym (same q) ∙ e);
      } in
      let room1 : HasRoom g1 = λ q b e. rw bytes_same (room q b e) in
      elim (Option-cases (lookup k (held g.main_cache))) [
        | inl missing ↦
            let (g', loaded, keeps) = load-Kept k g1 h1 room1 agrees named in
            (
              g',
              get_step k g c' none named (got ∙ ap (λ (o : Option ByteView). some (o, c')) missing)
                  ∙ loaded,
              record {
                coherent = keeps.coherent;
                getter_same = keeps.getter_same;
                room = keeps.room;
                peers_same = keeps.peers_same;
              },
            )
        | inr (v, hit) ↦ (
          g1,
          get_step k g c' (some v) named (got ∙ ap (λ (o : Option ByteView). some (o, c')) hit)
              ∙ rw (named, h.cached k v hit) refl,
          record { coherent = h1; getter_same = refl; room = room1; peers_same = λ q. refl },
        )
      ]
]

unfoldable pub gets : List Str → Group → Option (List (Result ByteView) × Group)
gets [] g = some ([], g)
gets (k ∷ ks) g = do (r, g') ← get k g; (rs, g'') ← gets ks g'; some (r ∷ rs, g'')

pub gets-direct :
    (ks : List Str) (g : Group)
    → IsCoherent g
    → HasRoom g
    → Agrees g
    → (g' : Group) × (gets ks g ≡ some (map (direct g.getter) ks, g')) × IsCoherent g'
unfolding gets
gets-direct [] g h room agrees = (g, refl, h)
gets-direct (k ∷ ks) g h room agrees =
    let (g1, got, keeps) = get-Kept k g h room (agrees k) in
    let (g', rest, coherent) =
      gets-direct ks g1 keeps.coherent keeps.room (Kept-Agrees g g1 keeps agrees) in
    (g', rw got (rw (rest, keeps.getter_same) refl), coherent)
