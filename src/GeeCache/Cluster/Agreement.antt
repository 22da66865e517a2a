-- ===== src/GeeCache/Cluster/Agreement.antt =====
-- Whichever node of a cluster is asked, the answer is the getter's.
use distributed_study.Common.{
  ◌<◌, ◌≡◌, ◌∙◌, sym, refl, ap, Str, Dict, none, some, List, [], ◌∷◌, ◌++◌, contains, true, false,
  not, ◌&&◌, ◌==◌, str_key, nat_key, str_beq, str_beq_iff, length, has_byte, if◌then◌else◌, arith,
  Bool-cases, inl, inr,
}
use distributed_study.GeeCache.Cache.{ByteView}
use distributed_study.GeeCache.Group
use distributed_study.GeeCache.Group.{Result, ok, err, Group, Picker, view, ask_peer, get_from_peer}
use distributed_study.GeeCache.Group.Serving.{
  direct, IsCoherent, HasRoom, Kept, get-Kept, Result-cases,
}
use distributed_study.GeeCache.HttpPool
use distributed_study.GeeCache.HttpPool.{
  HttpGetter, HttpPool, nobody, picked, pick_peer, new_http_pool, default_base_path,
}
use distributed_study.GeeCache.HttpPool.Picking.{pick_peer-set}
use distributed_study.GeeCache.Requests
use distributed_study.GeeCache.Requests.{Response, Answer, answer, serve_http}
use distributed_study.GeeCache.Requests.Answers.{passed_on, get-serve_http}
use distributed_study.GeeCache.Cluster.{PicksFrom}

direct-passed_on :
    (getter : Str → Result Str) (k : Str) (v : Str)
    → passed_on (direct getter k) ≡ ok v
    → getter k ≡ ok v
unfolding passed_on direct
direct-passed_on getter k v e = elim (Bool-cases (str_beq k [])) [
  | inl empty ↦ ground arith
  | inr named ↦ elim (Result-cases (getter k)) [
    | inl (b, given) ↦ ground arith
    | inr (why, given) ↦ ground arith
  ]
]

own_key : {A : Type 0} (s : Str) (a b : A) → (if not (s == []) && not (s == s) then a else b) ≡ b
own_key s a b = let same = str_beq_iff s s in ground arith

-- What a peer's success says of its answer.
pub asked_of :
    (k : Str) (g : Group) (pick : Picker) (peer : Group.Peer) (v : ByteView)
    → g.peers ≡ some pick
    → pick k ≡ some peer
    → ask_peer k g ≡ some (ok v)
    → peer g.name k ≡ ok v.b
unfolding ask_peer get_from_peer
asked_of k g pick peer v registered chosen e =
    let e' : some (get_from_peer peer k g) ≡ some (ok v) =
      sym (rw (registered, ask_peer) (rw chosen refl)) ∙ e in
    elim (Result-cases (peer g.name k)) [
      | inl (b, said) ↦ ground (arith, ap (λ (w : ByteView). w.b))
      | inr (why, said) ↦ ground arith
    ]

-- A node at an address, with its groups: the group of the name answers with the getter, and asks
-- the peers that the node has set.
pub record IsNode (net : Str → Answer) (query_escape : Str → Str) (unmarshal : Str → Result Str)
    (peers : List Str) (name : Str) (getter : Str → Result Str) (addr : Str)
    (groups : Dict Str Group) : Type 0 where
  pub group : Group
  pub there : Group.get_group name groups ≡ some group
  pub named : group.name ≡ name
  pub same_getter : group.getter ≡ getter
  pub coherent : IsCoherent group
  pub room : HasRoom group
  pub pick : Picker
  pub registered : group.peers ≡ some pick
  pub picks : PicksFrom net query_escape unmarshal (HttpPool.set peers (new_http_pool addr)) pick

module _ (net : Str → Answer) (query_escape unescape : Str → Str)
    (marshal unmarshal : Str → Result Str) (peers : List Str) (name : Str)
    (getter : Str → Result Str) (at : Str → Dict Str Group) (k : Str)
    (inverse : (b : Str) → (m : Str) × (marshal b ≡ ok m) × (unmarshal m ≡ ok b))
    (one_part : has_byte b'/' name ≡ false)
    (unescaped : unescape (default_base_path ++ (query_escape name ++ b'/' ∷ query_escape k))
      ≡ default_base_path ++ (name ++ b'/' ∷ k))
    (some_peer : 0 < length peers)
    (nodes : (s : Str)
      → contains s peers ≡ true
      → IsNode net query_escape unmarshal peers name getter s (at s))
    (delivers : (s : Str)
      → contains s peers ≡ true
      → (rest : Str) (res : Response) (after : Dict Str Group)
      → serve_http marshal (unescape rest) (HttpPool.set peers (new_http_pool s)) (at s)
        ≡ some (res, after)
      → net (s ++ rest) ≡ answer res.status (ok res.body)) where
  -- A node that picks nobody answers on its own.
  alone-Kept :
      (a : Str) (groups : Dict Str Group)
      (node : IsNode net query_escape unmarshal peers name getter a groups)
      → pick_peer k (HttpPool.set peers (new_http_pool a)) ≡ some nobody
      → (g' : Group) × (Group.get k node.group ≡ some (direct getter k, g')) × Kept node.group g'
  unfolding ask_peer
  alone-Kept a groups node e =
      let asked : ask_peer k node.group ≡ none =
        rw node.registered (rw (node.picks.is_nobody k e) refl) in
      let (g', got, keeps) =
        get-Kept k node.group node.coherent node.room
          (λ v there. let e' : none ≡ some (ok v) = sym asked ∙ there in ground arith) in
      (g', got ∙ ap (λ (f : Str → Result Str). some (direct f k, g')) node.same_getter, keeps)

  -- What a node is answered by the peer of the key.
  asked :
      (s : Str)
      → contains s peers ≡ true
      → pick_peer k (HttpPool.set peers (new_http_pool s)) ≡ some nobody
      → Requests.get net query_escape unmarshal
          (record { base_url = s ++ default_base_path })
          name
          k
        ≡ passed_on (direct getter k)
  unfolding new_http_pool HttpPool.set
  asked s within e =
      let node = nodes s within in
      let (g', got, keeps) = alone-Kept s (at s) node e in
      let p = HttpPool.set peers (new_http_pool s) in
      get-serve_http net query_escape unescape marshal unmarshal s name k p (at s) node.group g'
        (direct getter k) inverse unescaped one_part node.there got (delivers s within)

  -- Where nodes have the same getter and have set the same peers, at least one, and every peer
  -- is such a node, a Get on any of the nodes answers what the getter gives directly, whoever
  -- has the key, and leaves the node's cache holding only what the getter gives, if each
  -- node's cache is valid and holds under a key nothing but what the getter gives for it,
  -- whatever the getter gives leaves room in an int64, the name of the group has no slash, the
  -- path for the key is received as it was before escaping, the responses of the peers are
  -- delivered, and Unmarshal gives back what Marshal was given.
  pub cluster_get :
      (a : Str) (groups : Dict Str Group)
      (node : IsNode net query_escape unmarshal peers name getter a groups)
      → (g' : Group) × (Group.get k node.group ≡ some (direct getter k, g')) × Kept node.group g'
  unfolding ask_peer get_from_peer new_http_pool
  cluster_get a groups node =
      let (s, owner, picks) = pick_peer-set peers k some_peer in
      let at_owner : pick_peer k (HttpPool.set peers (new_http_pool s)) ≡ some nobody =
        picks (new_http_pool s) ∙ ap some (own_key s _ nobody) in
      elim (Bool-cases (not (s == []) && not (s == a))) [
        | inl other ↦
            let chosen = picks (new_http_pool a) ∙ rw other refl in
            let picked_peer =
              node.picks.is_peer k (record { base_url = s ++ default_base_path }) chosen in
            let (g', got, keeps) = get-Kept k node.group node.coherent node.room (λ v there.
              let said = asked_of k node.group node.pick _ v node.registered picked_peer there in
              ap (λ (f : Str → Result Str). f k) node.same_getter
              ∙ direct-passed_on getter k v.b (
                  sym (asked s owner at_owner)
                  ∙ ap
                      (λ n.
                        Requests.get net query_escape unmarshal
                          (record { base_url = s ++ default_base_path }) n k)
                      (sym node.named)
                  ∙ said)) in
            (g', got ∙ ap (λ (f : Str → Result Str). some (direct f k, g')) node.same_getter, keeps)
        | inr self ↦ alone-Kept a groups node (picks (new_http_pool a) ∙ rw self refl)
      ]
