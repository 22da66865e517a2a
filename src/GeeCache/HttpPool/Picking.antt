-- ===== src/GeeCache/HttpPool/Picking.antt =====
-- Which peer a node picks for a key.
use distributed_study.Common.{
  ◌<◌, ◌≡◌, refl, Str, Dict, lookup, insert, lookup-insert, contains, none, some, List, [], ◌∷◌,
  ◌++◌, length, true, not, ◌&&◌, ◌==◌, nat_key, str_key, str_beq_iff, if◌then◌else◌, arith, All,
}
use distributed_study.GeeCache.ConsistentHash.Adding.{get-add-new}
use distributed_study.GeeCache.HttpPool.{
  HttpGetter, HttpPool, default_replicas, make_getters, set, nobody, picked, choose_getter,
  pick_peer,
}

lookup-make_getters :
    (base_path s : Str) (peers : List Str) (getters : Dict Str HttpGetter)
    → lookup s (make_getters base_path peers getters)
      ≡ (if contains s peers then some (record { base_url = s ++ base_path }) else lookup s getters)
unfolding make_getters contains
lookup-make_getters base_path s [] getters = refl
lookup-make_getters base_path s (peer ∷ rest) getters =
    let getter : HttpGetter = record { base_url = peer ++ base_path } in
    let others = lookup-make_getters base_path s rest (insert peer getter getters) in
    let added = lookup-insert peer s getter getters in
    let same = str_beq_iff peer s in let back = str_beq_iff s peer in ground arith

All-contains :
    (all l : List Str)
    → ((s : Str) → contains s l ≡ true → contains s all ≡ true)
    → All (λ (s : Str). contains s all ≡ true) l
unfolding contains
All-contains all [] h = tt
All-contains all (s ∷ l) h =
    let same = str_beq_iff s s in
    (h s (ground arith), All-contains all l (λ t within. h t (ground arith)))

-- Once peers are set, at least one, a pick does not panic, and all nodes with the same peers agree:
-- each key has one of the peers, and the pick is the getter of that peer's URL, or nobody where the
-- peer is the node itself or is empty.
pub pick_peer-set :
    (peers : List Str) (key : Str)
    → 0 < length peers
    → (s : Str) × (contains s peers ≡ true)
      × ((p : HttpPool)
          → pick_peer key (set peers p)
            ≡ some (
                if not (s == []) && not (s == p.self)
                then picked (some (record { base_url = s ++ p.base_path }))
                else nobody))
unfolding pick_peer set choose_getter
pick_peer-set peers key h =
    let (s, answer, within) =
      get-add-new (λ (t : Str). contains t peers ≡ true) default_replicas none peers key
        (omega arith) h (All-contains peers peers (λ t e. e)) in
    (s, within, λ p. let getter = lookup-make_getters p.base_path s peers [] in ground arith)
