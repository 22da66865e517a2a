-- ===== src/GeeCache/HttpPool/Tests.antt =====
-- A node with two peers on a small ring.
use distributed_study.Common.{
  ◌≡◌, refl, bytes, Str, lookup, insert, contains, str_beq, str_key, length, some, none, List, [],
  ◌∷◌, ◌++◌, true, not, ◌&&◌, ◌==◌, if◌then◌else◌, arith,
}
use distributed_study.GeeCache.ConsistentHash
use distributed_study.GeeCache.ConsistentHash.{Map}
use distributed_study.GeeCache.HttpPool.{
  HttpPool, new_http_pool, make_getters, set, nobody, picked, choose_getter, pick_peer,
}
use distributed_study.GeeCache.HttpPool.Picking.{pick_peer-set}

program : Unit {0}
unfolding new_http_pool make_getters set choose_getter pick_peer lookup insert str_beq
    ConsistentHash.get ConsistentHash.owner ConsistentHash.search ConsistentHash.search_loop
    ConsistentHash.at_least
program = tt

abbrev ring : Map
ring = record {
  hash = length;
  replicas = 1;
  keys = 2 ∷ 4 ∷ [];
  has_map = (2, bytes "http://a") ∷ (4, bytes "http://b") ∷ [];
}

node : HttpPool
unfolding new_http_pool make_getters insert str_beq
node = record (new_http_pool (bytes "http://a")) {
  peers = some ring;
  http_getters = make_getters (bytes "/_geecache/") (bytes "http://a" ∷ bytes "http://b" ∷ []) [];
}

abbrev peers : List Str
peers = bytes "http://a" ∷ bytes "http://b" ∷ []

picks :
    (pick_peer (bytes "k") node ≡ some nobody)
    × (pick_peer (bytes "key") node
        ≡ some (picked (some (record { base_url = bytes "http://b/_geecache/" }))))
    × (pick_peer (bytes "key") (new_http_pool []) ≡ none)
unfolding program node
picks = (refl, refl, refl)

pick_peer-set_example :
    (s : Str) × (contains s peers ≡ true)
    × ((p : HttpPool)
        → pick_peer (bytes "key") (set peers p)
          ≡ some (
              if not (s == []) && not (s == p.self)
              then picked (some (record { base_url = s ++ p.base_path }))
              else nobody))
pick_peer-set_example = pick_peer-set peers (bytes "key") (omega arith)
