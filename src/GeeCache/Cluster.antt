-- ===== src/GeeCache/Cluster.antt =====
-- geecache/main/main.go, startCacheServer, with geecatche.go and http.go: nodes that share a list of
-- peers and ask one another.
--
-- A node's pool is a `PerrPicker`, whose peers are `httpGetter`s. `net` is `http.Get`.
pub mod Agreement
mod Tests
use distributed_study.Common.{Str, Option, none, some, List, ◌≡◌, ◌>>=◌}
use distributed_study.GeeCache.Group
use distributed_study.GeeCache.Group.{Result, Group, Picker}
use distributed_study.GeeCache.HttpPool
use distributed_study.GeeCache.HttpPool.{HttpGetter, HttpPool, nobody, picked}
use distributed_study.GeeCache.Requests
use distributed_study.GeeCache.Requests.{Answer}

-- The pool as the group's `PerrPicker`, where `PickPeer` does not panic.
pub record PicksFrom (net : Str → Answer) (query_escape : Str → Str) (unmarshal : Str → Result Str)
    (p : HttpPool) (pick : Picker) : Type 0 where
  pub is_nobody : (key : Str) → HttpPool.pick_peer key p ≡ some nobody → pick key ≡ none
  pub is_peer :
      (key : Str) (h : HttpGetter)
      → HttpPool.pick_peer key p ≡ some (picked (some h))
      → pick key ≡ some (Requests.get net query_escape unmarshal h)

-- What `ListenAndServe` is given, and the group with its peers. `as_picker` is the pool as an
-- interface value.
unfoldable pub start_cache_server :
    (HttpPool → Picker) → Str → List Str → Group → Option (HttpPool × Group)
start_cache_server as_picker addr addrs gee =
    let peers = HttpPool.set addrs (HttpPool.new_http_pool addr) in
    do gee' ← Group.register_peers (as_picker peers) gee; some (peers, gee')
