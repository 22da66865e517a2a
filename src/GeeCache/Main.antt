-- ===== src/GeeCache/Main.antt =====
-- geecache/main/main.go: the example's group over its database, the page for its users, and a node.
--
-- Ports and addresses are the program's own; `as_picker` is a pool as an interface value. `none` is
-- a panic. The order in which the loop meets the addresses is the caller's, as Go leaves it open.
pub mod Pages
mod Tests
use distributed_study.Common.{
  ℕ, Str, Dict, lookup, bytes, Option, none, some, ◌>>=◌, List, [], ◌∷◌, ◌++◌, nat_key, str_key,
  ltb, length, drop, if◌then◌else◌, Bool,
}
use distributed_study.GeeCache.Cache.{ByteView, clone_bytes}
use distributed_study.GeeCache.Group
use distributed_study.GeeCache.Group.{Result, ok, err, Group, Picker}
use distributed_study.GeeCache.HttpPool.{HttpPool}
use distributed_study.GeeCache.Requests.{Response, http_error}
use distributed_study.GeeCache.Cluster.{start_cache_server}

abbrev pub db : Dict Str Str
db = (bytes "Tom", bytes "630") ∷ (bytes "Jack", bytes "589") ∷ (bytes "Sam", bytes "567") ∷ []

-- The getter of `createGroup`.
unfoldable pub search_db : Str → Result Str
search_db key = elim (lookup key db) [ some v ↦ ok v | none ↦ err (key ++ bytes " not exist") ]

unfoldable pub create_group : Dict Str Group → Option (Group × Dict Str Group)
create_group groups = Group.new_group (bytes "scores") 2048 (some search_db) groups

unfoldable pub write_page : Result ByteView → Response
write_page (err e) = http_error e 500
write_page (ok view) = record { status = 200; body = clone_bytes view.b }

-- The handler of `startAPIServer`, for the key in the query.
unfoldable pub serve_api : Str → Group → Option (Response × Group)
serve_api key gee = do (view, gee') ← Group.get key gee; some (write_page view, gee')

abbrev pub addr_map : Dict ℕ Str
addr_map =
    (8001, bytes "http://localhost:8001")
    ∷ (8002, bytes "http://localhost:8002")
    ∷ (8003, bytes "http://localhost:8003")
    ∷ []

-- `addr[7:]`, which panics where the address is shorter.
unfoldable pub listen_addr : Str → Option Str
listen_addr addr = if ltb (length addr) 7 then none else some (drop 7 addr)

-- A missing port has the empty address.
unfoldable pub addr_of : ℕ → Str
addr_of port = elim (lookup port addr_map) [ some addr ↦ addr | none ↦ [] ]

-- `main` up to listening: the address of the node, its pool, and its group.
unfoldable pub start_node : (HttpPool → Picker) → ℕ → List Str → Option (Str × (HttpPool × Group))
start_node as_picker port addrs = do
  (gee, groups) ← create_group []
  (peers, gee') ← start_cache_server as_picker (addr_of port) addrs gee
  listen ← listen_addr (addr_of port)
  some (listen, (peers, gee'))
