-- ===== src/GeeCache/HttpPool.antt =====
-- geecache/http.go: the peers of a node, and which of them has a key.
--
-- A nil pointer is `none`. `none` of a pick is a panic: of the ring, or of the ring's absence.
pub mod Picking
mod Tests
use distributed_study.Common.{
  ℕ, Str, Dict, lookup, insert, bytes, Option, none, some, List, [], ◌∷◌, ◌++◌, Bool, true, false,
  not, ◌&&◌, ◌==◌, nat_key, str_key, if◌then◌else◌,
}
use distributed_study.GeeCache.ConsistentHash
use distributed_study.GeeCache.ConsistentHash.{Map}

pub record HttpGetter : Type 0 where
  pub base_url : Str

pub record HttpPool : Type 0 where
  pub self : Str
  pub base_path : Str
  pub peers : Option Map
  pub http_getters : Dict Str HttpGetter

abbrev pub default_base_path : Str
default_base_path = bytes "/_geecache/"

abbrev pub default_replicas : ℕ
default_replicas = 50

unfoldable pub new_http_pool : Str → HttpPool
new_http_pool self = record {
  self = self;
  base_path = default_base_path;
  peers = none;
  http_getters = [];
}

-- The loop of `Set`.
pub make_getters : Str → List Str → Dict Str HttpGetter → Dict Str HttpGetter
make_getters base_path [] getters = getters
make_getters base_path (peer ∷ rest) getters =
    make_getters base_path rest (insert peer (record { base_url = peer ++ base_path }) getters)

unfoldable pub set : List Str → HttpPool → HttpPool
set peers p = record p {
  peers = some (ConsistentHash.add peers (ConsistentHash.new default_replicas none));
  http_getters = make_getters p.base_path peers [];
}

pub data Picked : Type 0 where
  nobody : Picked
  picked : Option HttpGetter → Picked

-- The test of `PickPeer` on what the ring answers.
pub choose_getter : Str → HttpPool → Picked
choose_getter peer p =
    if not (peer == []) && not (peer == p.self) then picked (lookup peer p.http_getters) else nobody

pub pick_peer : Str → HttpPool → Option Picked
pick_peer key p = elim p.peers [
  | none ↦ none
  | some ring ↦ elim (ConsistentHash.get key ring) [
    | none ↦ none
    | some peer ↦ some (choose_getter peer p)
  ]
]
