-- ===== src/GeeCache/Group.antt =====
-- geecache/geecatche.go and peers.go: a group, which serves keys from its cache, a peer or its
-- getter.
--
-- The getter and the peers are functions, as the interfaces `Getter`, `PerrPicker` and `PeerGetter`
-- are; what stands behind them does not change during a call. `none` of an outcome is a panic, or
-- what the cache has as `none`. `load` runs the function that it hands to the singleflight group,
-- whose goroutines are in `GeeCache.SingleFlight`.
pub mod Serving
mod Tests
use distributed_study.Common.{
  ℕ, Str, Dict, lookup, insert, bytes, Option, none, some, ◌>>=◌, [], ◌==◌, str_key, if◌then◌else◌,
}
use distributed_study.GeeCache.Cache
use distributed_study.GeeCache.Cache.{ByteView, clone_bytes}

pub data Result {ℓ} (A : Type ℓ) : Type ℓ where
  ok : A → Result A
  err : Str → Result A

-- A peer takes the name of the group and the key.
abbrev pub Peer : Type 0
Peer = Str → Str → Result Str

-- `PickPeer`; `none` is its second result `false`.
abbrev pub Picker : Type 0
Picker = Str → Option Peer

pub record Group : Type 0 where
  pub name : Str
  pub getter : Str → Result Str
  pub main_cache : Cache.Cache
  pub peers : Option Picker

abbrev pub view : Str → ByteView
view b = record { b = b }

unfoldable pub get_from_peer : Peer → Str → Group → Result ByteView
get_from_peer peer key g = elim (peer g.name key) [ err e ↦ err e | ok value ↦ ok (view value) ]

unfoldable pub populate_cache : Str → ByteView → Group → Option Group
populate_cache key value g = do
  c ← Cache.add key value g.main_cache
  some (record g { main_cache = c })

unfoldable pub get_locally : Str → Group → Option (Result ByteView × Group)
get_locally key g = elim (g.getter key) [
  | err e ↦ some (err e, g)
  | ok b ↦ do g' ← populate_cache key (view (clone_bytes b)) g; some (ok (view (clone_bytes b)), g')
]

-- The answer of the peer that the key is left to; `none` where there are no peers, or none is
-- picked.
unfoldable pub ask_peer : Str → Group → Option (Result ByteView)
ask_peer key g = elim g.peers [
  | none ↦ none
  | some pick ↦ elim (pick key) [ none ↦ none | some peer ↦ some (get_from_peer peer key g) ]
]

-- The function that `load` hands to `Do`.
unfoldable pub load : Str → Group → Option (Result ByteView × Group)
load key g = elim (ask_peer key g) [
  | none ↦ get_locally key g
  | some answer ↦ elim answer [ ok v ↦ some (ok v, g) | err e ↦ get_locally key g ]
]

unfoldable pub get : Str → Group → Option (Result ByteView × Group)
get key g = if key == [] then some (err (bytes "key is required"), g) else (do
  (hit, c) ← Cache.get key g.main_cache
  elim hit [
    | some v ↦ some (ok v, record g { main_cache = c })
    | none ↦ load key (record g { main_cache = c })
  ])

-- A second call panics.
unfoldable pub register_peers : Picker → Group → Option Group
register_peers pick g = elim g.peers [
  | none ↦ some (record g { peers = some pick })
  | some old ↦ none
]

-- `NewGroup`, over the groups that there are; a nil getter panics.
unfoldable pub new_group :
    Str → ℕ → Option (Str → Result Str) → Dict Str Group → Option (Group × Dict Str Group)
new_group name cache_bytes getter groups = elim getter [
  | none ↦ none
  | some f ↦
      let g : Group = record {
        name = name;
        getter = f;
        main_cache = record { lru = none; cache_bytes = cache_bytes };
        peers = none;
      } in
      some (g, insert name g groups)
]

unfoldable pub get_group : Str → Dict Str Group → Option Group
get_group name groups = lookup name groups
