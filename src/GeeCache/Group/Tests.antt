-- ===== src/GeeCache/Group/Tests.antt =====
-- A group with one key behind its getter, and a peer that has the same.
use distributed_study.Common.{
  ◌≡◌, ◌∙◌, ap, sym, refl, bytes, Str, lookup, insert, erase, str_beq, str_beq_iff, str_key, length,
  Option, none, some, List, [], ◌∷◌, map, if◌then◌else◌, arith, Bool-cases, inl, inr,
}
use distributed_study.GeeCache.Lru
use distributed_study.GeeCache.Cache
use distributed_study.GeeCache.Cache.{ByteView}
use distributed_study.GeeCache.Cache.Kept.{held, new-IsValid}
use distributed_study.GeeCache.Group.{
  Result, ok, err, Group, Picker, view, get_from_peer, populate_cache, get_locally, ask_peer, load,
  get, register_peers, new_group, get_group,
}
use distributed_study.GeeCache.Group.Serving.{
  direct, IsCoherent, HasRoom, Agrees, gets, gets-direct,
}

program : Unit {0}
unfolding Lru.new Lru.len get_from_peer populate_cache get_locally ask_peer load get register_peers
    new_group get_group direct gets held Cache.init_lru Cache.add Cache.get Lru.get Lru.add
    Lru.store Lru.evict Lru.over Lru.remove_oldest Lru.find_id Lru.remove_id Lru.back lookup insert
    erase str_beq
program = tt

abbrev db : Str → Result Str
db k = if str_beq k (bytes "Tom") then ok (bytes "630") else err (bytes "not found")

abbrev peers : Picker
peers k = if str_beq k (bytes "Tom") then some (λ name key. db key) else none

abbrev scores : Group
scores = record {
  name = bytes "scores";
  getter = db;
  main_cache = record { lru = none; cache_bytes = 2048 };
  peers = some peers;
}

alone : Group
alone = record scores { peers = none }

made :
    (new_group (bytes "scores") 2048 (some db) [] ≡ some (alone, (bytes "scores", alone) ∷ []))
    × (new_group (bytes "scores") 2048 none [] ≡ none)
    × (get_group (bytes "scores") ((bytes "scores", alone) ∷ []) ≡ some alone)
    × (register_peers peers alone ≡ some scores)
    × (register_peers peers scores ≡ none)
unfolding program alone
made = (refl, refl, refl, refl, refl)

answers : List (Result ByteView)
answers =
    ok (view (bytes "630"))
    ∷ err (bytes "not found")
    ∷ err (bytes "key is required")
    ∷ ok (view (bytes "630"))
    ∷ []

abbrev keys : List Str
keys = bytes "Tom" ∷ bytes "Sam" ∷ [] ∷ bytes "Tom" ∷ []

responses : Option (List (Result ByteView) × Group) → List (Result ByteView)
responses none = []
responses (some (rs, g)) = rs

served : responses (gets keys alone) ≡ answers
unfolding program answers alone responses
served = refl

scores-IsCoherent : IsCoherent scores
unfolding lookup
scores-IsCoherent =
    let (valid, empty) = new-IsValid 2048 (omega arith) (omega arith) in
    record {
      valid = valid;
      cached = λ k v e. let e' : none ≡ some v = sym (ap (lookup k) empty) ∙ e in ground arith;
    }

scores-HasRoom : HasRoom scores
scores-HasRoom k b e = elim (Bool-cases (str_beq k (bytes "Tom"))) [
  | inl tom ↦
      let is : k ≡ bytes "Tom" = (str_beq_iff k (bytes "Tom")).0 tom in ground (arith, ap length is)
  | inr other ↦ ground arith
]

scores-Agrees : Agrees scores
unfolding ask_peer get_from_peer
scores-Agrees k v e = elim (Bool-cases (str_beq k (bytes "Tom"))) [
  | inl tom ↦ ground arith
  | inr other ↦ ground arith
]

gets-direct_example :
    (g' : Group) × (gets keys scores ≡ some (map (direct db) keys, g')) × IsCoherent g'
gets-direct_example = gets-direct keys scores scores-IsCoherent scores-HasRoom scores-Agrees
