-- ===== src/GeeCache/Requests/Tests.antt =====
-- A node that serves one group, and another that asks it.
use distributed_study.Common.{
  ℕ, ◌≡◌, refl, bytes, Str, Dict, lookup, insert, erase, str_beq, str_key, nat_key, has_byte, none,
  some, Option, [], ◌∷◌, ◌++◌, if◌then◌else◌,
}
use distributed_study.GeeCache.Lru
use distributed_study.GeeCache.Cache
use distributed_study.GeeCache.Cache.{ByteView}
use distributed_study.GeeCache.Group
use distributed_study.GeeCache.Group.{Result, ok, err, Group, view}
use distributed_study.GeeCache.HttpPool.{HttpPool}
use distributed_study.GeeCache.Requests.{
  Response, has_prefix, split_once, write_view, serve_http, get_url, read_answer, get,
}
use distributed_study.GeeCache.Requests.Answers.{passed_on, get-serve_http}
use distributed_study.GeeCache.Requests.Network.{http_get, http_get-handler}

program : Unit {0}
unfolding has_prefix split_once write_view serve_http get_url read_answer get http_get passed_on
    has_byte lookup insert erase str_beq Group.get_group Group.get Group.load Group.ask_peer
    Group.get_from_peer Group.get_locally Group.populate_cache Cache.init_lru Cache.add Cache.get
    Lru.new Lru.len Lru.get Lru.add Lru.store Lru.evict Lru.over Lru.remove_oldest Lru.find_id
    Lru.remove_id Lru.back
program = tt

abbrev scores : Group
scores = record {
  name = bytes "scores";
  getter = λ k. if str_beq k (bytes "Tom") then ok (bytes "630") else err (bytes "not found");
  main_cache = record { lru = none; cache_bytes = 2048 };
  peers = none;
}

abbrev filled : Group
filled = record scores {
  main_cache = record {
    lru = some (record {
      max_bytes = 2048;
      nbytes = 6;
      ll = record { id = 0; key = bytes "Tom"; value = view (bytes "630") } ∷ [];
      catche = (bytes "Tom", 0) ∷ [];
      one_evicted = none;
      next_id = 1;
      world = tt;
    });
    cache_bytes = 2048;
  };
}

abbrev node : HttpPool
node = record {
  self = bytes "http://b";
  base_path = bytes "/_geecache/";
  peers = none;
  http_getters = [];
}

abbrev groups : Dict Str Group
groups = (bytes "scores", scores) ∷ []

statuses : Option (Response × Dict Str Group) → ℕ
statuses none = 0
statuses (some (res, _)) = res.status

abbrev served_at : Str → ℕ
unfolding statuses
served_at path = statuses (serve_http ok path node groups)

answered :
    (served_at (bytes "/_geecache/scores/Tom") ≡ 200)
    × (served_at (bytes "/_geecache/scores/Sam") ≡ 500)
    × (served_at (bytes "/_geecache/levels/Tom") ≡ 404)
    × (served_at (bytes "/_geecache/scores") ≡ 400)
    × (served_at (bytes "/other") ≡ 0)
unfolding program statuses
answered = (refl, refl, refl, refl, refl)

abbrev handler : Str → Option (Response × Dict Str Group)
handler path = serve_http ok path node groups

get-serve_http_example :
    get
      (http_get (bytes "http://b") handler)
      (λ s. s)
      ok
      (record { base_url = bytes "http://b" ++ bytes "/_geecache/" })
      (bytes "scores")
      (bytes "Tom")
    ≡ passed_on (ok (view (bytes "630")))
unfolding program
get-serve_http_example =
    get-serve_http (http_get (bytes "http://b") handler) (λ s. s) (λ s. s) ok ok (bytes "http://b")
      (bytes "scores") (bytes "Tom") node groups scores filled (ok (view (bytes "630")))
      (λ b. (b, refl, refl)) refl refl refl refl (http_get-handler (bytes "http://b") handler)
