-- ===== src/GeeCache/Main/Pages.antt =====
-- What the users of a node see.
use distributed_study.Common.{
  ◌≡◌, ◌∙◌, refl, sym, ap, ℕ, ◌+◌, Str, Dict, lookup, bytes, Option, none, some, ◌>>=◌, List, [],
  ◌∷◌, ◌++◌, map, ◌==◌, str_key, str_beq, str_beq_iff, if◌then◌else◌, arith, length, drop, ◌≤◌,
  Bool-cases, Option-cases, inl, inr, nat_key,
}
use distributed_study.GeeCache.Cache.Kept.{new-IsValid}
use distributed_study.GeeCache.Group
use distributed_study.GeeCache.Group.{Result, ok, err, Group, Peer, Picker, ask_peer, get_from_peer}
use distributed_study.GeeCache.Group.Serving.{
  direct, IsCoherent, HasRoom, Agrees, Kept-Agrees, get-Kept,
}
use distributed_study.GeeCache.HttpPool
use distributed_study.GeeCache.HttpPool.{HttpPool, new_http_pool}
use distributed_study.GeeCache.Requests.{Response, http_error}
use distributed_study.GeeCache.Cluster.{start_cache_server}
use distributed_study.GeeCache.Cluster.Agreement.{asked_of}
use distributed_study.GeeCache.Main.{
  db, search_db, create_group, write_page, serve_api, addr_map, addr_of, listen_addr, start_node,
}

-- The page for a key, read off the database.
unfoldable pub page : Str → Response
page key = if key == [] then http_error (bytes "key is required") 500 else elim (lookup key db) [
  | some v ↦ record { status = 200; body = v }
  | none ↦ http_error (key ++ bytes " not exist") 500
]

write_page-direct : (key : Str) → write_page (direct search_db key) ≡ page key
unfolding write_page direct search_db page
write_page-direct key = ground arith

unfoldable pub serve_pages : List Str → Group → Option (List Response × Group)
serve_pages [] g = some ([], g)
serve_pages (k ∷ ks) g = do
  (r, g') ← serve_api k g
  (rs, g'') ← serve_pages ks g'
  some (r ∷ rs, g'')

serve_pages-page :
    (ks : List Str) (g : Group)
    → g.getter ≡ search_db
    → IsCoherent g
    → HasRoom g
    → Agrees g
    → (g' : Group) × (serve_pages ks g ≡ some (map page ks, g'))
unfolding serve_pages serve_api
serve_pages-page [] g same h room agrees = (g, refl)
serve_pages-page (k ∷ ks) g same h room agrees =
    let (g1, got, keeps) = get-Kept k g h room (agrees k) in
    let (g', rest) =
      serve_pages-page ks g1 (keeps.getter_same ∙ same) keeps.coherent keeps.room
        (Kept-Agrees g g1 keeps agrees) in
    (g', rw got (rw rest (rw same (rw (write_page-direct k) refl))))

abbrev scores : Option Picker → Group
scores peers = record {
  name = bytes "scores";
  getter = search_db;
  main_cache = record { lru = none; cache_bytes = 2048 };
  peers = peers;
}

fresh-IsCoherent : (peers : Option Picker) → IsCoherent (scores peers)
unfolding lookup
fresh-IsCoherent peers =
    let (valid, empty) = new-IsValid 2048 (omega arith) (omega arith) in
    record {
      valid = valid;
      cached = λ k v e. let e' : none ≡ some v = sym (ap (lookup k) empty) ∙ e in ground arith;
    }

weight : Dict Str Str → ℕ
weight [] = 0
weight ((a, b) ∷ m) = (length a + length b) + weight m

lookup-weight :
    (k v : Str) (m : Dict Str Str) → lookup k m ≡ some v → length k + length v ≤ weight m
unfolding lookup weight
lookup-weight k v [] e = ground arith
lookup-weight k v ((a, b) ∷ m) e = elim (Bool-cases (str_beq a k)) [
  | inl same ↦ let is : a ≡ k = (str_beq_iff a k).0 same in ground (arith, ap length is)
  | inr other ↦
      let later : lookup k m ≡ some v = ground arith in
      let rest = lookup-weight k v m later in omega arith
]

fresh-HasRoom : (peers : Option Picker) → HasRoom (scores peers)
unfolding search_db weight
fresh-HasRoom peers k b e = elim (Option-cases (lookup k db)) [
  | inl missing ↦ ground (arith, missing)
  | inr (v, found) ↦ let within = lookup-weight k v db found in ground (arith, found)
]

-- The addresses are long enough to be cut.
listens :
    (port : ℕ) (addr : Str)
    → lookup port addr_map ≡ some addr
    → listen_addr addr ≡ some (drop 7 addr)
unfolding lookup listen_addr
listens port addr e = elim (Bool-cases (8001 == port)) [
  | inl first ↦ ground arith
  | inr other ↦ elim (Bool-cases (8002 == port)) [
    | inl second ↦ ground arith
    | inr last ↦ ground arith
  ]
]

registered-Agrees :
    (pick : Picker)
    → ((k v : Str) (peer : Peer)
        → pick k ≡ some peer
        → peer (bytes "scores") k ≡ ok v
        → search_db k ≡ ok v)
    → Agrees (scores (some pick))
unfolding ask_peer get_from_peer
registered-Agrees pick true_peers k v e = elim (Option-cases (pick k)) [
  | inl nobody ↦ ground (arith, nobody)
  | inr (peer, there) ↦
      true_peers k v.b peer there (asked_of k (scores (some pick)) pick peer v refl there e)
]

addr_of-some : (port : ℕ) (addr : Str) → lookup port addr_map ≡ some addr → addr_of port ≡ addr
unfolding addr_of
addr_of-some port addr found = rw (found, addr_of) refl

addr_of-none : (port : ℕ) → lookup port addr_map ≡ none → addr_of port ≡ []
unfolding addr_of
addr_of-none port missing = rw (missing, addr_of) refl

-- A node whose port has an address starts, and afterwards any list of queries to its page is
-- answered, in order, by what the database has: the value with status 200, or status 500 for an
-- unknown or empty key, whatever the cache holds, if the peers that the pool picks answer with
-- success only what the database has.
pub start_node-pages :
    (as_picker : HttpPool → Picker) (port : ℕ) (addr : Str) (addrs ks : List Str)
    → lookup port addr_map ≡ some addr
    → let pool = HttpPool.set addrs (new_http_pool addr) in
      ((k v : Str) (peer : Peer)
        → as_picker pool k ≡ some peer
        → peer (bytes "scores") k ≡ ok v
        → search_db k ≡ ok v)
      → (gee : Group) × (start_node as_picker port addrs ≡ some (drop 7 addr, (pool, gee)))
        × ((gee' : Group) × (serve_pages ks gee ≡ some (map page ks, gee')))
unfolding start_node create_group start_cache_server Group.new_group Group.register_peers
start_node-pages as_picker port addr addrs ks found true_peers =
    let pick = as_picker (HttpPool.set addrs (new_http_pool addr)) in
    (
      scores (some pick),
      rw (addr_of-some port addr found) (rw (listens port addr found) refl),
      serve_pages-page ks (scores (some pick)) refl (fresh-IsCoherent (some pick))
          (fresh-HasRoom (some pick)) (registered-Agrees pick true_peers),
    )

-- A port without an address ends the program.
pub start_node-none :
    (as_picker : HttpPool → Picker) (port : ℕ) (addrs : List Str)
    → lookup port addr_map ≡ none
    → start_node as_picker port addrs ≡ none
unfolding start_node create_group start_cache_server listen_addr Group.new_group
    Group.register_peers
start_node-none as_picker port addrs missing = rw (addr_of-none port missing) refl
