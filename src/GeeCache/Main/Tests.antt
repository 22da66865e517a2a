-- ===== src/GeeCache/Main/Tests.antt =====
-- A node of the example, with no other and with another that has one key.
use distributed_study.Common.{
  ◌≡◌, ◌∙◌, ap, refl, bytes, Str, lookup, nat_key, str_key, str_beq, str_beq_iff, Option, none,
  some, List, [], ◌∷◌, map, if◌then◌else◌, arith, Bool-cases, inl, inr,
}
use distributed_study.GeeCache.Group.{ok, err, Group, Peer, Picker}
use distributed_study.GeeCache.HttpPool
use distributed_study.GeeCache.HttpPool.{HttpPool, new_http_pool}
use distributed_study.GeeCache.Requests.{Response}
use distributed_study.GeeCache.Main.{search_db, start_node}
use distributed_study.GeeCache.Main.Pages.{page, serve_pages, start_node-pages, start_node-none}

-- The peer knows Tom.
abbrev peer : Peer
peer name k = if str_beq k (bytes "Tom") then ok (bytes "630") else err (bytes "not found")

abbrev as_picker : HttpPool → Picker
as_picker p k = some peer

abbrev addrs : List Str
addrs = bytes "http://localhost:8001" ∷ bytes "http://localhost:8002" ∷ []

abbrev keys : List Str
keys = bytes "Tom" ∷ bytes "Bob" ∷ bytes "Sam" ∷ [] ∷ bytes "Tom" ∷ []

pages : List Response
pages =
    record { status = 200; body = bytes "630" }
    ∷ record { status = 500; body = bytes "Bob not exist\n" }
    ∷ record { status = 200; body = bytes "567" }
    ∷ record { status = 500; body = bytes "key is required\n" }
    ∷ record { status = 200; body = bytes "630" }
    ∷ []

shown : map page keys ≡ pages
unfolding page pages lookup str_beq
shown = refl

no_address : start_node as_picker 9000 addrs ≡ none
unfolding lookup
no_address = start_node-none as_picker 9000 addrs refl

peer_of : Option Peer → Peer
peer_of none = peer
peer_of (some p) = p

peer_true :
    (k v : Str) (other : Peer)
    → some peer ≡ some other
    → other (bytes "scores") k ≡ ok v
    → search_db k ≡ ok v
unfolding search_db lookup str_beq peer_of
peer_true k v other same said =
    let answered : peer (bytes "scores") k ≡ ok v =
      ap (λ (o : Option Peer). peer_of o (bytes "scores") k) same ∙ said in
    elim (Bool-cases (str_beq k (bytes "Tom"))) [
      | inl tom ↦
          let is : k ≡ bytes "Tom" = (str_beq_iff k (bytes "Tom")).0 tom in
          let value : ok (bytes "630") ≡ ok v = ground (arith, tom) in rw is value
      | inr differs ↦ ground (arith, differs)
    ]

start_node-pages_example :
    let pool = HttpPool.set addrs (new_http_pool (bytes "http://localhost:8002")) in
    (gee : Group) × (start_node as_picker 8002 addrs ≡ some (bytes "localhost:8002", (pool, gee)))
    × ((gee' : Group) × (serve_pages keys gee ≡ some (map page keys, gee')))
unfolding lookup
start_node-pages_example =
    start_node-pages as_picker 8002 (bytes "http://localhost:8002") addrs keys refl peer_true
