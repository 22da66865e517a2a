-- ===== src/GeeCache/Cluster/Tests.antt =====
-- A node that asks another, the one peer there is.
use distributed_study.Common.{
  ◌≡◌, ◌∙◌, sym, refl, ap, bytes, Str, Dict, lookup, contains, str_beq, str_beq_iff, str_key,
  Option, none, some, List, [], ◌∷◌, ◌++◌, true, not, ◌&&◌, ◌==◌, if◌then◌else◌, arith, length,
  has_byte, Bool-cases, inl, inr,
}
use distributed_study.GeeCache.Cache.Kept.{new-IsValid}
use distributed_study.GeeCache.Group
use distributed_study.GeeCache.Group.{Result, ok, err, Group, Picker, view}
use distributed_study.GeeCache.Group.Serving.{direct, IsCoherent, HasRoom, Kept}
use distributed_study.GeeCache.HttpPool
use distributed_study.GeeCache.HttpPool.{
  HttpGetter, HttpPool, Picked, nobody, picked, pick_peer, new_http_pool, default_base_path,
}
use distributed_study.GeeCache.HttpPool.Picking.{pick_peer-set}
use distributed_study.GeeCache.Requests
use distributed_study.GeeCache.Requests.{Response, Answer, answer, serve_http}
use distributed_study.GeeCache.Requests.Network.{http_get, http_get-handler}
use distributed_study.GeeCache.Cluster.{PicksFrom, start_cache_server}
use distributed_study.GeeCache.Cluster.Agreement.{IsNode, cluster_get}

program : Unit {0}
unfolding start_cache_server HttpPool.set new_http_pool Group.register_peers lookup str_beq
program = tt

abbrev db : Str → Result Str
db k = if str_beq k (bytes "Tom") then ok (bytes "630") else err (bytes "not found")

abbrev addr : Str
addr = bytes "http://b"

abbrev addrs : List Str
addrs = addr ∷ []

abbrev scores : Option Picker → Group
scores peers = record {
  name = bytes "scores";
  getter = db;
  main_cache = record { lru = none; cache_bytes = 2048 };
  peers = peers;
}

-- The peer itself asks nobody.
abbrev own : Picker
own k = none

abbrev at : Str → Dict Str Group
at s = (bytes "scores", scores (some own)) ∷ []

abbrev handler : Str → Str → Option (Response × Dict Str Group)
handler s path = serve_http ok path (HttpPool.set addrs (new_http_pool s)) (at s)

abbrev net : Str → Answer
net = http_get addr (handler addr)

abbrev getter : HttpGetter
getter = record { base_url = addr ++ default_base_path }

abbrev asking : Picker
asking k = some (Requests.get net (λ s. s) ok getter)

started :
    start_cache_server (λ p. own) addr addrs (scores none)
    ≡ some (HttpPool.set addrs (new_http_pool addr), scores (some own))
unfolding program
started = refl

fresh-IsCoherent : (peers : Option Picker) → IsCoherent (scores peers)
unfolding lookup
fresh-IsCoherent peers =
    let (valid, empty) = new-IsValid 2048 (omega arith) (omega arith) in
    record {
      valid = valid;
      cached = λ k v e. let e' : none ≡ some v = sym (ap (lookup k) empty) ∙ e in ground arith;
    }

fresh-HasRoom : (peers : Option Picker) → HasRoom (scores peers)
fresh-HasRoom peers k b e = elim (Bool-cases (str_beq k (bytes "Tom"))) [
  | inl tom ↦
      let is : k ≡ bytes "Tom" = (str_beq_iff k (bytes "Tom")).0 tom in ground (arith, ap length is)
  | inr other ↦ ground arith
]

only_addr : (s : Str) → contains s addrs ≡ true → s ≡ addr
unfolding contains
only_addr s within = let same = str_beq_iff addr s in let back = str_beq_iff s addr in ground arith

abbrev answer_at : Str → Str → Option Picked
answer_at self s = some (
    if not (s == []) && not (s == self)
    then picked (some (record { base_url = s ++ default_base_path }))
    else nobody)

picks_at :
    (self k : Str) → pick_peer k (HttpPool.set addrs (new_http_pool self)) ≡ answer_at self addr
unfolding new_http_pool
picks_at self k =
    let (s, within, picks) = pick_peer-set addrs k (omega arith) in
    picks (new_http_pool self) ∙ ap (answer_at self) (only_addr s within)

getter_of : Option Picked → HttpGetter
getter_of (some (picked (some h))) = h
getter_of o = getter

asking-PicksFrom :
    PicksFrom net (λ s. s) ok (HttpPool.set addrs (new_http_pool (bytes "http://a"))) asking
unfolding str_beq getter_of
asking-PicksFrom = record {
  is_nobody = λ k e.
      let e' : some (picked (some getter)) ≡ some nobody =
        sym (picks_at (bytes "http://a") k) ∙ e in
      ground arith;
  is_peer = λ k h e.
      ap (λ (g : HttpGetter). some (Requests.get net (λ s. s) ok g))
        (ap getter_of (sym (picks_at (bytes "http://a") k) ∙ e));
}

own-PicksFrom : PicksFrom net (λ s. s) ok (HttpPool.set addrs (new_http_pool addr)) own
unfolding str_beq
own-PicksFrom = record {
  is_nobody = λ k e. refl;
  is_peer = λ k h e.
      let e' : some nobody ≡ some (picked (some h)) = sym (picks_at addr k) ∙ e in ground arith;
}

owner-IsNode :
    (s : Str) → contains s addrs ≡ true → IsNode net (λ t. t) ok addrs (bytes "scores") db s (at s)
unfolding Group.get_group lookup str_beq
owner-IsNode s within = record {
  group = scores (some own);
  there = refl;
  named = refl;
  same_getter = refl;
  coherent = fresh-IsCoherent (some own);
  room = fresh-HasRoom (some own);
  pick = own;
  registered = refl;
  picks = rw (only_addr s within) own-PicksFrom;
}

abbrev asker : Group
asker = scores (some asking)

asker-IsNode :
    IsNode net
      (λ t. t)
      ok
      addrs
      (bytes "scores")
      db
      (bytes "http://a")
      ((bytes "scores", asker) ∷ [])
unfolding Group.get_group lookup str_beq
asker-IsNode = record {
  group = asker;
  there = refl;
  named = refl;
  same_getter = refl;
  coherent = fresh-IsCoherent (some asking);
  room = fresh-HasRoom (some asking);
  pick = asking;
  registered = refl;
  picks = asking-PicksFrom;
}

delivered :
    (s : Str)
    → contains s addrs ≡ true
    → (rest : Str) (res : Response) (after : Dict Str Group) → handler s rest ≡ some (res, after)
    → net (s ++ rest) ≡ answer res.status (ok res.body)
delivered s within rest res after e =
    let is = only_addr s within in
    ap (λ t. http_get t (handler t) (s ++ rest)) (sym is)
    ∙ http_get-handler s (handler s) rest res after e

cluster_get_example :
    (g' : Group) × (Group.get (bytes "Tom") asker ≡ some (direct db (bytes "Tom"), g'))
    × Kept asker g'
unfolding has_byte asker-IsNode
cluster_get_example =
    cluster_get net (λ t. t) (λ t. t) ok ok addrs (bytes "scores") db at (bytes "Tom")
      (λ b. (b, refl, refl)) refl refl (omega arith) owner-IsNode delivered (bytes "http://a")
      ((bytes "scores", asker) ∷ []) asker-IsNode
