-- ===== src/GeeRpc/Registry.antt =====
-- geerpc/registry/registry.go: the registry of servers that heartbeats keep alive.
--
-- Times and durations are numbers of nanoseconds, and one critical section reads one time. The
-- order in which `aliveServers` goes through its map is that of the list.
pub mod Alive
mod Tests
use distributed_study.Common.{
  ℕ, ◌+◌, Str, Dict, lookup, insert, erase, Option, none, some, List, [], ◌∷◌, ◌++◌, Bool, true,
  false, ◌||◌, ◌==◌, nat_key, str_key, ltb, if◌then◌else◌, bytes, join, sort_strings,
}

pub record ServerItem : Type 0 where
  pub addr : Str
  pub start : ℕ

pub record Registry : Type 0 where
  pub timeout : ℕ
  pub servers : Dict Str ServerItem

unfoldable pub new : ℕ → Registry
new timeout = record { timeout = timeout; servers = [] }

unfoldable pub put_server : ℕ → Str → Registry → Registry
put_server now addr r = elim (lookup addr r.servers) [
  | none ↦ record r { servers = insert addr (record { addr = addr; start = now }) r.servers }
  | some s ↦ record r { servers = insert addr (record s { start = now }) r.servers }
]

-- `timeout == 0 || s.start.Add(timeout).After(now)`.
unfoldable pub is_alive : ℕ → ℕ → ServerItem → Bool
is_alive timeout now s = (timeout == 0) || ltb now (s.start + timeout)

-- The loop over the entries of the map: the alive ones so far, and the map.
unfoldable pub sweep :
    ℕ → ℕ → Dict Str ServerItem → List Str × Dict Str ServerItem → List Str × Dict Str ServerItem
sweep timeout now [] (alive, servers) = (alive, servers)
sweep timeout now ((addr, s) ∷ rest) (alive, servers) =
    sweep timeout now rest (
      if is_alive timeout now s then (alive ++ addr ∷ [], servers) else (alive, erase addr servers))

unfoldable pub alive_servers : ℕ → Registry → List Str × Registry
alive_servers now r =
    let (alive, servers) = sweep r.timeout now r.servers ([], r.servers) in
    (sort_strings alive, record r { servers = servers })

pub data Method : Type 0 where
  get post other : Method

-- The status, and the header `X-Geerpc-Servers`.
pub record Response : Type 0 where
  pub status : ℕ
  pub servers_header : Str

-- `ServeHTTP`, with the method and the header `X-Geerpc-Server` of the request.
unfoldable pub serve_http : ℕ → Method → Str → Registry → Response × Registry
serve_http now get addr r =
    let (alive, r') = alive_servers now r in
    (record { status = 200; servers_header = join b',' alive }, r')
serve_http now post addr r =
    if addr == []
    then (record { status = 500; servers_header = [] }, r)
    else (record { status = 200; servers_header = [] }, put_server now addr r)
serve_http now other addr r = (record { status = 405; servers_header = [] }, r)
