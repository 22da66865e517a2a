-- ===== src/GeeRpc/Discovery.antt =====
-- geerpc/xclient/discovery.go and discovery_gee.go: the servers that a client chooses from.
--
-- The random generator is a function that gives a number below its argument. `none` of an outcome
-- is a fatal error of the runtime. Times are numbers of nanoseconds.
pub mod Rounds
pub mod Refreshing
mod Tests
use distributed_study.Common.{
  ℕ, suc, ◌+◌, ◌-◌, ◌%◌, Str, Option, none, some, ◌>>=◌, List, [], ◌∷◌, Bool, true, false, ◌==◌,
  nat_key, str_key, ltb, if◌then◌else◌, length, get_elem?, split, trim_space,
}

-- `sync.RWMutex`, as far as who holds it.
pub data Lock : Type 0 where
  free : Lock
  readers : ℕ → Lock
  writer : Lock

pub record Discovery : Type 0 where
  pub mu : Lock
  pub servers : List Str
  pub index : ℕ

pub data SelectMode : Type 0 where
  random_select round_robin_select other_mode : SelectMode

pub data Error : Type 0 where
  no_servers not_supported : Error
  refresh_failed : Str → Error

pub data Result {ℓ} (A : Type ℓ) : Type ℓ where
  ok : A → Result A
  err : Error → Result A

-- `intn` is `r.Intn`.
pub new_multi_server_discovery : (ℕ → ℕ) → List Str → Discovery
new_multi_server_discovery intn servers = record {
  mu = free;
  servers = servers;
  index = intn (2147483647 - 1);
}

pub update : List Str → Discovery → Discovery
update servers d = record d { servers = servers }

-- An index out of range panics.
unfoldable pub choose : List Str → ℕ → Option (Result Str)
choose servers i = do s ← get_elem? servers i; some (ok s)

-- `Get`, which holds the lock throughout.
unfoldable pub get : (ℕ → ℕ) → SelectMode → Discovery → Option (Result Str) × Discovery
get intn mode d =
    let n = length d.servers in
    if n == 0 then (some (err no_servers), d) else (elim mode [
      | random_select ↦ (choose d.servers (intn n), d)
      | round_robin_select ↦
          (choose d.servers (d.index % n), record d { index = (d.index + 1) % n })
      | other_mode ↦ (some (err not_supported), d)
    ])

unfoldable pub r_lock : Lock → Option Lock
r_lock free = some (readers 1)
r_lock (readers n) = some (readers (suc n))
r_lock writer = none

-- `Unlock` of a lock that no writer holds is a fatal error.
unfoldable pub unlock : Lock → Option Lock
unlock writer = some free
unlock free = none
unlock (readers n) = none

-- `GetAll` takes the lock for reading, and gives it back as a writer.
unfoldable pub get_all : Discovery → Option (List Str × Discovery)
get_all d = do l ← r_lock d.mu; l' ← unlock l; some (d.servers, record d { mu = l' })

-- The discovery that asks a registry.
pub record GeeRegistryDiscovery : Type 0 where
  pub multi : Discovery
  pub registry : Str
  pub timeout : ℕ
  pub last_update : ℕ

pub new_gee_registry_discovery : (ℕ → ℕ) → Str → ℕ → GeeRegistryDiscovery
new_gee_registry_discovery intn addr timeout = record {
  multi = new_multi_server_discovery intn [];
  registry = addr;
  timeout = if timeout == 0 then 10000000000 else timeout;
  last_update = 0;
}

pub update_at : ℕ → List Str → GeeRegistryDiscovery → GeeRegistryDiscovery
update_at now servers d = record d { multi = update servers d.multi; last_update = now }

-- The loop over the pieces of the header.
pub keep_named : List Str → List Str
keep_named [] = []
keep_named (s ∷ l) = if trim_space s == [] then keep_named l else trim_space s ∷ keep_named l

-- `Refresh`, with the header that the registry sends, or the error of the request.
pub refresh : ℕ → Result Str → GeeRegistryDiscovery → Option Error × GeeRegistryDiscovery
refresh now answer d = if ltb now (d.last_update + d.timeout) then (none, d) else (elim answer [
  | err e ↦ (some e, d)
  | ok header ↦ (
    none,
    record d {
      multi = record (d.multi) { servers = keep_named (split b',' header) };
      last_update = now;
    },
  )
])

pub get_refreshed :
    (ℕ → ℕ)
    → SelectMode
    → ℕ
    → Result Str
    → GeeRegistryDiscovery
    → Option (Result Str) × GeeRegistryDiscovery
get_refreshed intn mode now answer d =
    let (e, d') = refresh now answer d in
    elim e [
      | some why ↦ (some (err why), d')
      | none ↦ let (s, multi) = get intn mode d'.multi in (s, record d' { multi = multi })
    ]

pub get_all_refreshed :
    ℕ → Result Str → GeeRegistryDiscovery → Option (Result (List Str) × GeeRegistryDiscovery)
get_all_refreshed now answer d =
    let (e, d') = refresh now answer d in
    elim e [
      | some why ↦ some (err why, d')
      | none ↦ do
        (servers, multi) ← get_all d'.multi
        some (ok servers, record d' { multi = multi })
    ]
