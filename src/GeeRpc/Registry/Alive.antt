-- ===== src/GeeRpc/Registry/Alive.antt =====
-- Which servers the registry lists.
use distributed_study.Common.{
  ℕ, ◌+◌, ◌≡◌, refl, Str, Dict, lookup, insert, erase, lookup-insert, lookup-erase, Option, none,
  some, List, [], ◌∷◌, ◌++◌, Bool, false, ◌||◌, str_key, str_beq, str_beq_iff, ltb, if◌then◌else◌,
  arith, contains, contains-sort_strings, Option-cases, Bool-cases, ◌==◌, nat_key, inl, inr,
}
use distributed_study.GeeRpc.Registry.{
  ServerItem, Registry, put_server, is_alive, sweep, alive_servers,
}

abbrev pub IsUnique : Dict Str ServerItem → Type 0
IsUnique [] = Unit {0}
IsUnique ((a, _) ∷ m) = (lookup a m ≡ none) × IsUnique m

lookup-insert-none :
    (a b : Str) (s : ServerItem) (m : Dict Str ServerItem)
    → str_beq a b ≡ false
    → lookup b m ≡ none
    → lookup b (insert a s m) ≡ none
lookup-insert-none a b s m ne h = ground (arith, lookup-insert a b s m)

insert-IsUnique :
    (a : Str) (s : ServerItem) (m : Dict Str ServerItem) → IsUnique m → IsUnique (insert a s m)
unfolding lookup insert
insert-IsUnique a s [] u = (refl, tt)
insert-IsUnique a s ((b, t) ∷ m) u =
    ground
      (arith, insert-IsUnique a s m, lookup-insert-none a b s m, str_beq_iff b a, str_beq_iff a b)

-- The map of servers has every address once, also after `putServer`.
pub put_server-IsUnique :
    (now : ℕ) (addr : Str) (r : Registry)
    → IsUnique r.servers
    → IsUnique (put_server now addr r).servers
unfolding put_server
put_server-IsUnique now addr r u = elim (Option-cases (lookup addr r.servers)) [
  | inl e ↦ rw (e, put_server) (insert-IsUnique addr _ r.servers u)
  | inr (s, e) ↦ rw (e, put_server) (insert-IsUnique addr _ r.servers u)
]

-- Whether the entry that was found counts.
abbrev pub counts : ℕ → ℕ → Option ServerItem → Bool
counts timeout now none = false
counts timeout now (some s) = is_alive timeout now s

contains-append :
    (k : Str) (l : List Str) (s : Str) → contains k (l ++ s ∷ []) ≡ (contains k l || str_beq s k)
unfolding contains
contains-append k [] s = ground arith
contains-append k (t ∷ l) s = ground (arith, contains-append k l s)

sweep_lem :
    (timeout now : ℕ) (k : Str) (m : Dict Str ServerItem) (alive : List Str)
    (servers : Dict Str ServerItem)
    → IsUnique m
    → (contains k (sweep timeout now m (alive, servers)).0
        ≡ (contains k alive || counts timeout now (lookup k m)))
      × (lookup k (sweep timeout now m (alive, servers)).1 ≡ elim (lookup k m) [
        | none ↦ lookup k servers
        | some s ↦ if is_alive timeout now s then lookup k servers else none
      ])
unfolding sweep lookup
sweep_lem timeout now k [] alive servers u = ground arith
sweep_lem timeout now k ((a, s) ∷ m) alive servers u =
    let same = str_beq_iff a k in
    elim (Bool-cases (is_alive timeout now s)) [
      | inl on ↦
          let (listed, kept) = sweep_lem timeout now k m (alive ++ a ∷ []) servers u.1 in
          rw (on, sweep) (ground (arith, contains-append k alive a))
      | inr off ↦
          let (listed, kept) = sweep_lem timeout now k m alive (erase a servers) u.1 in
          rw (off, sweep) (ground (arith, lookup-erase a k servers))
    ]

-- aliveServers lists exactly the registered servers whose time has not run out, and drops
-- exactly the others from the registry, if the registry has one entry for each address.
pub alive_servers_lem :
    (now : ℕ) (k : Str) (r : Registry)
    → IsUnique r.servers
    → (contains k (alive_servers now r).0 ≡ counts r.timeout now (lookup k r.servers))
      × (lookup k (alive_servers now r).1.servers
          ≡ (if counts r.timeout now (lookup k r.servers) then lookup k r.servers else none))
unfolding alive_servers contains
alive_servers_lem now k r u =
    let (listed, kept) = sweep_lem r.timeout now k r.servers [] r.servers u in
    let sorted = contains-sort_strings k (sweep r.timeout now r.servers ([], r.servers)).0 in
    elim (Option-cases (lookup k r.servers)) [ inl e ↦ ground arith | inr (s, e) ↦ ground arith ]

-- A server is listed for the timeout after its last heartbeat and not longer, and for ever if
-- the timeout is 0, if the registry has one entry for each address.
pub put_server_alive :
    (now later : ℕ) (addr : Str) (r : Registry)
    → IsUnique r.servers
    → contains addr (alive_servers later (put_server now addr r)).0
      ≡ ((r.timeout == 0) || ltb later (now + r.timeout))
unfolding put_server is_alive
put_server_alive now later addr r u =
    let (listed, _) =
      alive_servers_lem later addr (put_server now addr r) (put_server-IsUnique now addr r u) in
    let same = str_beq_iff addr addr in
    elim (Option-cases (lookup addr r.servers)) [
      | inl e ↦
          ground (arith, lookup-insert addr addr (record { addr = addr; start = now }) r.servers)
      | inr (s, e) ↦ ground (arith, lookup-insert addr addr (record s { start = now }) r.servers)
    ]
