-- ===== src/GeeRpc/XClient/Tests.antt =====
-- A client of two servers, one of which it has lost.
use distributed_study.Common.{
  zero, suc, ◌≡◌, refl, bytes, Str, lookup, insert, erase, str_beq, str_key, Option, Bool, none,
  some, ◌>>=◌, List, [], ◌∷◌, true, if◌then◌else◌,
}
use distributed_study.GeeRpc.Client.{Client, new_client_codec, is_available, close}
use distributed_study.GeeRpc.Discovery
use distributed_study.GeeRpc.Discovery.{
  Discovery, free, random_select, round_robin_select, other_mode, not_supported, no_servers, ok,
  err, choose, get_all, r_lock, unlock,
}
use distributed_study.GeeRpc.XClient.{
  unlisted, route, broadcast, routed, not_dialed, no_server, XClient, Dialed, connected, refused,
  dialed, dial_failed, set_client, close_each, close_all, connect, dial, Outcome, succeeded, failed,
  gather_one, gather, start_gather,
}
use distributed_study.GeeRpc.XClient.Gathering.{first_error, first_reply}

program : Unit {0}
unfolding set_client close_each close_all connect dial gather_one gather start_gather first_error
    first_reply lookup insert erase str_beq new_client_codec is_available close
program = tt

abbrev network : Str → Dialed
network addr = if str_beq addr (bytes "a") then connected new_client_codec else refused addr

abbrev lost : Client
lost = record new_client_codec { shutdown = true }

abbrev xc : XClient
xc = record {
  clients = (bytes "a", 0) ∷ (bytes "b", 1) ∷ [];
  store = λ i. elim i [ zero ↦ lost | suc j ↦ new_client_codec ];
  next_client = 2;
}

dialed_thrice :
    ((dial network (bytes "a") xc).0 ≡ dialed 0)
    × ((dial network (bytes "a") (dial network (bytes "a") xc).1).0 ≡ dialed 2)
    × ((dial network (bytes "c") xc).0 ≡ dial_failed (bytes "c"))
unfolding program
dialed_thrice = (refl, refl, refl)

abbrev found : Discovery
found = record { mu = free; servers = bytes "c" ∷ bytes "b" ∷ []; index = 1 }

-- `GetAll` of the program's own list of servers.
abbrev own_get_all : Discovery → Option (Discovery.Result (List Str) × Discovery)
own_get_all d = do (servers, d') ← get_all d; some (ok servers, d')

routes :
    (route (λ n. 0) network round_robin_select found xc
      ≡ (some (routed 1, xc), record found { index = 0 }))
    × (route (λ n. 0) network random_select found xc ≡ (some (not_dialed (bytes "c"), xc), found))
    × (route (λ n. 0) network other_mode found xc ≡ (some (no_server not_supported, xc), found))
    × (broadcast own_get_all (λ servers. []) true found ≡ none)
unfolding program route Discovery.get choose broadcast get_all r_lock unlock
routes = (refl, refl, refl, refl)

abbrev outcomes : List Outcome
outcomes =
    failed (bytes "x") ∷ succeeded (bytes "1") ∷ failed (bytes "y") ∷ succeeded (bytes "2") ∷ []

first_ones :
    ((gather outcomes (start_gather true)).error ≡ some (bytes "x"))
    × ((gather outcomes (start_gather true)).reply ≡ some (bytes "1"))
unfolding program
first_ones = (refl, refl)

-- A discovery that knows two servers, or has lost its registry.
abbrev listing : Bool → Option (Discovery.Result (List Str) × Bool)
listing lost = if lost then some (err no_servers, lost) else some (ok found.servers, lost)

unlists : broadcast listing (λ servers. outcomes) true true ≡ some (unlisted no_servers, true)
unfolding broadcast
unlists = refl
