-- ===== src/GeeRpc/Discovery/Tests.antt =====
-- Small discoveries, and the theorems on them.
use distributed_study.Common.{
  ◌+◌, ◌%◌, ◌≡◌, refl, bytes, str_beq, none, some, [], ◌∷◌, get_elem?, arith, join, split,
  trim_left, trim_right, trim_space, sort_strings,
}
use distributed_study.GeeRpc.Registry.{Registry, alive_servers, serve_http}
use distributed_study.GeeRpc.Registry
use distributed_study.GeeRpc.Discovery.{
  Discovery, GeeRegistryDiscovery, free, random_select, other_mode, ok, err, no_servers,
  not_supported, new_multi_server_discovery, update, choose, get, r_lock, unlock, get_all,
  new_gee_registry_discovery, update_at, keep_named, refresh, get_refreshed, get_all_refreshed,
}
use distributed_study.GeeRpc.Discovery.Rounds.{answers, answers_in_turn}
use distributed_study.GeeRpc.Discovery.Refreshing.{refresh-serve_http}

program : Unit {0}
unfolding new_multi_server_discovery update choose get r_lock unlock get_all
    new_gee_registry_discovery update_at keep_named refresh get_refreshed get_all_refreshed str_beq
    join split trim_left trim_right trim_space
program = tt

abbrev three : Discovery
three = record { mu = free; servers = bytes "a" ∷ bytes "b" ∷ bytes "c" ∷ []; index = 4 }

modes :
    ((get (λ n. 2) random_select three).0 ≡ some (ok (bytes "c")))
    × ((get (λ n. 0) other_mode three).0 ≡ some (err not_supported))
    × ((get (λ n. 0) random_select (update [] three)).0 ≡ some (err no_servers))
unfolding program
modes = (refl, refl, refl)

answers_in_turn_example :
    get_elem? (answers 5 (λ n. 0) three) 2 ≡ some (choose three.servers ((4 + 2) % 3))
answers_in_turn_example = answers_in_turn 5 2 (λ n. 0) three (omega arith) (omega arith)

abbrev stale : GeeRegistryDiscovery
stale = record { multi = three; registry = bytes "http://r"; timeout = 10; last_update = 5 }

read_back :
    ((refresh 15 (ok (bytes " tcp@a:1 ,,tcp@b:2")) stale).1.multi.servers
      ≡ bytes "tcp@a:1" ∷ bytes "tcp@b:2" ∷ [])
    × ((refresh 14 (ok (bytes "x")) stale).1 ≡ stale)
    × ((get_refreshed (λ n. 1) random_select 15 (ok (bytes "x,y")) stale).0 ≡ some (ok (bytes "y")))
    × (get_all_refreshed 15 (ok (bytes "x,y")) stale ≡ none)
unfolding program
read_back = (refl, refl, refl, refl)

abbrev listing : Registry
listing = record {
  timeout = 0;
  servers =
      (bytes "b:1", record { addr = bytes "b:1"; start = 100 })
      ∷ (bytes "a:1", record { addr = bytes "a:1"; start = 200 })
      ∷ [];
}

refresh-serve_http_example :
    refresh 15 (ok (serve_http 300 Registry.get [] listing).0.servers_header) stale ≡ (
      none,
      record stale {
        multi = record (stale.multi) { servers = (alive_servers 300 listing).0 };
        last_update = 15;
      },
    )
unfolding alive_servers Registry.sweep Registry.is_alive sort_strings
refresh-serve_http_example = refresh-serve_http 300 15 [] listing stale (ground arith) (omega arith)
