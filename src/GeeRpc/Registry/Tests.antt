-- ===== src/GeeRpc/Registry/Tests.antt =====
-- A small registry, and the theorems on it.
use distributed_study.Common.{
  ◌≡◌, refl, bytes, lookup, insert, erase, str_beq, str_key, nat_key, none, [], ◌∷◌, if◌then◌else◌,
  contains, join, sort_strings,
}
use distributed_study.GeeRpc.Registry.{
  Registry, get, post, other, new, put_server, is_alive, sweep, alive_servers, serve_http,
}
use distributed_study.GeeRpc.Registry.Alive.{counts, alive_servers_lem}

program : Unit {0}
unfolding new put_server is_alive sweep alive_servers serve_http lookup insert erase str_beq join
    sort_strings
program = tt

abbrev two : Registry
two = record {
  timeout = 300;
  servers =
      (bytes "tcp@b:1", record { addr = bytes "tcp@b:1"; start = 100 })
      ∷ (bytes "tcp@a:1", record { addr = bytes "tcp@a:1"; start = 200 })
      ∷ [];
}

posted :
    (serve_http 200 post (bytes "tcp@a:1") (serve_http 100 post (bytes "tcp@b:1") (new 300)).1).1
    ≡ two
unfolding program
posted = refl

listed :
    ((serve_http 350 get [] two).0.servers_header ≡ bytes "tcp@a:1,tcp@b:1")
    × ((serve_http 450 get [] two).0.servers_header ≡ bytes "tcp@a:1")
    × ((serve_http 450 post [] two).0.status ≡ 500)
    × ((serve_http 450 other [] two).0.status ≡ 405)
unfolding program
listed = (refl, refl, refl, refl)

alive_servers_lem_example :
    (contains (bytes "tcp@b:1") (alive_servers 450 two).0
      ≡ counts 300 450 (lookup (bytes "tcp@b:1") two.servers))
    × (lookup (bytes "tcp@b:1") (alive_servers 450 two).1.servers ≡ (
        if counts 300 450 (lookup (bytes "tcp@b:1") two.servers)
        then lookup (bytes "tcp@b:1") two.servers
        else none))
unfolding lookup str_beq
alive_servers_lem_example = alive_servers_lem 450 (bytes "tcp@b:1") two (refl, (refl, tt))
