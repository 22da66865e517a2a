-- ===== src/GeeRpc/Heartbeat/Tests.antt =====
-- A server one of whose beats is served and not heard of.
use distributed_study.Common.{
  ℕ, ◌+◌, ◌*◌, ◌≡◌, refl, bytes, lookup, insert, erase, str_beq, str_key, nat_key, contains,
  sort_strings, List, [], ◌∷◌, ◌||◌, ◌==◌, ltb,
}
use distributed_study.GeeRpc.Registry.{new, put_server, serve_http, is_alive, sweep, alive_servers}
use distributed_study.GeeRpc.Heartbeat.{
  Delivery, answered, served_only, Beat, minute, period, send_heartbeat, heartbeat,
}
use distributed_study.GeeRpc.Heartbeat.Listed.{last_served, heartbeat_alive}

program : Unit {0}
unfolding new put_server serve_http is_alive sweep alive_servers lookup insert erase str_beq
    contains sort_strings period send_heartbeat heartbeat last_served
program = tt

abbrev at : Delivery → ℕ → Beat
at delivery time = record { time = time; delivery = delivery }

abbrev beats : List Beat
beats = at answered 14 ∷ at served_only 18 ∷ at answered 22 ∷ []

periods : (period 0 ≡ 4 * minute) × (period 7 ≡ 7)
unfolding program
periods = (refl, refl)

-- The third beat is never sent.
ends :
    (alive_servers 22 (heartbeat (bytes "a") (at answered 10 ∷ beats) (new 5))).0 ≡ bytes "a" ∷ []
unfolding program
ends = refl

heartbeat_alive_example :
    contains
      (bytes "a")
      (alive_servers 23 (heartbeat (bytes "a") (at answered 10 ∷ beats) (new 5))).0
    ≡ (((new 5).timeout == 0) || ltb 23 (last_served 10 beats + (new 5).timeout))
unfolding new str_beq
heartbeat_alive_example = heartbeat_alive (bytes "a") 23 10 beats (new 5) refl tt
