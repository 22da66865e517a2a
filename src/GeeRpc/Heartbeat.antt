-- ===== src/GeeRpc/Heartbeat.antt =====
-- geerpc/registry/registry.go, Heartbeat: how a server keeps itself in a registry.
--
-- A beat has a time and what becomes of the request: it is answered, with whatever status, which is
-- not looked at; or `Do` fails, where the registry may have served the request all the same. Times are numbers of nanoseconds.
pub mod Listed
mod Tests
use distributed_study.Common.{
  ℕ, ◌-◌, ◌*◌, Str, List, [], ◌∷◌, Bool, true, false, ◌==◌, nat_key, if◌then◌else◌,
}
use distributed_study.GeeRpc.Registry.{Registry, post, serve_http}

abbrev pub minute : ℕ
minute = 60_000_000_000

abbrev pub default_timeout : ℕ
default_timeout = 5 * minute

-- The time between two beats.
unfoldable pub period : ℕ → ℕ
period duration = if duration == 0 then default_timeout - minute else duration

pub data Delivery : Type 0 where
  answered served_only lost : Delivery

pub record Beat : Type 0 where
  pub time : ℕ
  pub delivery : Delivery

-- `sendHeartbeat`: whether it has no error, and the registry.
unfoldable pub send_heartbeat : Str → Beat → Registry → Bool × Registry
send_heartbeat addr b r = elim b.delivery [
  | answered ↦ (true, (serve_http b.time post addr r).1)
  | served_only ↦ (false, (serve_http b.time post addr r).1)
  | lost ↦ (false, r)
]

-- The first beat and the loop, which ends at the first error.
unfoldable pub heartbeat : Str → List Beat → Registry → Registry
heartbeat addr [] r = r
heartbeat addr (b ∷ beats) r =
    let (sent, r') = send_heartbeat addr b r in
    let rest = heartbeat addr beats r' in if sent then rest else r'
