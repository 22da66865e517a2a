-- ===== src/GeeRpc/XClient.antt =====
-- geerpc/xclient/xclient.go: one client for many servers.
--
-- A `*Client` is a number, and `store` is what stands behind the pointers. `XDial` is an argument:
-- what it returns for an address. A broadcast gets the outcomes of its calls in the order in which
-- their goroutines come to the lock.
pub mod Dialing
pub mod Gathering
mod Tests
use distributed_study.Common.{
  ℕ, ◌+◌, Str, Dict, lookup, insert, erase, Option, none, some, ◌>>=◌, List, [], ◌∷◌, Bool, true,
  false, not, ◌&&◌, ◌==◌, nat_key, str_key, if◌then◌else◌,
}
use distributed_study.GeeRpc.Discovery
use distributed_study.GeeRpc.Discovery.{Discovery, SelectMode, ok, err}
use distributed_study.GeeRpc.Client.{Client, is_available, close}

pub record XClient : Type 0 where
  pub clients : Dict Str ℕ
  pub store : ℕ → Client
  pub next_client : ℕ

pub data Dialed : Type 0 where
  connected : Client → Dialed
  refused : Str → Dialed

pub data DialResult : Type 0 where
  dialed : ℕ → DialResult
  dial_failed : Str → DialResult

pub set_client : (ℕ → Client) → ℕ → Client → ℕ → Client
set_client store i c j = if i == j then c else store j

-- `Close`: the loop over the clients, and the map without them.
pub close_each : Dict Str ℕ → (ℕ → Client) → ℕ → Client
close_each [] store = store
close_each ((_, i) ∷ rest) store = close_each rest (set_client store i (close (store i)).1)

pub close_all : XClient → XClient
close_all xc = record xc { clients = []; store = close_each xc.clients xc.store }

-- The part of `dial` that makes a client and enters it.
pub connect : (Str → Dialed) → Str → XClient → DialResult × XClient
connect x_dial addr xc = elim (x_dial addr) [
  | refused e ↦ (dial_failed e, xc)
  | connected c ↦ (
    dialed xc.next_client,
    record xc {
      clients = insert addr xc.next_client xc.clients;
      store = set_client xc.store xc.next_client c;
      next_client = xc.next_client + 1;
    },
  )
]

-- `dial`: a client that is not available is closed and deleted, and the variable that holds it is
-- not reset, so it is what is returned.
pub dial : (Str → Dialed) → Str → XClient → DialResult × XClient
dial x_dial addr xc = elim (lookup addr xc.clients) [
  | none ↦ connect x_dial addr xc
  | some i ↦ if is_available (xc.store i) then (dialed i, xc) else (
    dialed i,
    record xc {
      clients = erase addr xc.clients;
      store = set_client xc.store i (close (xc.store i)).1;
    },
  )
]

-- What a broadcast's goroutines share: the error, whether a reply is still to be set, the reply.
pub record Gathered : Type 0 where
  pub error : Option Str
  pub reply_done : Bool
  pub reply : Option Str

pub data Outcome : Type 0 where
  succeeded failed : Str → Outcome

-- What a goroutine does under the lock with the outcome of its call.
pub gather_one : Outcome → Gathered → Gathered
gather_one (failed e) g = elim g.error [ none ↦ record g { error = some e } | some first ↦ g ]
gather_one (succeeded body) g =
    if not g.reply_done then record g { reply = some body; reply_done = true } else g

pub gather : List Outcome → Gathered → Gathered
gather [] g = g
gather (o ∷ os) g = gather os (gather_one o g)

-- The state that the goroutines start from; `wanted` is whether the caller passed a reply.
pub start_gather : Bool → Gathered
start_gather wanted = record { error = none; reply_done = not wanted; reply = none }

-- The client that a `Call` goes to, or why there is none.
pub data Routed : Type 0 where
  routed : ℕ → Routed
  not_dialed : Str → Routed
  no_server : Discovery.Error → Routed

abbrev routed_of : DialResult → Routed
routed_of (dialed i) = routed i
routed_of (dial_failed e) = not_dialed e

-- `Call`, up to the call of the client; `none` is a panic of `Get`.
unfoldable pub route :
    (ℕ → ℕ)
    → (Str → Dialed)
    → SelectMode
    → Discovery
    → XClient
    → Option (Routed × XClient) × Discovery
route intn x_dial mode d xc =
    let (choice, d') = Discovery.get intn mode d in
    elim choice [
      | none ↦ (none, d')
      | some answer ↦ elim answer [
        | err e ↦ (some (no_server e, xc), d')
        | ok addr ↦ (some (routed_of (dial x_dial addr xc).0, (dial x_dial addr xc).1), d')
      ]
    ]

-- What a broadcast returns: its error, and the reply that it has set.
pub data Answered : Type 0 where
  unlisted : Discovery.Error → Answered
  gathered : Gathered → Answered

-- `Broadcast`: `GetAll` of the discovery, an interface, and then the outcomes of the calls of the
-- servers; `none` is a fatal end in `GetAll`.
unfoldable pub broadcast :
    {D : Type 0}
    → (D → Option (Discovery.Result (List Str) × D))
    → (List Str → List Outcome)
    → Bool
    → D
    → Option (Answered × D)
broadcast get_all call_all wanted d = do
  (listed, d') ← get_all d
  elim listed [
    | err e ↦ some (unlisted e, d')
    | ok servers ↦ some (gathered (gather (call_all servers) (start_gather wanted)), d')
  ]
