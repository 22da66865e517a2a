-- ===== src/GeeRpc/Heartbeat/Listed.antt =====
-- How long a server that sends heartbeats is listed.
use distributed_study.Common.{
  ℕ, ◌+◌, ◌≡◌, ◌⊎◌, refl, ◌∙◌, ap, Str, List, [], ◌∷◌, false, ◌||◌, ◌==◌, nat_key, str_key, str_beq,
  ltb, contains, arith, inl, inr,
}
use distributed_study.GeeRpc.Registry.{Registry, serve_http, put_server, alive_servers}
use distributed_study.GeeRpc.Registry.Alive.{IsUnique, put_server-IsUnique, put_server_alive}
use distributed_study.GeeRpc.Heartbeat.{
  Delivery, answered, served_only, lost, Beat, send_heartbeat, heartbeat,
}

-- The time of the last beat that the registry served, of the beats up to the first error.
unfoldable pub last_served : ℕ → List Beat → ℕ
last_served t [] = t
last_served t (b ∷ beats) = elim b.delivery [
  | answered ↦ last_served b.time beats
  | served_only ↦ b.time
  | lost ↦ t
]

Delivery-cases : (d : Delivery) → (d ≡ answered) ⊎ ((d ≡ served_only) ⊎ (d ≡ lost))
Delivery-cases answered = inl refl
Delivery-cases served_only = inr (inl refl)
Delivery-cases lost = inr (inr refl)

put_server-timeout : (t : ℕ) (addr : Str) (r : Registry) → (put_server t addr r).timeout ≡ r.timeout
unfolding put_server
put_server-timeout t addr r = ground arith

heartbeat_after :
    (addr : Str) (later t : ℕ) (beats : List Beat) (r : Registry)
    → str_beq addr [] ≡ false
    → IsUnique r.servers
    → contains addr (alive_servers later (heartbeat addr beats (put_server t addr r))).0
      ≡ ((r.timeout == 0) || ltb later (last_served t beats + r.timeout))
unfolding heartbeat send_heartbeat serve_http last_served
heartbeat_after addr later t [] r named u = put_server_alive t later addr r u
heartbeat_after addr later t (b ∷ beats) r named u =
    let r' = put_server t addr r in
    let same = put_server-timeout t addr r in
    let again = put_server-IsUnique t addr r u in
    elim (Delivery-cases b.delivery) [
      | inl sent ↦
          let rest = heartbeat_after addr later b.time beats r' named again in
          rw (sent, named)
            (rest ∙ ap (λ (o : ℕ). (o == 0) || ltb later (last_served b.time beats + o)) same)
      | inr (inl unheard) ↦
          rw (unheard, named)
            (put_server_alive b.time later addr r' again
              ∙ ap (λ (o : ℕ). (o == 0) || ltb later (b.time + o)) same)
      | inr (inr gone) ↦ rw gone (put_server_alive t later addr r u)
    ]

-- A server whose first beat is answered is listed until its timeout has passed since the last
-- beat that the registry served, and for ever if the timeout is 0; the beats end with the first
-- error, which the registry may have served all the same. The server's address is not empty, and
-- the registry has one entry for each address.
pub heartbeat_alive :
    (addr : Str) (later first : ℕ) (beats : List Beat) (r : Registry)
    → str_beq addr [] ≡ false
    → IsUnique r.servers
    → contains addr
        (alive_servers later
          (heartbeat addr (record { time = first; delivery = answered } ∷ beats) r)).0
      ≡ ((r.timeout == 0) || ltb later (last_served first beats + r.timeout))
unfolding heartbeat send_heartbeat serve_http
heartbeat_alive addr later first beats r named u =
    rw named (heartbeat_after addr later first beats r named u)
