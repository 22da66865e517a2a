-- ===== src/GeeRpc/XClient/Dialing.antt =====
-- Which client `dial` returns, and what `Close` leaves.
use distributed_study.Common.{
  ℕ, ◌≡◌, refl, Str, Dict, lookup, lookup-insert, lookup-erase, none, some, [], ◌∷◌, true, false,
  ◌==◌, nat_key, str_key, str_beq_iff, arith, Bool-cases, Option-cases, inl, inr,
}
use distributed_study.GeeRpc.Client.{Client, is_available, close}
use distributed_study.GeeRpc.XClient.{
  XClient, Dialed, dialed, set_client, close_each, close_all, connect, dial,
}

close-unavailable : (c : Client) → is_available (close c).1 ≡ false
unfolding close is_available
close-unavailable c = ground arith

-- Where the client of an address is no longer available, `dial` returns that client, still not
-- available, and deletes the address's entry.
dial_dead :
    (x_dial : Str → Dialed) (addr : Str) (i : ℕ) (xc : XClient)
    → lookup addr xc.clients ≡ some i
    → is_available (xc.store i) ≡ false
    → ((dial x_dial addr xc).0 ≡ dialed i)
      × (is_available ((dial x_dial addr xc).1.store i) ≡ false)
      × (lookup addr (dial x_dial addr xc).1.clients ≡ none)
unfolding dial set_client
dial_dead x_dial addr i xc has dead =
    let shut = close-unavailable (xc.store i) in
    let gone = lookup-erase addr addr xc.clients in let same = str_beq_iff addr addr in ground arith

dial_kept :
    (x_dial : Str → Dialed) (addr : Str) (i : ℕ) (xc : XClient)
    → lookup addr xc.clients ≡ some i
    → is_available (xc.store i) ≡ true
    → dial x_dial addr xc ≡ (dialed i, xc)
unfolding dial
dial_kept x_dial addr i xc has alive = ground arith

dial_enters :
    (x_dial : Str → Dialed) (addr : Str) (i : ℕ) (xc : XClient)
    → (dial x_dial addr xc).0 ≡ dialed i
    → is_available ((dial x_dial addr xc).1.store i) ≡ true
    → lookup addr (dial x_dial addr xc).1.clients ≡ some i
unfolding dial connect set_client
dial_enters x_dial addr i xc =
    let same = str_beq_iff addr addr in
    let added = lookup-insert addr addr xc.next_client xc.clients in
    elim (Option-cases (lookup addr xc.clients)) [
      | inl e ↦ ground arith
      | inr (j, e) ↦ let shut = close-unavailable (xc.store j) in ground arith
    ]

-- A client that `dial` returned and that is still available is what the next `dial` of the address
-- returns, which changes nothing.
dial-dial :
    (x_dial : Str → Dialed) (addr : Str) (i : ℕ) (xc : XClient)
    → (dial x_dial addr xc).0 ≡ dialed i
    → is_available ((dial x_dial addr xc).1.store i) ≡ true
    → dial x_dial addr (dial x_dial addr xc).1 ≡ (dialed i, (dial x_dial addr xc).1)
dial-dial x_dial addr i xc first alive =
    dial_kept x_dial addr i (dial x_dial addr xc).1 (dial_enters x_dial addr i xc first alive) alive

close_each-closed :
    (m : Dict Str ℕ) (store : ℕ → Client) (j : ℕ)
    → is_available (store j) ≡ false
    → is_available (close_each m store j) ≡ false
unfolding close_each set_client
close_each-closed [] store j h = h
close_each-closed ((a, i) ∷ m) store j h =
    let shut = close-unavailable (store i) in
    close_each-closed m (set_client store i (close (store i)).1) j (ground arith)

close_each-found :
    (m : Dict Str ℕ) (store : ℕ → Client) (addr : Str) (j : ℕ)
    → lookup addr m ≡ some j
    → is_available (close_each m store j) ≡ false
unfolding close_each set_client lookup
close_each-found [] store addr j h = ground arith
close_each-found ((a, i) ∷ m) store addr j h =
    let shut = close-unavailable (store i) in
    let next = set_client store i (close (store i)).1 in
    elim (Bool-cases (a == addr)) [
      | inl e ↦ close_each-closed m next j (ground arith)
      | inr e ↦ close_each-found m next addr j (ground arith)
    ]

-- After `Close` no client is kept, and none that was kept is available.
close_all_lem :
    (xc : XClient) (addr : Str) (i : ℕ)
    → lookup addr xc.clients ≡ some i
    → (is_available ((close_all xc).store i) ≡ false) × (lookup addr (close_all xc).clients ≡ none)
unfolding close_all lookup
close_all_lem xc addr i h = (close_each-found xc.clients xc.store addr i h, refl)
